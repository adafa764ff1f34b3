-- ===== src/KernelScheduler/Niveles.antt =====
-- kernel_scheduler/src/server/src/server.c: the head of the first queue of CMN that is not empty.
use tp_so_limpio.Base.{
  ℕ, zero, suc, ◌+◌, ◌≡◌, refl, ap, subst, Option, none, some, List, [], ◌∷◌, ◌==◌, ◌&&◌, length,
  arith,
}
use tp_so_limpio.KernelScheduler.Estado.{Nivel}
use tp_so_limpio.KernelScheduler.Cpus.{con_cabeza, primero_de_niveles}
use tp_so_limpio.KernelScheduler.Veces.{marca, veces, cola_de, en_niveles}

-- The head of the first queue that is not empty is taken from one level, and from no other.
pub record Primero (p : ℕ) (vs vs' : List Nivel) : Type 0 where
  pub k : ℕ
  pub cuentas :
      (q n : ℕ) → veces q (cola_de n vs) ≡ veces q (cola_de n vs') + marca (n == k && p == q)
  pub menos : en_niveles vs ≡ en_niveles vs' + 1
  pub cantidad : length vs' ≡ length vs

Primero-cola :
    (v : Nivel) (vs vs' : List Nivel) (c : List ℕ) {p : ℕ}
    → v.cola ≡ c
    → con_cabeza v vs none c ≡ some (p, vs')
    → Primero p (v ∷ vs) vs'
Primero-cola v vs vs' [] i e = absurd (cc)
Primero-cola v vs vs' (q ∷ ps) {p} i e =
    let w : Nivel = record v { cola = ps } in
    let igual : q ≡ p = cc in
    let resto : w ∷ vs ≡ vs' = cc in
    subst (λ (k : ℕ). Primero k (v ∷ vs) vs') igual
      (subst (λ (l : List Nivel). Primero q (v ∷ vs) l) resto
        (record { k = 0; cuentas = cuentas; menos = rw i (omega arith); cantidad = refl }))
  where
    cuentas :
        (r n : ℕ)
        → veces r (cola_de n (v ∷ vs))
          ≡ veces r (cola_de n (record v { cola = ps } ∷ vs)) + marca (n == 0 && q == r)
    cuentas r zero = rw i (ground arith)
    cuentas r (suc n) = ground arith

mas_abajo :
    (v : Nivel) (vs vs' : List Nivel) {p : ℕ}
    → v.cola ≡ []
    → Primero p vs vs'
    → Primero p (v ∷ vs) (v ∷ vs')
mas_abajo v vs vs' {p} i r = record {
  k = suc r.k;
  cuentas = cuentas;
  menos = let z = r.menos in omega arith;
  cantidad = ap suc r.cantidad;
}
  where
    cuentas :
        (q n : ℕ)
        → veces q (cola_de n (v ∷ vs))
          ≡ veces q (cola_de n (v ∷ vs')) + marca (n == suc r.k && p == q)
    cuentas q zero = ground arith
    cuentas q (suc n) = let z = r.cuentas q n in ground arith

con_cabeza-Primero :
    (v : Nivel) (vs vs' : List Nivel) (c : List ℕ) (o : Option (ℕ × List Nivel)) {p : ℕ}
    → v.cola ≡ c
    → ((q : ℕ) (ws : List Nivel) → o ≡ some (q, ws) → Primero q vs ws)
    → con_cabeza v vs o c ≡ some (p, vs')
    → Primero p (v ∷ vs) vs'
con_cabeza-Primero v vs vs' (q ∷ ps) o i ih e = Primero-cola v vs vs' (q ∷ ps) i e
con_cabeza-Primero v vs vs' [] none i ih e = absurd (cc)
con_cabeza-Primero v vs vs' [] (some (q, ws)) {p} i ih e =
    let igual : q ≡ p = cc in
    let resto : v ∷ ws ≡ vs' = cc in
    subst (λ (k : ℕ). Primero k (v ∷ vs) vs') igual
      (subst (λ (l : List Nivel). Primero q (v ∷ vs) l) resto (mas_abajo v vs ws i (ih q ws refl)))

con_cabeza-vacio :
    (v : Nivel) (vs : List Nivel) (c : List ℕ) (o : Option (ℕ × List Nivel))
    → con_cabeza v vs o c ≡ none
    → (c ≡ []) × (o ≡ none)
con_cabeza-vacio v vs (q ∷ ps) o e = absurd (cc)
con_cabeza-vacio v vs [] none e = (refl, refl)
con_cabeza-vacio v vs [] (some r) e = absurd (cc)

pub primero_de_niveles-Primero :
    (vs vs' : List Nivel) {p : ℕ} → primero_de_niveles vs ≡ some (p, vs') → Primero p vs vs'
unfolding primero_de_niveles
primero_de_niveles-Primero [] vs' e = absurd (cc)
primero_de_niveles-Primero (v ∷ vs) vs' {p} e =
    con_cabeza-Primero v vs vs' v.cola (primero_de_niveles vs) refl
      (λ q ws h. primero_de_niveles-Primero vs ws h) e

-- Nothing is taken only where all queues are empty.
pub primero-vacio : (vs : List Nivel) → primero_de_niveles vs ≡ none → en_niveles vs ≡ 0
unfolding primero_de_niveles
primero-vacio [] e = refl
primero-vacio (v ∷ vs) e =
    let (a, b) = con_cabeza-vacio v vs v.cola (primero_de_niveles vs) e in
    rw a (let z = primero-vacio vs b in omega arith)
