-- ===== src/KernelScheduler/Veces.antt =====
-- How often a pointer stands in the lists of kernel_scheduler/utilsKS/utilsKS.c.
use tp_so_limpio.Base.{
  ℕ, zero, suc, ◌+◌, ◌<◌, ◌≡◌, refl, ap, Bool, true, false, List, [], ◌∷◌, ◌++◌, ◌==◌, ◌&&◌, length,
  arith,
}
use tp_so_limpio.KernelScheduler.Estado.{Nivel}
use tp_so_limpio.KernelScheduler.Listas.{list_remove_element, agregar_a_nivel, quitar_de_niveles}

abbrev pub marca : Bool → ℕ
marca true = 1
marca false = 0

abbrev pub veces : ℕ → List ℕ → ℕ
veces q [] = 0
veces q (x ∷ xs) = marca (x == q) + veces q xs

pub veces-append : (q : ℕ) (xs ys : List ℕ) → veces q (xs ++ ys) ≡ veces q xs + veces q ys
veces-append q [] ys = omega arith
veces-append q (x ∷ xs) ys = omega (arith, veces-append q xs ys)

pub veces-al_final :
    (q p : ℕ) (xs : List ℕ) → veces q (xs ++ (p ∷ [])) ≡ veces q xs + marca (p == q)
veces-al_final q p xs = omega (arith, veces-append q xs (p ∷ []))

pub length-al_final : (p : ℕ) (xs : List ℕ) → length (xs ++ (p ∷ [])) ≡ length xs + 1
length-al_final p [] = omega arith
length-al_final p (x ∷ xs) = omega (arith, length-al_final p xs)

pub quitado_veces :
    (p q : ℕ) (xs : List ℕ)
    → veces q xs
      ≡ veces q (list_remove_element p xs).1 + marca ((list_remove_element p xs).0 && p == q)
unfolding list_remove_element
quitado_veces p q [] = omega arith
quitado_veces p q (x ∷ xs) = ground (arith, quitado_veces p q xs)

pub quitado_length :
    (p : ℕ) (xs : List ℕ)
    → length xs ≡ length (list_remove_element p xs).1 + marca (list_remove_element p xs).0
unfolding list_remove_element
quitado_length p [] = omega arith
quitado_length p (x ∷ xs) = ground (arith, quitado_length p xs)

pub quitado_si : (p : ℕ) (xs : List ℕ) → 0 < veces p xs → (list_remove_element p xs).0 ≡ true
unfolding list_remove_element
quitado_si p [] h = absurd (omega arith)
quitado_si p (x ∷ xs) h = ground (arith, quitado_si p xs)

pub quitado_no : (p : ℕ) (xs : List ℕ) → veces p xs ≡ 0 → (list_remove_element p xs).0 ≡ false
unfolding list_remove_element
quitado_no p [] h = refl
quitado_no p (x ∷ xs) h = ground (arith, quitado_no p xs)

abbrev pub cola_de : ℕ → List Nivel → List ℕ
cola_de n [] = []
cola_de zero (v ∷ vs) = v.cola
cola_de (suc n) (v ∷ vs) = cola_de n vs

-- The processes that stand in the queues of all levels.
abbrev pub en_niveles : List Nivel → ℕ
en_niveles [] = 0
en_niveles (v ∷ vs) = length v.cola + en_niveles vs

pub agregado_veces :
    (p q n m : ℕ) (vs : List Nivel)
    → n < length vs
    → veces q (cola_de m (agregar_a_nivel n p vs))
      ≡ veces q (cola_de m vs) + marca (m == n && p == q)
unfolding agregar_a_nivel
agregado_veces p q n m [] h = absurd (omega arith)
agregado_veces p q zero zero (v ∷ vs) h = ground (arith, veces-al_final q p v.cola)
agregado_veces p q zero (suc m) (v ∷ vs) h = ground arith
agregado_veces p q (suc n) zero (v ∷ vs) h = ground arith
agregado_veces p q (suc n) (suc m) (v ∷ vs) h =
    ground (arith, agregado_veces p q n m vs (omega arith))

pub agregado_length :
    (p n : ℕ) (vs : List Nivel)
    → n < length vs
    → en_niveles (agregar_a_nivel n p vs) ≡ en_niveles vs + 1
unfolding agregar_a_nivel
agregado_length p n [] h = absurd (omega arith)
agregado_length p zero (v ∷ vs) h = omega (arith, length-al_final p v.cola)
agregado_length p (suc n) (v ∷ vs) h = omega (arith, agregado_length p n vs)

pub quitado_niveles_length :
    (p : ℕ) (vs : List Nivel)
    → en_niveles vs ≡ en_niveles (quitar_de_niveles p vs).1 + marca (quitar_de_niveles p vs).0
unfolding quitar_de_niveles
quitado_niveles_length p [] = omega arith
quitado_niveles_length p (v ∷ vs) =
    ground (arith, quitado_length p v.cola, quitado_niveles_length p vs)

pub quitado_niveles_si :
    (p k : ℕ) (vs : List Nivel)
    → ((n : ℕ) → veces p (cola_de n vs) ≡ marca (n == k))
    → (quitar_de_niveles p vs).0 ≡ true
unfolding quitar_de_niveles
quitado_niveles_si p k [] h = let z = h k in ground arith
quitado_niveles_si p zero (v ∷ vs) h = let z = h 0 in rw (quitado_si p v.cola (ground arith)) refl
quitado_niveles_si p (suc k) (v ∷ vs) h =
    let z = h 0 in
    let resto = quitado_niveles_si p k vs (λ n. let z' = h (suc n) in ground arith) in
    rw (quitado_no p v.cola (ground arith)) resto

pub quitado_niveles_veces :
    (p k q n : ℕ) (vs : List Nivel)
    → ((n : ℕ) → veces p (cola_de n vs) ≡ marca (n == k))
    → veces q (cola_de n vs)
      ≡ veces q (cola_de n (quitar_de_niveles p vs).1) + marca (n == k && p == q)
unfolding quitar_de_niveles
quitado_niveles_veces p k q n [] h = let z = h k in ground arith
quitado_niveles_veces p zero q zero (v ∷ vs) h =
    let z = h 0 in ground (arith, quitado_si p v.cola (ground arith), quitado_veces p q v.cola)
quitado_niveles_veces p zero q (suc n) (v ∷ vs) h =
    let z = h 0 in ground (arith, quitado_si p v.cola (ground arith))
quitado_niveles_veces p (suc k) q zero (v ∷ vs) h =
    let z = h 0 in ground (arith, quitado_no p v.cola (ground arith), quitado_veces p q v.cola)
quitado_niveles_veces p (suc k) q (suc n) (v ∷ vs) h =
    let z = h 0 in
    let resto = quitado_niveles_veces p k q n vs (λ m. let z' = h (suc m) in ground arith) in
    ground (arith, quitado_no p v.cola (ground arith))

-- A pointer that stands in no queue is not found.
pub quitado_niveles_no :
    (p : ℕ) (vs : List Nivel)
    → ((n : ℕ) → veces p (cola_de n vs) ≡ 0)
    → (quitar_de_niveles p vs).0 ≡ false
unfolding quitar_de_niveles
quitado_niveles_no p [] h = refl
quitado_niveles_no p (v ∷ vs) h =
    rw (quitado_no p v.cola (h 0)) (quitado_niveles_no p vs (λ n. h (suc n)))

-- The list without the first occurrence of a pointer.
abbrev pub sin : ℕ → List ℕ → List ℕ
sin p xs = (list_remove_element p xs).1

pub veces-sin :
    (p q : ℕ) (xs : List ℕ) → 0 < veces p xs → veces q xs ≡ veces q (sin p xs) + marca (p == q)
veces-sin p q xs h = let a = quitado_si p xs h in let b = quitado_veces p q xs in ground arith

pub sin-ausente : (p : ℕ) (xs : List ℕ) → veces p xs ≡ 0 → sin p xs ≡ xs
unfolding list_remove_element
sin-ausente p [] h = refl
sin-ausente p (x ∷ xs) h = ground (arith, sin-ausente p xs)

pub agregar_a_nivel_cantidad :
    (n p : ℕ) (vs : List Nivel) → length (agregar_a_nivel n p vs) ≡ length vs
unfolding agregar_a_nivel
agregar_a_nivel_cantidad n p [] = refl
agregar_a_nivel_cantidad zero p (v ∷ vs) = refl
agregar_a_nivel_cantidad (suc n) p (v ∷ vs) = ap suc (agregar_a_nivel_cantidad n p vs)

pub quitar_de_niveles_cantidad :
    (p : ℕ) (vs : List Nivel) → length (quitar_de_niveles p vs).1 ≡ length vs
unfolding quitar_de_niveles
quitar_de_niveles_cantidad p [] = refl
quitar_de_niveles_cantidad p (v ∷ vs) = ground (arith, quitar_de_niveles_cantidad p vs)
