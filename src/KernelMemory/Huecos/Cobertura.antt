-- ===== src/KernelMemory/Huecos/Cobertura.antt =====
-- Which addresses the holes cover, and how many bytes they add up to.
use tp_so_limpio.Base.{
  ℕ, zero, suc, ◌+◌, ◌≤◌, ◌<◌, ◌^◌, ◌≡◌, refl, ◌∙◌, inl, inr, true, List, [], ◌∷◌, ◌++◌, some,
  arith, ltb, leb, ◌==◌, ◌&&◌, if◌then◌else◌, Bool-cases, add32, sub32, set, remove_at, get_elem?,
  suma, suma-perm, suma-append, All, All-perm, All-append, All-get_elem?, All-remove_at, All-set,
}
use tp_so_limpio.Commons.{Commons}
use tp_so_limpio.KernelMemory.Huecos.{
  Hueco, ordenar_huecos_por_base, contiguos, unir, consolidar_desde, consolidar, recortar,
  calcular_espacio_libre_desde, calcular_espacio_libre_total, liberar_espacio_en_huecos,
}

-- 1 for an address in the `n` bytes from `base` on, 0 for any other.
abbrev pub dentro : ℕ → ℕ → ℕ → ℕ
dentro base n x = if leb base x && ltb x (base + n) then 1 else 0

abbrev pub cubre : ℕ → Hueco → ℕ
cubre x h = dentro h.direccion_base h.tamanio x

-- How many holes cover an address.
abbrev pub cobertura : ℕ → List Hueco → ℕ
cobertura x = suma (cubre x)

abbrev pub tamanio_total : List Hueco → ℕ
tamanio_total = suma (λ h. h.tamanio)

-- The hole ends within a memory of `total` bytes.
abbrev pub EnRango : ℕ → Hueco → Type 0
EnRango total h = h.direccion_base + h.tamanio ≤ total

-- What two lists of holes have in common if they describe the same free bytes.
pub record MismoEspacio (total : ℕ) (hs gs : List Hueco) : Type 0 where
  pub misma_cobertura : (x : ℕ) → cobertura x gs ≡ cobertura x hs
  pub mismo_tamanio : tamanio_total gs ≡ tamanio_total hs
  pub en_rango : All (EnRango total) gs

unir_lem :
    (total : ℕ) (a b : Hueco)
    → total < 2 ^ 32
    → EnRango total a
    → EnRango total b
    → contiguos a b ≡ true
    → ((x : ℕ) → cubre x (unir a b) ≡ cubre x a + cubre x b)
      × ((unir a b).tamanio ≡ a.tamanio + b.tamanio)
      × EnRango total (unir a b)
unir_lem total a b lim ha hb e = (λ x. ground arith, ground arith, ground arith)

consolidar_desde_lem :
    (total : ℕ) (a : Hueco) (hs : List Hueco)
    → total < 2 ^ 32
    → EnRango total a
    → All (EnRango total) hs
    → MismoEspacio total (a ∷ hs) (consolidar_desde a hs)
unfolding consolidar_desde
consolidar_desde_lem total a [] lim ha v = record {
  misma_cobertura = λ x. refl;
  mismo_tamanio = refl;
  en_rango = (ha, tt);
}
consolidar_desde_lem total a (b ∷ hs) lim ha v = elim (Bool-cases (contiguos a b)) [
  | inl e ↦
      let u = unir_lem total a b lim ha v.0 e in
      let ih = consolidar_desde_lem total (unir a b) hs lim u.2 v.1 in
      rw (e, consolidar_desde)
        (record {
          misma_cobertura = λ x. omega (arith, ih.misma_cobertura x, u.0 x);
          mismo_tamanio = omega (arith, ih.mismo_tamanio, u.1);
          en_rango = ih.en_rango;
        })
  | inr e ↦
      let ih = consolidar_desde_lem total b hs lim v.0 v.1 in
      rw (e, consolidar_desde)
        (record {
          misma_cobertura = λ x. omega (arith, ih.misma_cobertura x);
          mismo_tamanio = omega (arith, ih.mismo_tamanio);
          en_rango = (ha, ih.en_rango);
        })
]

consolidar_lem :
    (total : ℕ) (hs : List Hueco)
    → total < 2 ^ 32
    → All (EnRango total) hs
    → MismoEspacio total hs (consolidar hs)
unfolding consolidar
consolidar_lem total [] lim v = record {
  misma_cobertura = λ x. refl;
  mismo_tamanio = refl;
  en_rango = tt;
}
consolidar_lem total (h ∷ hs) lim v = consolidar_desde_lem total h hs lim v.0 v.1

-- What holds of the free list after a range is given back: each address is covered as often as
-- before, and once more in the range.
pub record Liberado (total base n : ℕ) (hs gs : List Hueco) : Type 0 where
  pub cobertura_mas : (x : ℕ) → cobertura x gs ≡ cobertura x hs + dentro base n x
  pub tamanio_mas : tamanio_total gs ≡ tamanio_total hs + n
  pub en_rango : All (EnRango total) gs

-- In a memory of less than 4 GiB, freeing a range within it adds exactly its addresses and bytes to
-- what the holes cover, however they are sorted and joined, and every hole stays in range.
pub liberar-Liberado :
    (c : Commons) (total base n : ℕ) (hs : List Hueco)
    → total < 2 ^ 32
    → base + n ≤ total
    → All (EnRango total) hs
    → Liberado total base n hs (liberar_espacio_en_huecos c base n hs)
unfolding liberar_espacio_en_huecos
liberar-Liberado c total base n hs lim h v =
    let nuevo : Hueco = record { direccion_base = base; tamanio = n } in
    let p = c.list_sort-perm Hueco ordenar_huecos_por_base (hs ++ (nuevo ∷ [])) in
    let todos = All-perm (EnRango total) p (All-append (EnRango total) hs (nuevo ∷ []) v (h, tt)) in
    let m = consolidar_lem total _ lim todos in
    record {
      cobertura_mas = λ x. omega (
        arith,
        m.misma_cobertura x,
        suma-perm (cubre x) p,
        suma-append (cubre x) hs (nuevo ∷ []),
      );
      tamanio_mas = omega (
        arith,
        m.mismo_tamanio,
        suma-perm (λ (g : Hueco). g.tamanio) p,
        suma-append (λ (g : Hueco). g.tamanio) hs (nuevo ∷ []),
      );
      en_rango = m.en_rango;
    }

-- What holds after `n` bytes are cut from the front of a hole.
pub record Recortado (total n : ℕ) (h : Hueco) (hs gs : List Hueco) : Type 0 where
  pub cobertura_menos : (x : ℕ) → cobertura x gs + dentro h.direccion_base n x ≡ cobertura x hs
  pub tamanio_menos : tamanio_total gs + n ≡ tamanio_total hs
  pub en_rango : All (EnRango total) gs
  pub entra : h.direccion_base + n ≤ total

suma-remove_at :
    (f : Hueco → ℕ) (hs : List Hueco) (i : ℕ) (h : Hueco)
    → get_elem? hs i ≡ some h
    → suma f (remove_at hs i) + f h ≡ suma f hs
suma-remove_at f [] i h e = cc
suma-remove_at f (g ∷ hs) zero h e = ground arith
suma-remove_at f (g ∷ hs) (suc i) h e = omega (arith, suma-remove_at f hs i h e)

suma-set :
    (f : Hueco → ℕ) (hs : List Hueco) (i : ℕ) (h v : Hueco)
    → get_elem? hs i ≡ some h
    → suma f (set hs i v) + f h ≡ suma f hs + f v
suma-set f [] i h v e = cc
suma-set f (g ∷ hs) zero h v e = ground arith
suma-set f (g ∷ hs) (suc i) h v e = omega (arith, suma-set f hs i h v e)

-- Placing `n` bytes in a hole of the list that is large enough takes exactly the first `n` addresses
-- of that hole from what the holes cover, whether or not the hole is used up.
pub recortar-Recortado :
    (total n i : ℕ) (h : Hueco) (hs : List Hueco)
    → total < 2 ^ 32
    → get_elem? hs i ≡ some h
    → n ≤ h.tamanio
    → All (EnRango total) hs
    → Recortado total n h hs (recortar n i h hs)
unfolding recortar
recortar-Recortado total n i h hs lim e k v =
    let r : EnRango total h = All-get_elem? (EnRango total) hs i v e in
    elim (Bool-cases (sub32 h.tamanio n == 0)) [
      | inl z ↦ rw z (record {
        cobertura_menos = λ x. ground (arith, suma-remove_at (cubre x) hs i h e);
        tamanio_menos = ground (arith, suma-remove_at (λ (g : Hueco). g.tamanio) hs i h e);
        en_rango = All-remove_at (EnRango total) hs i v;
        entra = omega arith;
      })
      | inr z ↦ rw z (record {
        cobertura_menos = λ x. ground (arith, suma-set (cubre x) hs i h (resto) e);
        tamanio_menos = ground (arith, suma-set (λ (g : Hueco). g.tamanio) hs i h (resto) e);
        en_rango = All-set (EnRango total) hs i (omega arith) v;
        entra = omega arith;
      })
    ]
  where
    resto : Hueco
    resto = record { direccion_base = add32 h.direccion_base n; tamanio = sub32 h.tamanio n }

calcular_espacio_libre_desde_lem :
    (acumulado : ℕ) (hs : List Hueco)
    → acumulado + tamanio_total hs < 2 ^ 32
    → calcular_espacio_libre_desde acumulado hs ≡ acumulado + tamanio_total hs
unfolding calcular_espacio_libre_desde
calcular_espacio_libre_desde_lem acc [] lim = omega arith
calcular_espacio_libre_desde_lem acc (h ∷ hs) lim =
    let e : add32 acc h.tamanio ≡ acc + h.tamanio = omega arith in
    rw e (calcular_espacio_libre_desde_lem (acc + h.tamanio) hs (omega arith) ∙ omega arith)

pub calcular_espacio_libre_total_lem :
    (hs : List Hueco)
    → tamanio_total hs < 2 ^ 32
    → calcular_espacio_libre_total hs ≡ tamanio_total hs
unfolding calcular_espacio_libre_total
calcular_espacio_libre_total_lem hs lim =
    calcular_espacio_libre_desde_lem 0 hs (omega arith) ∙ omega arith
