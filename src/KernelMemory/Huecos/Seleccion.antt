-- ===== src/KernelMemory/Huecos/Seleccion.antt =====
-- Which hole `seleccionar_hueco_segun_algoritmo` picks.
use mathlib.Core.List.{head?, Permᴰ}
use mathlib.Core.List.Permᴰ
use Prim.Native.String.{String}
use text.Mathlib.Text.{◌==◌ as str_eq}
use tp_so_limpio.Base.{
  ℕ, zero, suc, ◌+◌, ◌-◌, ◌≤◌, ◌<◌, ◌≡◌, refl, inl, inr, Bool, false, List, [], ◌∷◌, Option, none,
  some, arith, ltb, leb, Bool-cases, get_elem?, subst, All, All-perm, All-map,
}
use tp_so_limpio.Commons.{Commons, EsOrden, Ordenada}
use tp_so_limpio.KernelMemory.Huecos.{
  Hueco, es_mas_chico, es_mas_grande, huecos_validos, ordenar_validos,
  seleccionar_hueco_segun_algoritmo,
}

-- A pointer to a hole of the list in which `n` bytes fit.
abbrev pub Valido : ℕ → List Hueco → ℕ × Hueco → Type 0
Valido n hs p = (get_elem? hs p.0 ≡ some p.1) × (n ≤ p.1.tamanio)

-- The same for the places from `i` on.
abbrev ValidoDesde : ℕ → ℕ → List Hueco → ℕ × Hueco → Type 0
ValidoDesde n i hs p = (i ≤ p.0) × (get_elem? hs (p.0 - i) ≡ some p.1) × (n ≤ p.1.tamanio)

ValidoDesde-cons :
    (n i : ℕ) (h : Hueco) (hs : List Hueco) (p : ℕ × Hueco)
    → ValidoDesde n (i + 1) hs p
    → ValidoDesde n i (h ∷ hs) p
ValidoDesde-cons n i h hs p v =
    let e : p.0 - i ≡ suc (p.0 - (i + 1)) = omega arith in (omega arith, rw e v.1, v.2)

validos-Valido : (n i : ℕ) (hs : List Hueco) → All (ValidoDesde n i hs) (huecos_validos n i hs)
unfolding huecos_validos
validos-Valido n i [] = tt
validos-Valido n i (h ∷ hs) =
    let resto =
      All-map (ValidoDesde n (i + 1) hs) (ValidoDesde n i (h ∷ hs)) (huecos_validos n (i + 1) hs)
        (ValidoDesde-cons n i h hs) (validos-Valido n (i + 1) hs) in
    elim (Bool-cases (leb n h.tamanio)) [
      | inl e ↦
          let z : i - i ≡ 0 = omega arith in rw e ((omega arith, rw z refl, ground arith), resto)
      | inr e ↦ rw e resto
    ]

module _ (P : Hueco → Type 0) (n : ℕ) where
  -- What holds of every listed pointer holds of every hole in which the bytes fit.
  validos-completo :
      (i : ℕ) (hs : List Hueco)
      → All (λ (p : ℕ × Hueco). P p.1) (huecos_validos n i hs)
      → (k : ℕ) (g : Hueco) → get_elem? hs k ≡ some g
      → n ≤ g.tamanio
      → P g
  unfolding huecos_validos
  validos-completo i [] v k g e le = cc
  validos-completo i (h ∷ hs) v zero g e le = elim (Bool-cases (leb n h.tamanio)) [
    | inl t ↦ subst P (ground arith) ((rw t at v).0)
    | inr f ↦ absurd (ground arith)
  ]
  validos-completo i (h ∷ hs) v (suc k) g e le = elim (Bool-cases (leb n h.tamanio)) [
    | inl t ↦ validos-completo (i + 1) hs (rw t at v).1 k g e le
    | inr f ↦ validos-completo (i + 1) hs (rw f at v) k g e le
  ]

es_mas_chico-EsOrden : EsOrden es_mas_chico
es_mas_chico-EsOrden = record {
  asimetrico = λ a b h. ground arith;
  transitivo = λ a b c h k. ground arith;
}

es_mas_grande-EsOrden : EsOrden es_mas_grande
es_mas_grande-EsOrden = record {
  asimetrico = λ a b h. ground arith;
  transitivo = λ a b c h k. ground arith;
}

-- What the answer says of the list: a hole that fits, or that none fits.
abbrev pub Elige : ℕ → List Hueco → Option (ℕ × Hueco) → Type 0
Elige n hs none = (k : ℕ) (g : Hueco) → get_elem? hs k ≡ some g → g.tamanio < n
Elige n hs (some p) = Valido n hs p

module _ (c : Commons) where
  ordenar-perm :
      (estrategia : String) (vs : List (ℕ × Hueco)) → Permᴰ vs (ordenar_validos c estrategia vs)
  unfolding ordenar_validos
  ordenar-perm estrategia vs = elim (Bool-cases (str_eq estrategia "BEST")) [
    | inl b ↦ rw b (c.list_sort-perm (ℕ × Hueco) es_mas_chico vs)
    | inr b ↦ rw b (elim (Bool-cases (str_eq estrategia "WORST")) [
      | inl w ↦ rw w (c.list_sort-perm (ℕ × Hueco) es_mas_grande vs)
      | inr w ↦ rw w (Permᴰ.refl vs)
    ])
  ]

  head-Elige :
      (n : ℕ) (hs : List Hueco) (vs : List (ℕ × Hueco))
      → Permᴰ (huecos_validos n 0 hs) vs
      → All (Valido n hs) vs
      → Elige n hs (head? vs)
  head-Elige n hs [] p v = λ k g e. elim (Bool-cases (leb n g.tamanio)) [
    | inl t ↦ absurd (
        validos-completo (λ _. ⊥) n 0 hs (All-perm (λ (q : ℕ × Hueco). ⊥) (Permᴰ.symm p) tt) k g e
          (ground arith))
    | inr f ↦ ground arith
  ]
  head-Elige n hs (x ∷ vs) p v = v.0

  -- A hole that the code picks is one of the list and is large enough; if it picks none, every
  -- hole is too small.
  pub seleccionar-Elige :
      (estrategia : String) (n : ℕ) (hs : List Hueco)
      → Elige n hs (seleccionar_hueco_segun_algoritmo c estrategia n hs)
  unfolding seleccionar_hueco_segun_algoritmo
  seleccionar-Elige estrategia n hs =
      let p = ordenar-perm estrategia (huecos_validos n 0 hs) in
      head-Elige n hs _ p (
        All-perm (Valido n hs) p (
          All-map (ValidoDesde n 0 hs) (Valido n hs) (huecos_validos n 0 hs)
            (λ q w. let z : q.0 - 0 ≡ q.0 = omega arith in (rw z at w.1, w.2))
            (validos-Valido n 0 hs)))

  head-Ordenada :
      (lt : ℕ × Hueco → ℕ × Hueco → Bool) (vs : List (ℕ × Hueco)) (p : ℕ × Hueco)
      → EsOrden lt
      → Ordenada lt vs
      → head? vs ≡ some p
      → All (λ q. lt q p ≡ false) vs
  head-Ordenada lt [] p o s e = cc
  head-Ordenada lt (x ∷ vs) p o s e =
      let x-p : x ≡ p = cc in
      let yo : lt x x ≡ false = elim (Bool-cases (lt x x)) [
        | inl t ↦ o.asimetrico x x t
        | inr f ↦ f
      ] in
      subst (λ q. All (λ r. lt r q ≡ false) (x ∷ vs)) x-p (yo, s.0)

  -- Under BEST no hole in which the bytes fit is smaller than the one picked; under WORST none is
  -- larger.
  pub seleccionar_optima :
      (n : ℕ) (hs : List Hueco) (p : ℕ × Hueco) (k : ℕ) (g : Hueco)
      → get_elem? hs k ≡ some g
      → n ≤ g.tamanio
      → (seleccionar_hueco_segun_algoritmo c "BEST" n hs ≡ some p → p.1.tamanio ≤ g.tamanio)
        × (seleccionar_hueco_segun_algoritmo c "WORST" n hs ≡ some p → g.tamanio ≤ p.1.tamanio)
  unfolding seleccionar_hueco_segun_algoritmo ordenar_validos
  seleccionar_optima n hs p k g e le =
      let vs = huecos_validos n 0 hs in
      (
        (λ b.
            let orden = es_mas_chico-EsOrden in
            let todos =
              head-Ordenada es_mas_chico _ p orden
                (c.list_sort-Ordenada (ℕ × Hueco) es_mas_chico vs orden) b in
            let sin =
              All-perm _ (Permᴰ.symm (c.list_sort-perm (ℕ × Hueco) es_mas_chico vs)) todos in
            let f = validos-completo (λ h. ltb h.tamanio p.1.tamanio ≡ false) n 0 hs sin k g e le in
            ground arith),
        (λ w.
            let orden = es_mas_grande-EsOrden in
            let todos =
              head-Ordenada es_mas_grande _ p orden
                (c.list_sort-Ordenada (ℕ × Hueco) es_mas_grande vs orden) w in
            let sin =
              All-perm _ (Permᴰ.symm (c.list_sort-perm (ℕ × Hueco) es_mas_grande vs)) todos in
            let f = validos-completo (λ h. ltb p.1.tamanio h.tamanio ≡ false) n 0 hs sin k g e le in
            ground arith),
      )
