-- ===== src/KernelMemory/Estado/Sumas.antt =====
-- How the sum of a weight over the segment tables follows each change of the tables and the store.
use mathlib.Core.Path.{fun_ext}
use tp_so_limpio.Base.{
  ℕ, zero, suc, ◌+◌, ◌*◌, ◌≡◌, ◌≢◌, ap, ◌∙◌, inl, inr, Option, some, List, [], ◌∷◌, arith, ◌==◌,
  if◌then◌else◌, ◌>>=◌, Bool-cases, suma, suma-append, remove_at, get_elem?,
}
use tp_so_limpio.KernelMemory.Estado.{
  Segmento, Contexto, Mapa, buscar_contexto, con_tabla, buscar_segmento, suma_tablas,
  agregar_contexto,
}

-- 1 for the pointer `p`, 0 for any other.
abbrev pub es : ℕ → ℕ → ℕ
es p q = if p == q then 1 else 0

-- Two weights that differ at `p` alone.
abbrev pub SoloEn : ℕ → (ℕ → ℕ) → (ℕ → ℕ) → Type 0
SoloEn p f g = (q : ℕ) → p ≢ q → f q ≡ g q

suma-cambio :
    (p : ℕ) (f g : ℕ → ℕ)
    → SoloEn p f g
    → (xs : List ℕ) → suma f xs + suma (es p) xs * g p ≡ suma g xs + suma (es p) xs * f p
suma-cambio p f g h [] = omega arith
suma-cambio p f g h (x ∷ xs) = elim (Bool-cases (p == x)) [
  | inl t ↦ let e : p ≡ x = ground arith in rw (t, ← e) (omega (arith, suma-cambio p f g h xs))
  | inr t ↦ rw (t, h x (ground arith)) (omega (arith, suma-cambio p f g h xs))
]

suma_tablas-cambio :
    (p : ℕ) (f g : ℕ → ℕ)
    → SoloEn p f g
    → (cs : List Contexto)
    → suma_tablas f cs + suma_tablas (es p) cs * g p
      ≡ suma_tablas g cs + suma_tablas (es p) cs * f p
suma_tablas-cambio p f g h [] = omega arith
suma_tablas-cambio p f g h (c ∷ cs) =
    omega (arith, suma-cambio p f g h c.tabla_segmentos, suma_tablas-cambio p f g h cs)

module _ (p : ℕ) (f g : ℕ → ℕ) (h : SoloEn p f g) (cs : List Contexto) where
  -- A pointer that stands in the tables once.
  pub suma_tablas-uno : suma_tablas (es p) cs ≡ 1 → suma_tablas f cs + g p ≡ suma_tablas g cs + f p
  suma_tablas-uno e =
      let k : suma_tablas f cs + 1 * g p ≡ suma_tablas g cs + 1 * f p =
        rw e at (suma_tablas-cambio p f g h cs) in
      omega arith

  -- One that stands in none.
  pub suma_tablas-cero : suma_tablas (es p) cs ≡ 0 → suma_tablas f cs ≡ suma_tablas g cs
  suma_tablas-cero e =
      let k : suma_tablas f cs + 0 * g p ≡ suma_tablas g cs + 0 * f p =
        rw e at (suma_tablas-cambio p f g h cs) in
      omega arith

-- Weights that agree have the same sum.
pub suma_tablas-ext :
    (f g : ℕ → ℕ)
    → ((p : ℕ) → f p ≡ g p)
    → (cs : List Contexto) → suma_tablas f cs ≡ suma_tablas g cs
suma_tablas-ext f g h cs = ap (λ k. suma_tablas k cs) (fun_ext h)

module _ (f : ℕ → ℕ) where
  pub suma_tablas-agregar_contexto :
      (pid : ℕ) (m : Mapa)
      → suma_tablas f (agregar_contexto pid m).lista_contextos ≡ suma_tablas f m.lista_contextos
  unfolding agregar_contexto
  suma_tablas-agregar_contexto pid m =
      suma-append (λ (c : Contexto). suma f c.tabla_segmentos) m.lista_contextos _ ∙ omega arith

  -- A change of the table of a context that is there.
  pub suma_tablas-con_tabla :
      (t : List ℕ → List ℕ) (cs : List Contexto) (pid : ℕ) (c : Contexto)
      → buscar_contexto cs pid ≡ some c
      → suma_tablas f (con_tabla t cs pid) + suma f c.tabla_segmentos
        ≡ suma_tablas f cs + suma f (t c.tabla_segmentos)
  unfolding buscar_contexto con_tabla
  suma_tablas-con_tabla t [] pid c e = cc
  suma_tablas-con_tabla t (d ∷ cs) pid c e = elim (Bool-cases (d.pid == pid)) [
    | inl x ↦ let igual : some d ≡ some c = rw x at e in rw x (ground arith)
    | inr x ↦ rw x (omega (arith, suma_tablas-con_tabla t cs pid c (rw x at e)))
  ]

  pub suma-quitar :
      (xs : List ℕ) (i p : ℕ) → get_elem? xs i ≡ some p → suma f xs ≡ suma f (remove_at xs i) + f p
  suma-quitar [] i p e = cc
  suma-quitar (x ∷ xs) zero p e = ground arith
  suma-quitar (x ∷ xs) (suc i) p e = omega (arith, suma-quitar xs i p e)

-- The place that the search answers holds the pointer that it answers, whose id is the one looked for.
pub buscar_segmento_lem :
    (h : ℕ → Segmento) (id i : ℕ) (ps : List ℕ) (j p : ℕ)
    → buscar_segmento h id i ps ≡ some (j, p)
    → (k : ℕ) × (j ≡ i + k) × (get_elem? ps k ≡ some p) × ((h p).id_segmento ≡ id)
unfolding buscar_segmento
buscar_segmento_lem h id i [] j p e = cc
buscar_segmento_lem h id i (q ∷ ps) j p e = elim (Bool-cases ((h q).id_segmento == id)) [
  | inl t ↦
      let r : ◌≡◌ {A = Option (ℕ × ℕ)} (some (i, q)) (some (j, p)) = rw t at e in
      (0, ground arith, ground arith, ground arith)
  | inr t ↦
      let (k, a, b, c) = buscar_segmento_lem h id (i + 1) ps j p (rw t at e) in
      (suc k, omega arith, b, c)
]

suma-nula : (xs : List ℕ) → suma (λ _. 0) xs ≡ 0
suma-nula [] = omega arith
suma-nula (x ∷ xs) = omega (arith, suma-nula xs)

pub suma_tablas-nula : (cs : List Contexto) → suma_tablas (λ _. 0) cs ≡ 0
suma_tablas-nula [] = omega arith
suma_tablas-nula (c ∷ cs) = omega (arith, suma-nula c.tabla_segmentos, suma_tablas-nula cs)

-- A context is found with its table changed.
pub buscar-con_tabla :
    (f : List ℕ → List ℕ) (cs : List Contexto) (pid : ℕ) (c : Contexto)
    → buscar_contexto cs pid ≡ some c
    → buscar_contexto (con_tabla f cs pid) pid
      ≡ some (record c { tabla_segmentos = f c.tabla_segmentos })
unfolding buscar_contexto con_tabla
buscar-con_tabla f [] pid c e = cc
buscar-con_tabla f (d ∷ cs) pid c e = elim (Bool-cases (d.pid == pid)) [
  | inl t ↦
      let z : some d ≡ some c = rw t at e in
      rw (t, t)
        (ap (λ o. o >>= λ (k : Contexto). some (record k { tabla_segmentos = f k.tabla_segmentos }))
          z)
  | inr t ↦ rw (t, t, con_tabla, buscar_contexto) (buscar-con_tabla f cs pid c (rw t at e))
]
