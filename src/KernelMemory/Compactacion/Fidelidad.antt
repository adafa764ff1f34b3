-- ===== src/KernelMemory/Compactacion/Fidelidad.antt =====
-- `ejecutar_compactacion_fisica_memory_stick` as a whole: no process loses a byte.
use tp_so_limpio.Base.{
  ℕ, ◌+◌, ◌≤◌, ◌<◌, ◌^◌, ◌≡◌, ◌∙◌, sym, inl, inr, true, false, List, [], ◌∷◌, arith, ◌==◌,
  Bool-cases, suma, suma-perm, All, subst,
}
use tp_so_limpio.Commons.{Commons, Ordenada, EsOrden}
use tp_so_limpio.KernelMemory.Huecos.Cobertura.{dentro}
use tp_so_limpio.KernelMemory.Fisica.{Fisica}
use tp_so_limpio.KernelMemory.Fisica.Plano.{Coherente}
use tp_so_limpio.KernelMemory.Fisica.Escritura.{Mapeado}
use tp_so_limpio.KernelMemory.Estado.{Segmento, Mapa}
use tp_so_limpio.KernelMemory.Estado.Sumas.{es}
use tp_so_limpio.KernelMemory.Particion.{Particion, veces}
use tp_so_limpio.KernelMemory.Compactacion.{
  ordenar_por_base, todos_los_segmentos, ejecutar_compactacion_fisica_memory_stick,
}
use tp_so_limpio.KernelMemory.Compactacion.Cuentas.{
  todos, veces-todos, una-orden, suma-todos_los_segmentos,
}
use tp_so_limpio.KernelMemory.Compactacion.Contenido.{contenido, Separados, mudar_todos-Trasladado}

-- A fact about the pointers that stand in a list, as a fact about the list, and back.
All-de_cuenta : (P : ℕ → Type 0) (xs : List ℕ) → ((p : ℕ) → 1 ≤ suma (es p) xs → P p) → All P xs
All-de_cuenta P [] h = tt
All-de_cuenta P (x ∷ xs) h =
    let mismo : (x == x) ≡ true = ground arith in
    (h x (ground arith), All-de_cuenta P xs (λ p k. h p (omega arith)))

All-en : (P : ℕ → Type 0) (xs : List ℕ) (p : ℕ) → 1 ≤ suma (es p) xs → All P xs → P p
All-en P [] p h v = absurd (omega arith)
All-en P (x ∷ xs) p h v = elim (Bool-cases (p == x)) [
  | inl t ↦ let e : x ≡ p = ground arith in subst P e v.0
  | inr t ↦ All-en P xs p (ground arith) v.1
]

ordenar_por_base-EsOrden : (h : ℕ → Segmento) → EsOrden (ordenar_por_base h)
ordenar_por_base-EsOrden h = record {
  asimetrico = λ a b k. ground arith;
  transitivo = λ a b c j k. ground arith;
}

module _ (total : ℕ) (h : ℕ → Segmento) (lim : total < 2 ^ 31) where
  abbrev Cabe : ℕ → Type 0
  Cabe p = ((h p).direccion_base + (h p).limite ≤ total) × (0 < (h p).limite)

  abbrev cubren : ℕ → List ℕ → ℕ
  cubren x = suma (λ p. dentro (h p).direccion_base (h p).limite x)

  -- Behind the first of a sorted list, in which no address is covered twice.
  detras :
      (p : ℕ) (ps : List ℕ)
      → Cabe p
      → All Cabe ps
      → All (λ q. ordenar_por_base h q p ≡ false) ps
      → ((x : ℕ) → dentro (h p).direccion_base (h p).limite x + cubren x ps ≤ 1)
      → All (λ q. (h p).direccion_base + (h p).limite ≤ (h q).direccion_base) ps
  detras p [] cp cs o una = tt
  detras p (q ∷ ps) cp cs o una =
      let k = una (h q).direccion_base in
      let cq = cs.0 in
      let oq = o.0 in (ground arith, detras p ps cp cs.1 o.1 (λ x. let u = una x in omega arith))

  ordenados-Separados :
      (ps : List ℕ)
      → All Cabe ps
      → Ordenada (ordenar_por_base h) ps
      → ((x : ℕ) → cubren x ps ≤ 1)
      → Separados h ps
  ordenados-Separados [] cs o una = tt
  ordenados-Separados (p ∷ ps) cs o una = (
    detras p ps cs.0 cs.1 o.0 una,
    ordenados-Separados ps cs.1 o.1 (λ x. let u = una x in omega arith),
  )

module _ (c : Commons) (f : Fisica) (m : Mapa) where
  -- If the sticks serve all of the memory and no resident segment is empty, each resident segment
  -- has behind the compaction, at its new base, the bytes that it had before at the old one, and the
  -- sticks serve the memory as before.
  pub compactar_contenido :
      (p : ℕ)
      → Particion m
      → Coherente m.memoria_total_sistema f
      → Mapeado f 0 m.memoria_total_sistema
      → ((q : ℕ) → veces q m ≡ 1 → (m.segmentos q).en_swap ≡ false → 0 < (m.segmentos q).limite)
      → veces p m ≡ 1
      → (m.segmentos p).en_swap ≡ false
      → let r = ejecutar_compactacion_fisica_memory_stick c f m in
        Coherente m.memoria_total_sistema r.0
        × (contenido r.0 (r.1.segmentos p) ≡ contenido f (m.segmentos p))
  unfolding ejecutar_compactacion_fisica_memory_stick todos
  compactar_contenido p v coh mapa llenos vive ram =
      let h = m.segmentos in
      let total = m.memoria_total_sistema in
      let lista = todos_los_segmentos h m.lista_contextos in
      let orden = c.list_sort ℕ (ordenar_por_base h) lista in
      let pm = c.list_sort-perm ℕ (ordenar_por_base h) lista in
      let so = c.list_sort-Ordenada ℕ (ordenar_por_base h) lista (ordenar_por_base-EsOrden h) in
      let son : (q : ℕ) → 1 ≤ suma (es q) orden → (veces q m ≡ 1) × ((h q).en_swap ≡ false) = λ q k.
        let a = suma-perm (es q) pm in
        let b = veces-todos m v q in let d = v.sin_compartir q in (ground arith, ground arith) in
      let caben : All (Cabe total h v.limite) orden =
        All-de_cuenta (Cabe total h v.limite) orden
          (λ q k. let (a, b) = son q k in (v.segmentos_en_rango q a b, llenos q a b)) in
      let una : (x : ℕ) → cubren total h v.limite x orden ≤ 1 = λ x.
        let a = suma-perm (λ q. dentro (h q).direccion_base (h q).limite x) pm in
        let b =
          suma-todos_los_segmentos h (λ q. dentro (h q).direccion_base (h q).limite x)
            m.lista_contextos in
        let d = v.una_vez x in ground arith in
      let sep = ordenados-Separados total h v.limite orden caben so una in
      let r =
        mudar_todos-Trasladado total f h 0 orden coh mapa (una-orden m v f orden pm)
          (All-de_cuenta _ orden (λ q k. omega arith))
          (All-de_cuenta _ orden (λ q k. let (a, b) = son q k in v.segmentos_en_rango q a b)) sep in
      let esta : suma (es p) orden ≡ 1 =
        sym (suma-perm (es p) pm) ∙ veces-todos m v p ∙ rw ram vive in
      (r.coherente, All-en _ orden p (omega arith) r.contenidos)
