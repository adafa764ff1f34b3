-- ===== src/KernelMemory/Compactacion/Cuentas.antt =====
-- Compaction tiles the memory anew: the resident segments one behind the other from address 0 on, and
-- one hole behind them.
use mathlib.Core.List.{Permᴰ}
use tp_so_limpio.Base.{
  ℕ, ◌+◌, ◌≤◌, ◌≡◌, refl, ap, ◌∙◌, sym, inl, inr, List, [], ◌∷◌, arith, ◌==◌, if◌then◌else◌,
  Bool-cases, suma, suma-append, suma-perm,
}
use tp_so_limpio.Commons.{Commons}
use tp_so_limpio.KernelMemory.Huecos.Cobertura.{dentro}
use tp_so_limpio.KernelMemory.Fisica.{Fisica}
use tp_so_limpio.KernelMemory.Estado.{Segmento, Contexto, Mapa, suma_tablas}
use tp_so_limpio.KernelMemory.Estado.Sumas.{es, suma_tablas-ext, suma_tablas-nula}
use tp_so_limpio.KernelMemory.Particion.{Particion, cubre_seg, bytes_seg, bytes_ocupados, veces}
use tp_so_limpio.KernelMemory.Compactacion.Mudanza.{Mudado, bytes_residentes, mudar_todos-Mudado}
use tp_so_limpio.KernelMemory.Compactacion.{
  residentes, todos_los_segmentos, mudar_todos, gran_hueco_final, ordenar_por_base,
  ejecutar_compactacion_fisica_memory_stick,
}

module _ (h : ℕ → Segmento) (g : ℕ → ℕ) where
  suma-residentes :
      (ps : List ℕ) → suma g (residentes h ps) ≡ suma (λ p. if (h p).en_swap then 0 else g p) ps
  unfolding residentes
  suma-residentes [] = refl
  suma-residentes (p ∷ ps) = elim (Bool-cases (h p).en_swap) [
    | inl t ↦ rw t (suma-residentes ps ∙ omega arith)
    | inr t ↦ rw t (ap (λ n. g p + n) (suma-residentes ps))
  ]

  -- A sum over the collected segments is one over the tables that skips those in SWAP.
  pub suma-todos_los_segmentos :
      (cs : List Contexto)
      → suma g (todos_los_segmentos h cs) ≡ suma_tablas (λ p. if (h p).en_swap then 0 else g p) cs
  unfolding todos_los_segmentos
  suma-todos_los_segmentos [] = refl
  suma-todos_los_segmentos (c ∷ cs) =
      suma-append g (residentes h c.tabla_segmentos) (todos_los_segmentos h cs)
      ∙ omega (arith, suma-residentes c.tabla_segmentos, suma-todos_los_segmentos cs)

module _ (m : Mapa) (v : Particion m) where
  unfoldable pub todos : List ℕ
  todos = todos_los_segmentos m.segmentos m.lista_contextos

  bytes-todos : bytes_residentes m.segmentos todos ≡ bytes_ocupados m
  unfolding todos
  bytes-todos = suma-todos_los_segmentos m.segmentos _ m.lista_contextos

  pub veces-todos : (q : ℕ) → suma (es q) todos ≡ (if (m.segmentos q).en_swap then 0 else veces q m)
  unfolding todos
  veces-todos q = elim (Bool-cases (m.segmentos q).en_swap) [
    | inl t ↦
        suma-todos_los_segmentos m.segmentos (es q) m.lista_contextos
        ∙ rw t (
            suma_tablas-ext _ (λ _. 0)
              (λ p. elim (Bool-cases (q == p)) [
                | inl e ↦ let igual : q ≡ p = ground arith in rw (← igual, t)
                | inr e ↦ ground arith
              ])
              m.lista_contextos
            ∙ suma_tablas-nula m.lista_contextos)
    | inr t ↦
        suma-todos_los_segmentos m.segmentos (es q) m.lista_contextos
        ∙ rw t (
            suma_tablas-ext _ (es q)
              (λ p. elim (Bool-cases (q == p)) [
                | inl e ↦ let igual : q ≡ p = ground arith in rw (e, ← igual, t)
                | inr e ↦ ground arith
              ])
              m.lista_contextos)
  ]

  -- The order in which the segments are moved plays no part in the accounts.
  module _ (f : Fisica) (orden : List ℕ) (p : Permᴰ todos orden) where
    bytes-orden : bytes_residentes m.segmentos orden ≡ bytes_ocupados m
    bytes-orden = sym (suma-perm (λ q. (m.segmentos q).limite) p) ∙ bytes-todos

    pub una-orden : (q : ℕ) → suma (es q) orden ≤ 1
    una-orden q = ground (arith, suma-perm (es q) p, veces-todos q, v.sin_compartir q)

    orden-Mudado :
        Mudado m.segmentos 0 orden
          (mudar_todos f m.segmentos 0 orden).1
          (mudar_todos f m.segmentos 0 orden).2
    orden-Mudado =
        let t = v.todo in
        let l = v.limite in
        mudar_todos-Mudado f m.segmentos 0 orden una-orden (omega (arith, bytes-orden))

    -- The new bases cover the first bytes of the memory, each once.
    ocupa-mudados :
        (x : ℕ)
        → suma_tablas (λ q. cubre_seg x ((mudar_todos f m.segmentos 0 orden).1 q)) m.lista_contextos
          ≡ dentro 0 (bytes_ocupados m) x
    unfolding todos
    ocupa-mudados x =
        let r = orden-Mudado in
        let h' = (mudar_todos f m.segmentos 0 orden).1 in
        let g = λ (q : ℕ). dentro (h' q).direccion_base (h' q).limite x in
        suma_tablas-ext _ (λ q. if (m.segmentos q).en_swap then 0 else g q)
          (λ q. rw (r.conserva q).mismo_en_swap) m.lista_contextos
        ∙ sym (suma-todos_los_segmentos m.segmentos g m.lista_contextos)
        ∙ suma-perm g p
        ∙ r.seguidos x
        ∙ rw bytes-orden

    mudados-Particion : Particion (record m {
      lista_huecos_libres =
          gran_hueco_final (mudar_todos f m.segmentos 0 orden).2 m.memoria_total_sistema;
      segmentos = (mudar_todos f m.segmentos 0 orden).1;
    })
    mudados-Particion =
        let r = orden-Mudado in
        let fin : (mudar_todos f m.segmentos 0 orden).2 ≡ bytes_ocupados m =
          r.llega ∙ omega (arith, bytes-orden) in
        let t = v.todo in
        let l = v.limite in
        record {
          limite = v.limite;
          una_vez = λ x. rw (ocupa-mudados x, fin) (ground arith);
          todo =
              let igual : suma_tablas (λ q. bytes_seg ((mudar_todos f m.segmentos 0 orden).1 q))
                    m.lista_contextos
                  ≡ bytes_ocupados m =
                suma_tablas-ext _ _
                  (λ q. rw ((r.conserva q).mismo_en_swap, (r.conserva q).mismo_limite))
                  m.lista_contextos in
              rw (igual, fin) (ground arith);
          huecos_en_rango = rw fin (ground arith);
          segmentos_en_rango = λ q vive ram.
              let ram' = sym (r.conserva q).mismo_en_swap ∙ ram in
              let esta : suma (es q) orden ≡ 1 =
                sym (suma-perm (es q) p) ∙ veces-todos q ∙ rw ram' vive in
              let cabe = r.caben q (omega arith) in omega (arith, fin);
          sin_compartir = v.sin_compartir;
          nuevos = v.nuevos;
        }

module _ (c : Commons) where
  -- Compaction keeps the memory tiled. Behind it there is at most one hole, which has all free bytes
  -- and ends where the memory ends.
  pub compactar-Particion :
      (f : Fisica) (m : Mapa)
      → Particion m
      → let m' = (ejecutar_compactacion_fisica_memory_stick c f m).1 in
        Particion m'
        × (m'.lista_huecos_libres ≡ gran_hueco_final (bytes_ocupados m) m.memoria_total_sistema)
        × (bytes_ocupados m' ≡ bytes_ocupados m)
  unfolding ejecutar_compactacion_fisica_memory_stick todos
  compactar-Particion f m v =
      let p =
        c.list_sort-perm ℕ (ordenar_por_base m.segmentos)
          (todos_los_segmentos m.segmentos m.lista_contextos) in
      let r = orden-Mudado m v f _ p in
      (
        mudados-Particion m v f _ p,
        ap (λ n. gran_hueco_final n m.memoria_total_sistema)
            (r.llega ∙ omega (arith, bytes-orden m v f _ p)),
        suma_tablas-ext _ _ (λ q. rw ((r.conserva q).mismo_en_swap, (r.conserva q).mismo_limite))
            m.lista_contextos,
      )
