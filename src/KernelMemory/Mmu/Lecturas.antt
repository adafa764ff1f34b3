-- ===== src/KernelMemory/Mmu/Lecturas.antt =====
-- What the Kernel Scheduler's I/O reads: the bytes behind a logical address.
use tp_so_limpio.Base.{
  ℕ, ◌+◌, ◌/◌, ◌%◌, ◌≤◌, ◌<◌, ◌^◌, ◌≡◌, sym, ◌∙◌, inl, inr, false, none, some, List, arith, ltb,
  ◌||◌, Bool-cases, Option-cases, add32, sub32, leer_plano,
}
use tp_so_limpio.KernelMemory.Config.{Config}
use tp_so_limpio.KernelMemory.Fisica.{Nodo, Fisica, buscar_ms_por_direccion_global, pedir_lectura}
use tp_so_limpio.KernelMemory.Fisica.Plano.{Coherente, byte, buscar_dentro}
use tp_so_limpio.KernelMemory.Fisica.Lectura.{pedir_lectura_lem}
use tp_so_limpio.KernelMemory.Estado.{Mapa}
use tp_so_limpio.KernelMemory.Mmu.{segmento_de, stick_de, leer_logica}

module _ (total : ℕ) (f : Fisica) (coh : Coherente total f) where
  -- A stick that is found serves the whole range.
  stick_de_lem :
      (dir n : ℕ) (ms : Nodo)
      → n < 2 ^ 31
      → total < 2 ^ 31
      → stick_de f dir n ≡ some ms
      → (buscar_ms_por_direccion_global f.lista_memory_sticks dir ≡ some ms)
        × (dir + n ≤ ms.base_global + ms.tamanio)
  stick_de_lem dir n ms chico lim e =
      elim (Option-cases (buscar_ms_por_direccion_global f.lista_memory_sticks dir)) [
        | inl nada ↦ let z : none ≡ some ms = rw nada at e in cc
        | inr (k, hay) ↦
            let (desde, hasta, val) =
              buscar_dentro total f.red coh.limite f.lista_memory_sticks dir k coh.nodos hay in
            let cabe = val.0 in
            elim (Bool-cases (ltb k.tamanio (add32 (sub32 dir k.base_global) n))) [
              | inl t ↦ let z : none ≡ some ms = rw (hay, t) at e in cc
              | inr t ↦
                  let z : some k ≡ some ms = rw (hay, t) at e in
                  let k-ms : k ≡ ms = cc in rw (← k-ms) (hay, ground arith)
            ]
      ]

  -- For a size that is not 0, and a size, a memory and a maximal segment size below 2 ^ 31: if bytes
  -- are sent at all, they are those of the flat memory behind the segment's base and the offset, and
  -- they lie within the segment, which is not suspended.
  pub leer_logica_lem :
      (cfg : Config) (pid dir n : ℕ) (m : Mapa) (bytes : List ℕ)
      → 0 < n
      → n < 2 ^ 31
      → total < 2 ^ 31
      → 0 < cfg.segment_max_size
      → cfg.segment_max_size < 2 ^ 31
      → leer_logica cfg pid dir n f m ≡ some bytes
      → (p : ℕ) × (segmento_de m pid (dir / cfg.segment_max_size) ≡ some p)
        × ((m.segmentos p).en_swap ≡ false)
        × (dir % cfg.segment_max_size + n ≤ (m.segmentos p).limite)
        × (leer_plano (byte f) (add32 (m.segmentos p).direccion_base (dir % cfg.segment_max_size)) n
            ≡ some bytes)
  unfolding leer_logica
  leer_logica_lem cfg pid dir n m bytes pos chico lim max0 max e =
      let k = cfg.segment_max_size in
      let d = dir % k in
      let menor : d < k = omega arith in
      elim (Option-cases (segmento_de m pid (dir / k))) [
        | inl nada ↦ let z : none ≡ some bytes = rw (nada, leer_logica) at e in cc
        | inr (p, hay) ↦
            let s = m.segmentos p in
            elim (Bool-cases (s.en_swap || ltb s.limite (add32 d n))) [
              | inl t ↦ let z : none ≡ some bytes = rw (hay, t, leer_logica) at e in cc
              | inr t ↦
                  let fis = add32 s.direccion_base d in
                  elim (Option-cases (stick_de f fis n)) [
                    | inl nada ↦
                        let z : none ≡ some bytes = rw (hay, t, nada, leer_logica) at e in cc
                    | inr (ms, esta) ↦
                        let z : pedir_lectura f ms fis n ≡ some bytes =
                          rw (hay, t, esta, leer_logica) at e in
                        let (b, c) = stick_de_lem fis n ms chico lim esta in
                        (
                          p,
                          hay,
                          ground arith,
                          ground arith,
                          sym (pedir_lectura_lem total f coh ms fis n pos b c) ∙ z,
                        )
                  ]
            ]
      ]
