-- ===== src/Cpu/Mmu.antt =====
-- cpu/src/cliente.c: the CPU's segment table and `pedir_direccion_mmu`. `tam_max_segmento` is not 0.
use tp_so_limpio.Base.{
  ℕ, ◌+◌, ◌/◌, ◌%◌, ◌^◌, ◌≤◌, ◌<◌, ◌≡◌, ◌⊎◌, refl, inl, inr, Bool, true, false, Option, none, some,
  List, [], ◌∷◌, ◌++◌, arith, ltb, ◌==◌, if◌then◌else◌, Bool-cases, Option-cases, add32, subst,
}
use tp_so_limpio.GlobalUtils.{Mensaje, op, entero, error_segmentation_fault}
use tp_so_limpio.Cpu.Contexto.{SegmentoCpu, ContextoCpu}

unfoldable pub crear_segmento : ℕ → ℕ → ℕ → ContextoCpu → ContextoCpu
crear_segmento id tamanio base c =
    let nuevo : SegmentoCpu = record { id_segmento = id; base = base; tamanio = tamanio } in
    record c { tabla_segmentos = c.tabla_segmentos ++ (nuevo ∷ []) }

abbrev pub tiene_mismo_id : ℕ → SegmentoCpu → Bool
tiene_mismo_id id s = id == s.id_segmento

-- `list_remove_by_condition` and `list_find`, with `tiene_mismo_id`.
unfoldable pub quitar_por_id : ℕ → List SegmentoCpu → List SegmentoCpu
quitar_por_id id [] = []
quitar_por_id id (s ∷ ss) = if tiene_mismo_id id s then ss else s ∷ quitar_por_id id ss

unfoldable pub buscar_por_id : ℕ → List SegmentoCpu → Option SegmentoCpu
buscar_por_id id [] = none
buscar_por_id id (s ∷ ss) = if tiene_mismo_id id s then some s else buscar_por_id id ss

unfoldable pub eliminar_segmento_cpu : ℕ → ContextoCpu → ContextoCpu
eliminar_segmento_cpu id c = record c { tabla_segmentos = quitar_por_id id c.tabla_segmentos }

-- What the function returns, what it sends to the Kernel Scheduler, and whether it sets
-- `seg_fault_ocurrido`.
pub record Traduccion : Type 0 where
  pub valor : ℕ
  pub al_kernel : List Mensaje
  pub seg_fault : Bool

-- The value of `ERROR_SEGMENTATION_FAULT` in `op_code`, which is returned as if it were an address.
abbrev pub fallo : ℕ → Traduccion
fallo pid = record {
  valor = 13;
  al_kernel = op error_segmentation_fault ∷ entero pid ∷ [];
  seg_fault = true;
}

abbrev pub acierto : ℕ → Traduccion
acierto dir = record { valor = dir; al_kernel = []; seg_fault = false }

-- Without a context only the value is returned.
unfoldable pub pedir_direccion_mmu : ℕ → Option ContextoCpu → ℕ → ℕ → Traduccion
pedir_direccion_mmu tam_max none dir_logica n = acierto 13
pedir_direccion_mmu tam_max (some c) dir_logica n =
    let desplazamiento = dir_logica % tam_max in
    elim (buscar_por_id (dir_logica / tam_max) c.tabla_segmentos) [
      | none ↦ fallo c.pid
      | some s ↦
          if ltb s.tamanio (add32 desplazamiento n)
          then fallo c.pid
          else acierto (add32 s.base desplazamiento)
    ]

-- Either the segment that the address names is in the table and the access ends within it, and the
-- address is the segment's base plus the offset, with nothing sent; or there is no such segment or
-- the access leaves it, and the fault is recorded and sent. The size and the largest segment together
-- are less than 4 GiB.
pub pedir_direccion_mmu_lem :
    (tam_max : ℕ) (c : ContextoCpu) (dir n : ℕ)
    → 0 < tam_max
    → tam_max + n < 2 ^ 32
    → ((s : SegmentoCpu) × (buscar_por_id (dir / tam_max) c.tabla_segmentos ≡ some s)
        × (dir % tam_max + n ≤ s.tamanio)
        × (pedir_direccion_mmu tam_max (some c) dir n ≡ acierto (add32 s.base (dir % tam_max))))
      ⊎ (((s : SegmentoCpu)
            → buscar_por_id (dir / tam_max) c.tabla_segmentos ≡ some s
            → s.tamanio < dir % tam_max + n)
          × (pedir_direccion_mmu tam_max (some c) dir n ≡ fallo c.pid))
unfolding pedir_direccion_mmu
pedir_direccion_mmu_lem tam_max c dir n pos cabe =
    let menor : dir % tam_max < tam_max = omega arith in
    elim (Option-cases (buscar_por_id (dir / tam_max) c.tabla_segmentos)) [
      | inl nada ↦
          inr (
            λ s e. (let z : none ≡ some s = rw nada at e in cc),
            rw (nada, pedir_direccion_mmu) refl,
          )
      | inr (s, hay) ↦ elim (Bool-cases (ltb s.tamanio (add32 (dir % tam_max) n))) [
        | inl t ↦ inr (
          λ z e.
              let y : some s ≡ some z = rw hay at e in
              let igual : s ≡ z = cc in
              subst (λ (k : SegmentoCpu). k.tamanio < dir % tam_max + n) igual (ground arith),
          rw (hay, t, pedir_direccion_mmu) refl,
        )
        | inr t ↦ inl (s, hay, ground arith, rw (hay, t, pedir_direccion_mmu) refl)
      ]
    ]
