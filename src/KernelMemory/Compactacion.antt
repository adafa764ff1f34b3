-- ===== src/KernelMemory/Compactacion.antt =====
-- kernel_memory/src/utils.c: compaction of the resident segments.
pub mod Mudanza
pub mod Cuentas
pub mod Contenido
pub mod Fidelidad
use tp_so_limpio.Base.{
  ℕ, ◌+◌, Bool, true, false, Option, none, some, List, [], ◌∷◌, ◌++◌, ltb, ◌==◌, if◌then◌else◌,
  add32, sub32, slt32,
}
use tp_so_limpio.Commons.{Commons}
use tp_so_limpio.GlobalUtils.{
  OpCode, Mensaje, op, compactacion, compactacion_finalizada, cpus_desalojadas_ok,
}
use tp_so_limpio.KernelMemory.Huecos.{Hueco}
use tp_so_limpio.KernelMemory.Fisica.{Fisica, leer_bytes_globales, escribir_bytes_globales}
use tp_so_limpio.KernelMemory.Estado.{Segmento, Contexto, Mapa, escribir_en}

-- The pointers of a table that `!seg->en_swap` lets through.
unfoldable pub residentes : (ℕ → Segmento) → List ℕ → List ℕ
residentes h [] = []
residentes h (p ∷ ps) = if (h p).en_swap then residentes h ps else p ∷ residentes h ps

-- The two nested loops that collect the resident segments.
unfoldable pub todos_los_segmentos : (ℕ → Segmento) → List Contexto → List ℕ
unfolding residentes
todos_los_segmentos h [] = []
todos_los_segmentos h (c ∷ cs) = residentes h c.tabla_segmentos ++ todos_los_segmentos h cs

abbrev pub ordenar_por_base : (ℕ → Segmento) → ℕ → ℕ → Bool
ordenar_por_base h p q = slt32 (h p).direccion_base (h q).direccion_base

-- The bytes of a segment are moved down, and its base with them.
-- Where the read fails nothing is written, and the base is changed all the same.
unfoldable pub mudar : Fisica → (ℕ → Segmento) → ℕ → ℕ → Fisica × (ℕ → Segmento)
mudar f h p proxima = if (h p).direccion_base == proxima then (f, h) else (
  elim (leer_bytes_globales f (h p).direccion_base (h p).limite) [
    | none ↦ f
    | some bytes ↦ escribir_bytes_globales f proxima bytes
  ],
  escribir_en h p (record (h p) { direccion_base = proxima }),
)

-- The loop over the sorted segments: the memory, the store and `proxima_direccion_libre` at its end.
unfoldable pub mudar_todos : Fisica → (ℕ → Segmento) → ℕ → List ℕ → Fisica × (ℕ → Segmento) × ℕ
mudar_todos f h proxima [] = (f, h, proxima)
mudar_todos f h proxima (p ∷ ps) =
    let (f', h') = mudar f h p proxima in mudar_todos f' h' (add32 proxima (h' p).limite) ps

abbrev pub gran_hueco_final : ℕ → ℕ → List Hueco
gran_hueco_final proxima total =
    if ltb proxima total
    then record { direccion_base = proxima; tamanio = sub32 total proxima } ∷ []
    else []

module _ (c : Commons) where
  unfoldable pub ejecutar_compactacion_fisica_memory_stick : Fisica → Mapa → Fisica × Mapa
  unfolding todos_los_segmentos mudar_todos
  ejecutar_compactacion_fisica_memory_stick f m =
      let orden =
        c.list_sort ℕ (ordenar_por_base m.segmentos)
          (todos_los_segmentos m.segmentos m.lista_contextos) in
      let r = mudar_todos f m.segmentos 0 orden in
      (
        r.0,
        record m {
          lista_huecos_libres = gran_hueco_final r.2 m.memoria_total_sistema;
          segmentos = r.1;
        },
      )

  -- What is sent to the Kernel Scheduler beside the new state; `respuesta_ks` is its answer.
  unfoldable pub solicitar_y_ejecutar_compactacion :
      OpCode → Fisica → Mapa → Fisica × Mapa × List Mensaje
  solicitar_y_ejecutar_compactacion cpus_desalojadas_ok f m =
      let (f', m') = ejecutar_compactacion_fisica_memory_stick f m in
      (f', m', op compactacion ∷ op compactacion_finalizada ∷ [])
  solicitar_y_ejecutar_compactacion _ f m = (f, m, op compactacion ∷ [])
