-- ===== src/KernelMemory/Procesos.antt =====
-- kernel_memory/src/utils.c: processes are created and ended, and their instructions are served.
pub mod Finalizacion
use Prim.Native.String.{String, ◌++◌ as string_append}
use tp_so_limpio.Base.{
  ℕ, Bool, true, false, Option, none, some, List, [], ◌∷◌, ◌++◌, length, get_elem?, remove_at, map,
  if◌then◌else◌,
}
use tp_so_limpio.Commons.{Commons}
use tp_so_limpio.GlobalUtils.{Mensaje, op, mensaje, ok, notok}
use tp_so_limpio.KernelMemory.Config.{Config}
use tp_so_limpio.KernelMemory.Huecos.{liberar_espacio_en_huecos}
use tp_so_limpio.KernelMemory.Estado.{
  Segmento, Contexto, Proceso, Mapa, agregar_contexto, buscar_indice_contexto,
  buscar_indice_proceso,
}
use tp_so_limpio.KernelMemory.Respaldo.{liberar_bloques_swap}
use tp_so_limpio.KernelMemory.Suspension.{Sistema}

-- `leer_lineas` stands for the C library's `fopen` and `fgets`: the lines of a file, at most 255
-- characters each, or nothing where it cannot be opened. `string_trim` is so-commons'.
module _ (leer_lineas : String → Option (List String)) (string_trim : String → String) where
  unfoldable pub manejar_crear_proceso :
      Config → ℕ → String → List Proceso × Mapa → (List Proceso × Mapa) × List Mensaje
  manejar_crear_proceso cfg pid path (ps, m) =
      elim (leer_lineas (string_append cfg.scripts_basepath path)) [
        | none ↦ ((ps, m), op notok ∷ [])
        | some lineas ↦
            let proceso : Proceso = record { pid = pid; instrucciones = map string_trim lineas } in
            ((ps ++ (proceso ∷ []), agregar_contexto pid m), op ok ∷ [])
      ]

-- What the CPU is sent for an instruction.
unfoldable pub manejar_pedido_instruccion_cpu : List Proceso → ℕ → ℕ → List Mensaje
manejar_pedido_instruccion_cpu ps pid pc = elim (buscar_indice_proceso ps pid 0) [
  | none ↦ mensaje "EXIT" ∷ []
  | some i ↦ elim (get_elem? ps i) [
    | none ↦ []
    | some proceso ↦ elim (get_elem? proceso.instrucciones pc) [
      | none ↦ mensaje "EXIT" ∷ []
      | some instruccion ↦ mensaje instruccion ∷ []
    ]
  ]
]

module _ (c : Commons) where
  -- One segment of a process that ends: its blocks or its range are given back.
  abbrev pub liberar_segmento : ℕ → Sistema c → Sistema c
  liberar_segmento p st =
      let s = st.mapa.segmentos p in
      elim s.en_swap [
        | true ↦ record st {
          bitmap = liberar_bloques_swap c st.bitmap s.bloque_swap s.cantidad_bloques;
        }
        | false ↦ record st {
          mapa = record st.mapa {
            lista_huecos_libres =
                liberar_espacio_en_huecos c s.direccion_base s.limite st.mapa.lista_huecos_libres;
          };
        }
      ]

  unfoldable pub liberar_segmentos : List ℕ → Sistema c → Sistema c
  liberar_segmentos [] st = st
  liberar_segmentos (p ∷ ps) st = liberar_segmentos ps (liberar_segmento p st)

  unfoldable pub manejar_finalizar_proceso : ℕ → List Proceso × Sistema c → List Proceso × Sistema c
  manejar_finalizar_proceso pid (ps, st) = elim (buscar_indice_proceso ps pid 0) [
    | none ↦ (ps, st)
    | some i ↦ elim (buscar_indice_contexto st.mapa.lista_contextos pid 0) [
      | none ↦ (remove_at ps i, st)
      | some j ↦ elim (get_elem? st.mapa.lista_contextos j) [
        | none ↦ (remove_at ps i, st)
        | some ctx ↦ (
          remove_at ps i,
          liberar_segmentos ctx.tabla_segmentos (record st {
            mapa = record st.mapa { lista_contextos = remove_at st.mapa.lista_contextos j };
          }),
        )
      ]
    ]
  ]
