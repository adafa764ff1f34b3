-- ===== src/KernelMemory/Suspension.antt =====
-- kernel_memory/src/utils.c: a process's segments go to SWAP and come back.
pub mod Ida
pub mod Guardado
pub mod Llevada
pub mod Vuelta
use tp_so_limpio.Base.{
  ℕ, ◌*◌, Bool, true, false, Option, none, some, List, [], ◌∷◌, ◌&&◌, ◌>>=◌, take,
}
use tp_so_limpio.Commons.{Commons}
use tp_so_limpio.Swap.{Swap}
use tp_so_limpio.KernelMemory.Config.{Config}
use tp_so_limpio.KernelMemory.Huecos.{
  Hueco, recortar, seleccionar_hueco_segun_algoritmo, liberar_espacio_en_huecos,
}
use tp_so_limpio.KernelMemory.Fisica.{Fisica, leer_bytes_globales, escribir_bytes_globales}
use tp_so_limpio.KernelMemory.Estado.{Segmento, Contexto, Mapa, escribir_en, buscar_contexto}
use tp_so_limpio.KernelMemory.Respaldo.{
  bloques_necesarios, obtener_n_bloques_libres, liberar_bloques_swap, escribir_bloques,
  leer_segmento_de_swap,
}

-- The memory, the map, `bitmap_swap` and the SWAP module.
pub record Sistema (c : Commons) : Type 0 where
  pub fisica : Fisica
  pub mapa : Mapa
  pub bitmap : c.Bitarray
  pub swap : Option Swap

abbrev pub en_swap_desde : ℕ → ℕ → Segmento → Segmento
en_swap_desde primero cantidad s = record s {
  bloque_swap = primero;
  cantidad_bloques = cantidad;
  en_swap = true;
}

abbrev pub en_memoria_desde : ℕ → Segmento → Segmento
en_memoria_desde base s = record s { direccion_base = base; en_swap = false }

-- `bs` is `block_size_swap` and `total` is `total_bloques_swap`.
module _ (c : Commons) (bs total : ℕ) where
  -- The map once the segment behind `p` has left the memory.
  abbrev pub sin_segmento : ℕ → ℕ → ℕ → Mapa → Mapa
  sin_segmento p primero cantidad m = record m {
    lista_huecos_libres =
        liberar_espacio_en_huecos c (m.segmentos p).direccion_base (m.segmentos p).limite
          m.lista_huecos_libres;
    segmentos = escribir_en m.segmentos p (en_swap_desde primero cantidad (m.segmentos p));
  }

  -- `none` is the copy from the null pointer that a failed read of the memory leaves.
  unfoldable pub mover_segmento_a_swap : ℕ → Sistema c → Option (Bool × Sistema c)
  mover_segmento_a_swap p st =
      let seg = st.mapa.segmentos p in
      let n = bloques_necesarios seg.limite bs in
      elim (obtener_n_bloques_libres c st.bitmap total n) [
        | none ↦ some (false, st)
        | some r ↦ leer_bytes_globales st.fisica seg.direccion_base seg.limite >>= λ buf. some (
          true,
          record st {
            bitmap = r.1;
            swap = escribir_bloques bs seg.limite n buf r.0 0 n st.swap;
            mapa = sin_segmento p r.0 n st.mapa;
          },
        )
      ]

  -- The loop of `suspender_proceso`, with `exito_total` so far.
  unfoldable pub mover_segmentos : List ℕ → Bool → Sistema c → Option (Bool × Sistema c)
  mover_segmentos [] exito st = some (exito, st)
  mover_segmentos (p ∷ ps) exito st = elim (st.mapa.segmentos p).en_swap [
    | true ↦ mover_segmentos ps exito st
    | false ↦ mover_segmento_a_swap p st >>= λ r. mover_segmentos ps (exito && r.0) r.1
  ]

  unfoldable pub suspender_proceso : ℕ → Sistema c → Option (Bool × Sistema c)
  suspender_proceso pid st = elim (buscar_contexto st.mapa.lista_contextos pid) [
    | none ↦ some (false, st)
    | some ctx ↦ mover_segmentos ctx.tabla_segmentos true st
  ]

  -- Nothing where the blocks cannot be read, which is -1; else the bytes, with the blocks freed.
  -- The caller writes `en_swap`, as this function does.
  unfoldable pub recibir_de_swap : Segmento → Sistema c → Option (List ℕ × c.Bitarray)
  recibir_de_swap seg st = leer_segmento_de_swap bs seg st.swap >>= λ buf.
      some (buf, liberar_bloques_swap c st.bitmap seg.bloque_swap seg.cantidad_bloques)

  -- One round of the loop of `desuspender_proceso` for a segment in SWAP, once its hole is chosen.
  unfoldable pub restaurar_segmento : ℕ → ℕ × Hueco → Sistema c → Bool × Sistema c
  restaurar_segmento p (i, h) st =
      let m = st.mapa in
      let seg = m.segmentos p in
      let huecos = recortar seg.limite i h m.lista_huecos_libres in
      elim (recibir_de_swap seg st) [
        | none ↦ (
          false,
          record st {
            mapa = record m {
              lista_huecos_libres = liberar_espacio_en_huecos c h.direccion_base seg.limite huecos;
            };
          },
        )
        | some r ↦ (
          true,
          record st {
            fisica = escribir_bytes_globales st.fisica h.direccion_base r.0;
            bitmap = r.1;
            mapa = record m {
              lista_huecos_libres = huecos;
              segmentos = escribir_en m.segmentos p (en_memoria_desde h.direccion_base seg);
            };
          },
        )
      ]

  -- The loop; `false` is -1, and ends it.
  unfoldable pub restaurar_segmentos : Config → List ℕ → Sistema c → Bool × Sistema c
  restaurar_segmentos cfg [] st = (true, st)
  restaurar_segmentos cfg (p ∷ ps) st = elim (st.mapa.segmentos p).en_swap [
    | false ↦ restaurar_segmentos cfg ps st
    | true ↦
        elim (seleccionar_hueco_segun_algoritmo c cfg.allocation_strategy
          (st.mapa.segmentos p).limite st.mapa.lista_huecos_libres) [
            | none ↦ (false, st)
            | some q ↦
                let r = restaurar_segmento p q st in
                elim r.0 [ false ↦ r | true ↦ restaurar_segmentos cfg ps r.1 ]
          ]
  ]

  unfoldable pub desuspender_proceso : Config → ℕ → Sistema c → Bool × Sistema c
  desuspender_proceso cfg pid st = elim (buscar_contexto st.mapa.lista_contextos pid) [
    | none ↦ (false, st)
    | some ctx ↦ restaurar_segmentos cfg ctx.tabla_segmentos st
  ]
