-- ===== src/KernelMemory/Segmentos.antt =====
-- kernel_memory/src/utils.c: `creacion_segmento` and `eliminar_segmento`.
pub mod Caida
pub mod Creacion
pub mod Eliminacion
pub mod Respuesta
use tp_so_limpio.Base.{
  ℕ, ◌+◌, Bool, true, false, Option, none, some, List, [], ◌∷◌, ◌++◌, ltb, leb, if◌then◌else◌,
  remove_at, minus_one,
}
use tp_so_limpio.Commons.{Commons}
use tp_so_limpio.GlobalUtils.{OpCode, Mensaje, op, entero, ok, notok}
use tp_so_limpio.KernelMemory.Config.{Config}
use tp_so_limpio.KernelMemory.Huecos.{
  Hueco, recortar, calcular_espacio_libre_total, seleccionar_hueco_segun_algoritmo,
  liberar_espacio_en_huecos,
}
use tp_so_limpio.KernelMemory.Fisica.{Fisica}
use tp_so_limpio.KernelMemory.Estado.{
  Segmento, Contexto, Mapa, escribir_en, buscar_contexto, con_tabla, buscar_segmento,
}
use tp_so_limpio.KernelMemory.Compactacion.{solicitar_y_ejecutar_compactacion}

-- The memory, the map, what was sent to the Kernel Scheduler and what to the client.
pub record Salida : Type 0 where
  pub fisica : Fisica
  pub mapa : Mapa
  pub al_kernel : List Mensaje
  pub al_cliente : List Mensaje

-- The segment that is placed at the front of the chosen hole.
abbrev pub nuevo_segmento : ℕ → ℕ → ℕ → Segmento
nuevo_segmento id n base = record {
  id_segmento = id;
  id_ms = 0;
  direccion_base = base;
  limite = n;
  en_swap = false;
  bloque_swap = minus_one;
  cantidad_bloques = 0;
}

-- From "Recortamos el bache" on: the hole is cut, the segment made and entered in the table.
unfoldable pub asignar : ℕ → ℕ → ℕ → ℕ × Hueco → Mapa → Mapa
asignar pid id n (i, h) m = record m {
  lista_huecos_libres = recortar n i h m.lista_huecos_libres;
  lista_contextos = con_tabla (λ t. t ++ (m.proximo ∷ [])) m.lista_contextos pid;
  segmentos = escribir_en m.segmentos m.proximo (nuevo_segmento id n h.direccion_base);
  proximo = m.proximo + 1;
}

module _ (c : Commons) (cfg : Config) where
  abbrev pub elegir : ℕ → Mapa → Option (ℕ × Hueco)
  elegir n m = seleccionar_hueco_segun_algoritmo c cfg.allocation_strategy n m.lista_huecos_libres

  -- `none` is the read through the null pointer `bache_elegido`.
  abbrev terminar : ℕ → ℕ → ℕ → List Mensaje → Fisica → Mapa → Option (ℕ × Hueco) → Option Salida
  terminar pid id n dichos f m none = none
  terminar pid id n dichos f m (some p) = some (record {
    fisica = f;
    mapa = asignar pid id n p m;
    al_kernel = dichos;
    al_cliente = op ok ∷ entero p.1.direccion_base ∷ [];
  })

  -- The branch of a fragmented memory.
  abbrev compactar_y_terminar : OpCode → ℕ → ℕ → ℕ → Fisica → Mapa → Option Salida
  compactar_y_terminar respuesta_ks pid id n f m =
      let r = solicitar_y_ejecutar_compactacion c respuesta_ks f m in
      terminar pid id n r.2 r.0 r.1 (elegir n r.1)

  abbrev pub rechazar : Fisica → Mapa → Option Salida
  rechazar f m = some (record { fisica = f; mapa = m; al_kernel = []; al_cliente = op notok ∷ [] })

  -- `respuesta_ks` is what the Kernel Scheduler answers, if it is asked to clear the CPUs.
  unfoldable pub creacion_segmento : OpCode → ℕ → ℕ → ℕ → Fisica → Mapa → Option Salida
  creacion_segmento respuesta_ks pid id n f m =
      if ltb cfg.segment_max_size n then rechazar f m else elim (elegir n m) [
        | some p ↦ terminar pid id n [] f m (some p)
        | none ↦
            if leb n (calcular_espacio_libre_total m.lista_huecos_libres)
            then compactar_y_terminar respuesta_ks pid id n f m
            else rechazar f m
      ]

-- `list_remove` of the segment's pointer, and its range back to the holes.
unfoldable pub eliminar_segmento : Commons → ℕ → ℕ → Mapa → Mapa
eliminar_segmento c pid id m = elim (buscar_contexto m.lista_contextos pid) [
  | none ↦ m
  | some ctx ↦ elim (buscar_segmento m.segmentos id 0 ctx.tabla_segmentos) [
    | none ↦ m
    | some ip ↦
        let s = m.segmentos ip.1 in
        record m {
          lista_contextos = con_tabla (λ t. remove_at t ip.0) m.lista_contextos pid;
          lista_huecos_libres =
              liberar_espacio_en_huecos c s.direccion_base s.limite m.lista_huecos_libres;
        }
  ]
]
