-- ===== src/Tests/Memoria.antt =====
-- The theorems on the memory of Kernel Memory, at the example.
use tp_so_limpio.Base.{
  ◌↔◌, ℕ, ◌+◌, ◌≤◌, ◌≡◌, refl, inl, false, none, some, [], ◌∷◌, arith, leer_plano,
}
use tp_so_limpio.GlobalUtils.{op, notok, cpus_desalojadas_ok}
use tp_so_limpio.MemoryStick.{atender_cliente}
use tp_so_limpio.KernelMemory.Huecos.{
  Hueco, liberar_espacio_en_huecos, recortar, seleccionar_hueco_segun_algoritmo,
}
use tp_so_limpio.KernelMemory.Huecos.Cobertura.{
  Liberado, liberar-Liberado, Recortado, recortar-Recortado,
}
use tp_so_limpio.KernelMemory.Huecos.Seleccion.{Elige, seleccionar-Elige, seleccionar_optima}
use tp_so_limpio.KernelMemory.Fisica.{
  buscar_ms_por_direccion_global, leer_bytes_globales, escribir_bytes_globales,
}
use tp_so_limpio.KernelMemory.Fisica.Plano.{Coherente, byte}
use tp_so_limpio.KernelMemory.Fisica.Lectura.{leer_bytes_globales_lem}
use tp_so_limpio.KernelMemory.Fisica.Escritura.{Escrito, escribir_bytes_globales-Escrito}
use tp_so_limpio.KernelMemory.Estado.{buscar_contexto, buscar_segmento}
use tp_so_limpio.KernelMemory.Particion.{Particion, bytes_ocupados}
use tp_so_limpio.KernelMemory.Compactacion.{
  ejecutar_compactacion_fisica_memory_stick, gran_hueco_final,
}
use tp_so_limpio.KernelMemory.Compactacion.Cuentas.{compactar-Particion}
use tp_so_limpio.KernelMemory.Compactacion.Fidelidad.{compactar_contenido}
use tp_so_limpio.KernelMemory.Compactacion.Contenido.{contenido}
use tp_so_limpio.KernelMemory.Segmentos.{Salida, creacion_segmento, eliminar_segmento}
use tp_so_limpio.KernelMemory.Segmentos.Creacion.{creacion_segmento-Particion}
use tp_so_limpio.KernelMemory.Segmentos.Eliminacion.{EliminadoDe, eliminar_segmento-Particion}
use tp_so_limpio.KernelMemory.Segmentos.Caida.{Cae, creacion_segmento-Cae}
use tp_so_limpio.KernelMemory.Segmentos.Respuesta.{
  Atendida, creacion_segmento-Atendida, creacion_segmento_rechaza,
}
use tp_so_limpio.KernelMemory.Conexion.{conexion_memory_stick}
use tp_so_limpio.KernelMemory.Conexion.Conectada.{conexion-Coherente}
use tp_so_limpio.KernelMemory.Mmu.{leer_logica, segmento_de}
use tp_so_limpio.KernelMemory.Mmu.Lecturas.{leer_logica_lem}
use tp_so_limpio.Tests.Biblioteca.{biblioteca}
use tp_so_limpio.Tests.Ejemplo.{
  fisica, segmento, contexto, mapa, config, mapa-Particion, fisica-Coherente, fisica-legible,
  fisica_dos, dos-Coherente, dos_dice,
}

compactar_contenido_example :
    let r = ejecutar_compactacion_fisica_memory_stick biblioteca fisica mapa in
    Coherente 10 r.0 × (contenido r.0 (r.1.segmentos 0) ≡ contenido fisica segmento)
compactar_contenido_example =
    compactar_contenido biblioteca fisica mapa 0 mapa-Particion fisica-Coherente
      (λ x desde hasta. fisica-legible x (omega arith)) (λ q uno ram. omega arith) refl refl

hallado : buscar_contexto mapa.lista_contextos 1 ≡ some contexto
unfolding buscar_contexto
hallado = refl

creacion_segmento-Atendida_example :
    Atendida mapa 1 1 5 contexto
      (creacion_segmento biblioteca config cpus_desalojadas_ok 1 1 5 fisica mapa)
creacion_segmento-Atendida_example =
    creacion_segmento-Atendida biblioteca config 1 1 5 fisica mapa mapa-Particion contexto hallado
      (omega arith) (omega arith) (omega arith)

abbrev rechazo : Salida
rechazo = record { fisica = fisica; mapa = mapa; al_kernel = []; al_cliente = op notok ∷ [] }

rechazado : creacion_segmento biblioteca config cpus_desalojadas_ok 1 1 9 fisica mapa ≡ some rechazo
unfolding creacion_segmento
rechazado = refl

leida : leer_logica config 1 1 2 fisica mapa ≡ some (14 ∷ 15 ∷ [])
unfolding leer_logica buscar_contexto buscar_segmento buscar_ms_por_direccion_global atender_cliente
leida = refl

creacion_segmento-Particion_example : Particion mapa
creacion_segmento-Particion_example =
    creacion_segmento-Particion biblioteca config cpus_desalojadas_ok 1 1 9 fisica mapa contexto
      rechazo mapa-Particion hallado rechazado

creacion_segmento_rechaza_example :
    creacion_segmento biblioteca config cpus_desalojadas_ok 1 1 9 fisica mapa ≡ some rechazo
creacion_segmento_rechaza_example =
    creacion_segmento_rechaza biblioteca config 1 1 9 fisica mapa mapa-Particion cpus_desalojadas_ok
      (inl (omega arith))

creacion_segmento-Cae_example :
    (creacion_segmento biblioteca config notok 1 1 5 fisica mapa ≡ none)
    ↔ Cae biblioteca config 1 1 5 fisica mapa mapa-Particion notok
creacion_segmento-Cae_example =
    creacion_segmento-Cae biblioteca config 1 1 5 fisica mapa mapa-Particion notok

compactar-Particion_example :
    let m' = (ejecutar_compactacion_fisica_memory_stick biblioteca fisica mapa).1 in
    Particion m'
    × (m'.lista_huecos_libres ≡ gran_hueco_final (bytes_ocupados mapa) 10)
    × (bytes_ocupados m' ≡ bytes_ocupados mapa)
compactar-Particion_example = compactar-Particion biblioteca fisica mapa mapa-Particion

escribir_bytes_globales-Escrito_example :
    Escrito 10 fisica (escribir_bytes_globales fisica 6 (1 ∷ 2 ∷ [])) 6 (1 ∷ 2 ∷ [])
escribir_bytes_globales-Escrito_example =
    escribir_bytes_globales-Escrito 10 fisica 6 (1 ∷ 2 ∷ []) fisica-Coherente
      (λ x desde hasta. fisica-legible x (omega arith))

leer_bytes_globales_lem_example : leer_bytes_globales fisica 3 4 ≡ leer_plano (byte fisica) 3 4
leer_bytes_globales_lem_example = leer_bytes_globales_lem 10 fisica fisica-Coherente 3 4

eliminar_segmento-Particion_example :
    Particion (eliminar_segmento biblioteca 1 0 mapa)
    × EliminadoDe mapa 1 0 (eliminar_segmento biblioteca 1 0 mapa)
unfolding buscar_contexto buscar_segmento
eliminar_segmento-Particion_example =
    eliminar_segmento-Particion biblioteca mapa 1 0 mapa-Particion (λ ctx i p h e. refl)

liberar-Liberado_example :
    Liberado 10 3 4 mapa.lista_huecos_libres
      (liberar_espacio_en_huecos biblioteca 3 4 mapa.lista_huecos_libres)
liberar-Liberado_example =
    liberar-Liberado biblioteca 10 3 4 mapa.lista_huecos_libres (omega arith) (omega arith)
      (omega arith, (omega arith, tt))

abbrev segundo : Hueco
segundo = record { direccion_base = 7; tamanio = 3 }

recortar-Recortado_example :
    Recortado 10 2 segundo mapa.lista_huecos_libres (recortar 2 1 segundo mapa.lista_huecos_libres)
recortar-Recortado_example =
    recortar-Recortado 10 2 1 segundo mapa.lista_huecos_libres (omega arith) refl (omega arith)
      (omega arith, (omega arith, tt))

seleccionar-Elige_example :
    Elige 2 mapa.lista_huecos_libres
      (seleccionar_hueco_segun_algoritmo biblioteca "WORST" 2 mapa.lista_huecos_libres)
seleccionar-Elige_example = seleccionar-Elige biblioteca "WORST" 2 mapa.lista_huecos_libres

seleccionar_optima_example :
    (seleccionar_hueco_segun_algoritmo biblioteca "BEST" 2 mapa.lista_huecos_libres
        ≡ some (1, segundo)
      → 3 ≤ 3)
    × (seleccionar_hueco_segun_algoritmo biblioteca "WORST" 2 mapa.lista_huecos_libres
          ≡ some (1, segundo)
        → 3 ≤ 3)
seleccionar_optima_example =
    seleccionar_optima biblioteca 2 mapa.lista_huecos_libres (1, segundo) 1 segundo refl
      (omega arith)

conexion-Coherente_example :
    let r = conexion_memory_stick biblioteca 6 4 "127.0.0.1" "8004" (fisica_dos, mapa) in
    Particion r.1 × Coherente r.1.memoria_total_sistema r.0
conexion-Coherente_example =
    conexion-Coherente biblioteca 6 4 "127.0.0.1" "8004" fisica_dos mapa (omega arith)
      mapa-Particion dos-Coherente dos_dice

leer_logica_lem_example :
    (p : ℕ) × (segmento_de mapa 1 0 ≡ some p)
    × ((mapa.segmentos p).en_swap ≡ false)
    × (1 + 2 ≤ (mapa.segmentos p).limite)
    × (leer_plano (byte fisica) 4 2 ≡ some (14 ∷ 15 ∷ []))
leer_logica_lem_example =
    leer_logica_lem 10 fisica fisica-Coherente config 1 1 2 mapa (14 ∷ 15 ∷ []) (omega arith)
      (omega arith) (omega arith) (omega arith) (omega arith) leida
