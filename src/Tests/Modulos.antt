-- ===== src/Tests/Modulos.antt =====
-- The theorems on SWAP, on processes and on what travels between the modules, at small inputs.
use tp_so_limpio.Base.{
  ◌+◌, ◌*◌, ◌⊎◌, ◌/◌, ◌%◌, add32, ◌≤◌, ◌<◌, ℕ, ◌≡◌, refl, Bool, true, false, some, List, [], ◌∷◌,
  arith, ◌==◌, ◌>>=◌, All,
}
use tp_so_limpio.GlobalUtils.{op, buffer, respuesta_datos, ok}
use tp_so_limpio.GlobalUtils.Paquete.{
  tamanio_paquete, armar_paquete, recibir_paquete, recibir-armar,
}
use tp_so_limpio.Swap.{Swap, atender_kernel, lectura_bloque, escritura_bloque}
use tp_so_limpio.Swap.Servidor.{Sano, lectura-escritura}
use tp_so_limpio.KernelMemory.Estado.{Proceso, crear_contexto, buscar_contexto}
use tp_so_limpio.KernelMemory.Particion.{Particion}
use tp_so_limpio.KernelMemory.Respaldo.{
  obtener_n_bloques_libres, liberar_bloques_swap, escribir_segmento_en_swap, leer_segmento_de_swap,
}
use tp_so_limpio.KernelMemory.Respaldo.Bloques.{
  Obtenido, obtener-Obtenido, liberar_bloques_swap_lem,
}
use tp_so_limpio.KernelMemory.Respaldo.Viaje.{leer-escribir_segmento}
use tp_so_limpio.KernelMemory.Estado.{Segmento}
use tp_so_limpio.KernelMemory.Suspension.{Sistema, suspender_proceso, desuspender_proceso}
use tp_so_limpio.KernelMemory.Suspension.Ida.{Suspendido}
use tp_so_limpio.KernelMemory.Suspension.Guardado.{EnOrden, Llevado}
use tp_so_limpio.KernelMemory.Suspension.Llevada.{suspender_proceso-Llevado}
use tp_so_limpio.KernelMemory.Suspension.Vuelta.{Vueltos, desuspender_proceso-Vuelto}
use tp_so_limpio.KernelMemory.Procesos.{manejar_finalizar_proceso}
use tp_so_limpio.KernelMemory.Procesos.Finalizacion.{
  Finalizado, manejar_finalizar_proceso-Particion,
}
use tp_so_limpio.KernelMemory.Contextos.{con_registros, enviar_contexto_cpu, recibir_contexto_cpu}
use tp_so_limpio.Cpu.Contexto.{ContextoCpu, recibir_contexto, enviar_contexto_a_kernel_memory}
use tp_so_limpio.Cpu.Viaje.{RegistrosValidos, recibir-enviar, recibir_contexto_cpu-enviar}
use tp_so_limpio.Cpu.Contexto.{SegmentoCpu}
use tp_so_limpio.Cpu.Mmu.{
  buscar_por_id, pedir_direccion_mmu, acierto, fallo, pedir_direccion_mmu_lem,
}
use tp_so_limpio.Tests.Biblioteca.{biblioteca}
use tp_so_limpio.Tests.Ejemplo.{
  fisica, contexto, mapa, config, mapa-Particion, fisica-Coherente, fisica-legible,
}

-- Four blocks of two bytes.
abbrev archivo_inicial : List ℕ
archivo_inicial = 0 ∷ 0 ∷ 0 ∷ 0 ∷ 0 ∷ 0 ∷ 0 ∷ 0 ∷ []

abbrev swap : Swap
swap = record { archivo = some archivo_inicial; tamanio_total_swap = 8; tamanio_bloque_swap = 2 }

swap-Sano : Sano 2 8 swap archivo_inicial
swap-Sano = record {
  abierto = refl;
  bloque = refl;
  tamanio = refl;
  positivo = omega arith;
  entero = omega arith;
  completo = refl;
}

lectura-escritura_example :
    (atender_kernel (atender_kernel swap (escritura_bloque 1 (7 ∷ 8 ∷ []))).0 (lectura_bloque 1)).1
    ≡ op respuesta_datos ∷ buffer (7 ∷ 8 ∷ []) ∷ []
lectura-escritura_example =
    lectura-escritura 2 8 swap archivo_inicial 1 1 (7 ∷ 8 ∷ []) swap-Sano (omega arith)
      (omega arith) refl

-- The first of four blocks is taken.
abbrev bloques : ℕ → Bool
bloques i = i == 0

obtener-Obtenido_example :
    Obtenido biblioteca 4 bloques 2 (obtener_n_bloques_libres biblioteca bloques 4 2)
obtener-Obtenido_example = obtener-Obtenido biblioteca 4 bloques 2 (omega arith)

liberar_bloques_swap_lem_example : liberar_bloques_swap biblioteca bloques 0 2 0 ≡ false
liberar_bloques_swap_lem_example = liberar_bloques_swap_lem biblioteca bloques 0 2 0

abbrev sistema : Sistema biblioteca
sistema = record { fisica = fisica; mapa = mapa; bitmap = bloques; swap = some swap }

hallado : buscar_contexto mapa.lista_contextos 1 ≡ some contexto
unfolding buscar_contexto
hallado = refl

sistema-EnOrden : EnOrden 2 4 8 sistema
sistema-EnOrden = record {
  modulo = swap;
  archivo = archivo_inicial;
  conectado = refl;
  sano = swap-Sano;
}

suspender_proceso-Llevado_example :
    (r : Bool × Sistema biblioteca) × (suspender_proceso biblioteca 2 4 1 sistema ≡ some r)
    × Suspendido sistema r.1
    × Llevado 2 4 8 sistema r.1
    × (r.0 ≡ true → All (λ p. (r.1.mapa.segmentos p).en_swap ≡ true) (0 ∷ []))
suspender_proceso-Llevado_example =
    suspender_proceso-Llevado biblioteca 2 4 8 (omega arith) 1 sistema contexto mapa-Particion
      fisica-Coherente fisica-legible (λ q uno ram. omega arith) sistema-EnOrden hallado

desuspender_proceso-Vuelto_example :
    Vueltos biblioteca 2 4 sistema (0 ∷ []) (desuspender_proceso biblioteca 2 4 config 1 sistema)
desuspender_proceso-Vuelto_example =
    desuspender_proceso-Vuelto biblioteca 2 4 config 1 sistema contexto mapa-Particion hallado

-- The process of the context.
abbrev procesos : List Proceso
procesos = record { pid = 1; instrucciones = "EXIT" ∷ [] } ∷ []

manejar_finalizar_proceso-Particion_example :
    Particion (manejar_finalizar_proceso biblioteca 1 (procesos, sistema)).1.mapa
    × Finalizado 1 procesos sistema (manejar_finalizar_proceso biblioteca 1 (procesos, sistema))
manejar_finalizar_proceso-Particion_example =
    manejar_finalizar_proceso-Particion biblioteca 1 procesos sistema mapa-Particion

recibir-armar_example :
    (armar_paquete [] ((1 ∷ 2 ∷ []) ∷ (3 ∷ []) ∷ []) >>= recibir_paquete)
    ≡ some ((1 ∷ 2 ∷ []) ∷ (3 ∷ []) ∷ [])
unfolding tamanio_paquete
recibir-armar_example =
    recibir-armar ((1 ∷ 2 ∷ []) ∷ (3 ∷ []) ∷ [])
      ((omega arith, omega arith), ((omega arith, omega arith), tt)) (omega arith)

ceros : RegistrosValidos contexto.registros
unfolding crear_contexto
ceros = record {
  pc = omega arith;
  ax = omega arith;
  bx = omega arith;
  cx = omega arith;
  dx = omega arith;
  eax = omega arith;
  ebx = omega arith;
  ecx = omega arith;
  edx = omega arith;
  si = omega arith;
  di = omega arith;
}

recibir-enviar_example :
    (enviar_contexto_cpu mapa 1 >>= recibir_contexto)
    ≡ some (record {
      pid = 1;
      registros = contexto.registros;
      tabla_segmentos = record { id_segmento = 0; base = 3; tamanio = 4 } ∷ [];
    })
recibir-enviar_example =
    recibir-enviar mapa 1 contexto hallado (omega arith) ceros (omega arith)
      ((omega arith, omega arith, omega arith), tt)

abbrev en_cpu : ContextoCpu
en_cpu = record { pid = 1; registros = contexto.registros; tabla_segmentos = [] }

recibir_contexto_cpu-enviar_example :
    (recibir_contexto_cpu (enviar_contexto_a_kernel_memory en_cpu) mapa.lista_contextos
      ≡ some (con_registros contexto.registros mapa.lista_contextos 1, ok, []))
    × (buscar_contexto (con_registros contexto.registros mapa.lista_contextos 1) 1 ≡ some contexto)
recibir_contexto_cpu-enviar_example =
    recibir_contexto_cpu-enviar en_cpu mapa.lista_contextos contexto ceros (omega arith) hallado

-- A segment of three bytes in blocks 1 and 2.
abbrev suspendido : Segmento
suspendido = record {
  id_segmento = 0;
  id_ms = 0;
  direccion_base = 3;
  limite = 3;
  en_swap = true;
  bloque_swap = 1;
  cantidad_bloques = 2;
}

leer-escribir_segmento_example :
    (s' : Swap) × (escribir_segmento_en_swap 2 suspendido (7 ∷ 8 ∷ 9 ∷ []) (some swap) ≡ some s')
    × (leer_segmento_de_swap 2 suspendido (some s') ≡ some (7 ∷ 8 ∷ 9 ∷ []))
    × ((d : ℕ)
        → d * 2 + 2 ≤ 8
        → (d < 1) ⊎ (3 ≤ d)
        → (atender_kernel s' (lectura_bloque d)).1 ≡ (atender_kernel swap (lectura_bloque d)).1)
leer-escribir_segmento_example =
    leer-escribir_segmento 2 8 suspendido (7 ∷ 8 ∷ 9 ∷ []) swap archivo_inicial swap-Sano refl
      (omega arith) refl

abbrev con_segmento : ContextoCpu
con_segmento = record {
  pid = 1;
  registros = contexto.registros;
  tabla_segmentos = record { id_segmento = 2; base = 40; tamanio = 8 } ∷ [];
}

pedir_direccion_mmu_lem_example :
    ((s : SegmentoCpu) × (buscar_por_id (37 / 16) con_segmento.tabla_segmentos ≡ some s)
      × (37 % 16 + 2 ≤ s.tamanio)
      × (pedir_direccion_mmu 16 (some con_segmento) 37 2 ≡ acierto (add32 s.base (37 % 16))))
    ⊎ (((s : SegmentoCpu)
          → buscar_por_id (37 / 16) con_segmento.tabla_segmentos ≡ some s
          → s.tamanio < 37 % 16 + 2)
        × (pedir_direccion_mmu 16 (some con_segmento) 37 2 ≡ fallo 1))
pedir_direccion_mmu_lem_example =
    pedir_direccion_mmu_lem 16 con_segmento 37 2 (omega arith) (omega arith)
