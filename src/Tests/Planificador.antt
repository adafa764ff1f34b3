-- ===== src/Tests/Planificador.antt =====
-- The theorems on the Kernel Scheduler and on the instructions of the CPU, at small inputs.
use tp_so_limpio.Base.{
  ℕ, ◌>>=◌, zero, suc, ◌<◌, ◌≡◌, ◌≢◌, ◌⊎◌, inr, refl, true, false, none, some, List, [], ◌∷◌, arith,
}
use tp_so_limpio.GlobalUtils.{Mensaje, op, ok}
use tp_so_limpio.KernelMemory.Estado.{Registros}
use tp_so_limpio.KernelScheduler.Estado.{
  MemStick, Estado, new, rdy, rnn, s_rdy, Pcb, Nivel, nivel_fifo, nivel_rr, cmn, InfoConfig,
  MutexCpu, Ks, con_lista,
}
use tp_so_limpio.KernelScheduler.Listas.{
  transicion, eliminar_proceso_lista, cambiar_estado_pcb, agregar_proceso_lista,
  list_remove_element, agregar_lista_ready, ready_cmn, agregar_a_nivel,
}
use tp_so_limpio.KernelScheduler.Afinidad.{fd_afinidad_de}
use tp_so_limpio.KernelScheduler.Busqueda.{buscar_pcb_por_pid}
use tp_so_limpio.KernelScheduler.Plazos.{nuevo_espacio}
use tp_so_limpio.KernelScheduler.Prioridades.{actualizar_herencia}
use tp_so_limpio.KernelScheduler.Cpus.{
  cpu_libre_vuelta, obtener_siguiente_proceso_para_cpu, primero_listo, primero_de_niveles,
}
use tp_so_limpio.KernelScheduler.Servicios.{atender_desalojo, responder_desalojo, volver_a_ready}
use tp_so_limpio.KernelScheduler.Creacion.{
  ks_inicial, iniciar_listas_procesos, iniciar_planificador_cmn, iniciar_pcb, crear_nuevo_proceso,
  crear_y_admitir, primer_proceso,
}
use tp_so_limpio.KernelScheduler.Pasos.{inicio, luego, conectar, crear, alcanzable-Coherente}
use tp_so_limpio.KernelScheduler.Cpus.{nueva_cpu}
use tp_so_limpio.KernelScheduler.Veces.{veces}
use tp_so_limpio.KernelScheduler.Coherencia.{
  Lugar, lista, nivel, lugar_de, ocupantes, esperadas, listos, Coherente,
}
use tp_so_limpio.KernelScheduler.Eliminado.{Sacado}
use tp_so_limpio.KernelScheduler.Espacio.{nuevo_espacio-Coherente}
use tp_so_limpio.KernelScheduler.Hallazgo.{buscar_pcb_por_pid_lem}
use tp_so_limpio.KernelScheduler.Desalojos.{atender_desalojo-Coherente}
use tp_so_limpio.KernelScheduler.Despacho.{obtener-Sacado}
use tp_so_limpio.KernelScheduler.CpuLibre.{Responde, cpu_libre_vuelta-Coherente}
use tp_so_limpio.KernelScheduler.Perdida.{volver_a_ready-pierde}
use tp_so_limpio.KernelScheduler.Herencia.{Mejor, actualizar_herencia-Mejor}
use tp_so_limpio.Cpu.Viaje.{RegistrosValidos}
use tp_so_limpio.Cpu.Instrucciones.{ax, ebx, ejecutar_sum, ejecutar_sub}
use tp_so_limpio.Cpu.Aritmetica.{sub-sum}
use mathlib.Core.List.{Permᴰ}
use tp_so_limpio.Commons.{Ordenada}
use tp_so_limpio.Tests.Biblioteca.{biblioteca}
use tp_so_limpio.Cpu.Sticks.{
  MemStickValido, comparar_base_memory_stick, recibir_memory_stick, recibir-responder,
}
use tp_so_limpio.KernelScheduler.Desalojo.{
  list_find_with_context, existe_pcb_con_pid, verificar_desalojo_por_prioridad, menos_prioritario,
}

-- Multilevel queues with preemption: a level by order of arrival and one by turns of five.
abbrev cfg : InfoConfig
cfg = record { politica = cmn; preemption = true }

abbrev niveles_con : List ℕ → List Nivel
niveles_con cola =
    record { tipo = nivel_fifo; cola = []; quantum = 0 }
    ∷ record { tipo = nivel_rr; cola = cola; quantum = 5 }
    ∷ []

-- A process of priority 1.
abbrev pcb : Estado → Pcb
pcb e = record {
  mutex_tomados = [];
  pid = 0;
  prioridad = 1;
  prioridad_original = 1;
  estado_pcb = e;
  estado_anterior = new;
  fd_cpu = 0;
  esperando_io = false;
  quantum_version = 0;
  block_version = 0;
}

-- The planner with that process alone, in a state other than READY.
abbrev uno : Estado → Ks
unfolding ks_inicial
uno e = record (ks_inicial (λ q. pcb e) (niveles_con [])) {
  proximo = 1;
  contador_pid = 1;
  listas = con_lista e (0 ∷ []) iniciar_listas_procesos;
  sem_hay_s_ready = 1;
}

-- The same with the process in the queue of its level.
abbrev listo : Ks
unfolding ks_inicial
listo = record (ks_inicial (λ q. pcb rdy) (niveles_con (0 ∷ []))) {
  proximo = 1;
  contador_pid = 1;
  sem_hay_ready = 1;
}

-- What is left when a CPU has got that process.
abbrev despachado : Ks
despachado = record listo { niveles = niveles_con []; sem_hay_ready = 0 }

listo-Coherente : Coherente cfg listo
unfolding ks_inicial
listo-Coherente = record {
  ubicados = ubicados;
  pids = λ q d. omega arith;
  contados = refl;
  validas = λ q d. omega arith;
  semaforos = record { hay_ready = omega arith; hay_s_ready = omega arith };
}
  where
    ubicados :
        (q : ℕ) (l : Lugar)
        → veces q (ocupantes l iniciar_listas_procesos (niveles_con (0 ∷ [])))
          ≡ esperadas cmn (λ k. pcb rdy) 1 q l
    ubicados q (nivel zero) = ground arith
    ubicados q (nivel (suc zero)) = ground arith
    ubicados q (nivel (suc (suc n))) = ground arith
    ubicados q (lista e) = ground arith

rnn-Coherente : Coherente cfg (uno rnn)
unfolding ks_inicial
rnn-Coherente = record {
  ubicados = ubicados;
  pids = λ q d. omega arith;
  contados = refl;
  validas = λ q d. omega arith;
  semaforos = record { hay_ready = omega arith; hay_s_ready = omega arith };
}
  where
    ubicados :
        (q : ℕ) (l : Lugar)
        → veces q (ocupantes l (con_lista rnn (0 ∷ []) iniciar_listas_procesos) (niveles_con []))
          ≡ esperadas cmn (λ k. pcb rnn) 1 q l
    ubicados q (nivel zero) = ground arith
    ubicados q (nivel (suc zero)) = ground arith
    ubicados q (nivel (suc (suc n))) = ground arith
    ubicados q (lista e) = ground arith

s_rdy-Coherente : Coherente cfg (uno s_rdy)
unfolding ks_inicial
s_rdy-Coherente = record {
  ubicados = ubicados;
  pids = λ q d. omega arith;
  contados = refl;
  validas = λ q d. omega arith;
  semaforos = record { hay_ready = omega arith; hay_s_ready = omega arith };
}
  where
    ubicados :
        (q : ℕ) (l : Lugar)
        → veces q (ocupantes l (con_lista s_rdy (0 ∷ []) iniciar_listas_procesos) (niveles_con []))
          ≡ esperadas cmn (λ k. pcb s_rdy) 1 q l
    ubicados q (nivel zero) = ground arith
    ubicados q (nivel (suc zero)) = ground arith
    ubicados q (nivel (suc (suc n))) = ground arith
    ubicados q (lista e) = ground arith

-- A state with a CPU and the first process, once Kernel Memory has accepted it.
abbrev vacio : Ks
vacio = ks_inicial (λ q. pcb new) (iniciar_planificador_cmn ("FIFO" ∷ "RR" ∷ []) 5)

admitido : (st : Ks) × (primer_proceso cfg true "init" (nueva_cpu 4 "CPU1" vacio) ≡ some st)
unfolding ks_inicial iniciar_planificador_cmn nueva_cpu primer_proceso crear_y_admitir
    crear_nuevo_proceso iniciar_pcb transicion eliminar_proceso_lista cambiar_estado_pcb
    agregar_proceso_lista list_remove_element agregar_lista_ready ready_cmn agregar_a_nivel
    verificar_desalojo_por_prioridad menos_prioritario
admitido = (_, refl)

alcanzable-Coherente_example : Coherente cfg admitido.0
unfolding nueva_cpu ks_inicial iniciar_planificador_cmn
alcanzable-Coherente_example = alcanzable-Coherente cfg (
    luego (luego (inicio (λ q. pcb new) ("FIFO" ∷ "RR" ∷ []) 5) (conectar 4 "CPU1"))
      (crear true "init" (omega arith) (omega arith) admitido.1))

nuevo_espacio-Coherente_example :
    (st' : Ks) × (nuevo_espacio cfg (λ ms. true) (uno s_rdy) ≡ some st') × Coherente cfg st'
nuevo_espacio-Coherente_example =
    nuevo_espacio-Coherente cfg (λ ms. true) (uno s_rdy) s_rdy-Coherente

cpu_libre_vuelta-Coherente_example :
    ((cpu_libre_vuelta cfg true 4 listo ≡ none) × (listos listo.listas listo.niveles ≡ 0))
    ⊎ (Responde cfg (cpu_libre_vuelta cfg true 4 listo) × (0 < listos listo.listas listo.niveles))
cpu_libre_vuelta-Coherente_example = cpu_libre_vuelta-Coherente cfg true 4 listo listo-Coherente

buscar_pcb_por_pid_lem_example : buscar_pcb_por_pid cfg 0 (uno rnn) ≡ some 0
unfolding uno
buscar_pcb_por_pid_lem_example = buscar_pcb_por_pid_lem cfg (uno rnn) rnn-Coherente 0

atender_desalojo-Coherente_example :
    (r : Ks × List Mensaje) × (atender_desalojo cfg true 4 0 (uno rnn) ≡ some r) × Coherente cfg r.0
unfolding uno
atender_desalojo-Coherente_example =
    atender_desalojo-Coherente cfg true 4 0 (uno rnn) rnn-Coherente refl

obtener-Sacado_example :
    (0 < listo.proximo)
    × Sacado 0 (lugar_de cmn (pcb rdy)) listo despachado
    × ((fd_afinidad_de 0 listo.retorno_cpu ≡ none) ⊎ (fd_afinidad_de 0 listo.retorno_cpu ≡ some 4))
unfolding obtener_siguiente_proceso_para_cpu primero_listo primero_de_niveles fd_afinidad_de listo
obtener-Sacado_example = obtener-Sacado cfg listo 0 listo-Coherente refl 4 0 despachado refl

-- The same in the middle of a compaction.
abbrev compactando : Ks
compactando = record (uno rnn) { compactacion_value = true }

compactando-Coherente : Coherente cfg compactando
compactando-Coherente = rnn-Coherente

volver_a_ready-pierde_example :
    (st' : Ks) × (volver_a_ready cfg 0 compactando ≡ some st')
    × ((st'.pcbs 0).estado_pcb ≡ rdy)
    × (0 < veces 0 st'.listas.rdy)
    × ((fd q : ℕ) (s : Ks) → obtener_siguiente_proceso_para_cpu cfg fd st' ≡ some (q, s) → q ≢ 0)
unfolding uno
volver_a_ready-pierde_example =
    volver_a_ready-pierde cfg refl 0 compactando compactando-Coherente refl refl

-- A mutex that the process owns and for which the PID 0 waits.
abbrev tomado : MutexCpu
tomado = record { mutex_id = "M"; valor = 0; dueno_actual = some 0; cola_mutex = 0 ∷ [] }

actualizar_herencia-Mejor_example :
    Mejor cfg (uno rnn) (0 ∷ []) 1 ((actualizar_herencia cfg tomado (uno rnn)).pcbs 0).prioridad
unfolding uno
actualizar_herencia-Mejor_example = actualizar_herencia-Mejor cfg tomado 0 (uno rnn) refl refl

-- AX is followed by BX.
abbrev registros : Registros
registros = record {
  ax = 200;
  bx = 100;
  cx = 0;
  dx = 0;
  eax = 0;
  ebx = 0;
  ecx = 0;
  edx = 0;
  si = 0;
  di = 0;
  pc = 7;
}

registros-Validos : RegistrosValidos registros
registros-Validos = omega arith

sub-sum_example :
    (ejecutar_sum ebx ax registros >>= λ r. ejecutar_sub ebx ax r.0) ≡ some (registros, false)
sub-sum_example = sub-sum ebx ax registros registros-Validos (inr (omega arith))

-- A Memory Stick at port 8 that is pending.
abbrev stick_nuevo : MemStick
stick_nuevo = record { ip = 49 ∷ []; puerto = 56 ∷ []; base = 256; tamanio = 16 }

abbrev con_pendiente : Ks
con_pendiente = record (uno rnn) { list_ms_pendientes = stick_nuevo ∷ [] }

stick_nuevo-Valido : MemStickValido stick_nuevo
stick_nuevo-Valido = record {
  ip = (omega arith, tt);
  puerto = (omega arith, tt);
  base = omega arith;
  tamanio = omega arith;
}

-- What the CPU is sent.
abbrev aviso_stick : List ℕ
aviso_stick = 49 ∷ 0 ∷ 56 ∷ 0 ∷ 0 ∷ 1 ∷ 0 ∷ 0 ∷ 16 ∷ 0 ∷ 0 ∷ 0 ∷ []

recibir-responder_example :
    (m : MemStick) × (ms nuevos : List MemStick) × (con_pendiente.list_ms_pendientes ≡ m ∷ ms)
    × ((responder_desalojo cfg 0 con_pendiente).0 ≡ false)
    × ((responder_desalojo cfg 0 con_pendiente).1
        ≡ record con_pendiente { list_ms_pendientes = ms })
    × (recibir_memory_stick biblioteca true true aviso_stick [] ≡ some (nuevos, op ok ∷ []))
    × Permᴰ (m ∷ []) nuevos
    × Ordenada comparar_base_memory_stick nuevos
unfolding uno ks_inicial existe_pcb_con_pid list_find_with_context responder_desalojo
recibir-responder_example =
    recibir-responder biblioteca cfg 0 con_pendiente aviso_stick [] (stick_nuevo-Valido, tt) tt refl
