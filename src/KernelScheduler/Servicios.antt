-- ===== src/KernelScheduler/Servicios.antt =====
-- kernel_scheduler/src/server/src/server.c: what a CPU asks for, by handlers that take what they
-- receive and return the state and what the CPU is sent; `none` where the thread waits at a semaphore.
-- `hay_lugar` is the answer of Kernel Memory to nuevo_espacio.
use tp_so_limpio.Base.{
  ℕ, ◌+◌, Bool, true, false, Option, none, some, List, [], ◌∷◌, ◌++◌, ◌==◌, ◌>>=◌, ◌&&◌, add32,
  if◌then◌else◌,
}
use tp_so_limpio.GlobalUtils.{
  Mensaje, op, entero, buffer, ok, desalojo, mem_corrupt, compactacion, gl_exit, nueva_memory_stick,
}
use tp_so_limpio.GlobalUtils.Paquete.{bytes_de}
use tp_so_limpio.KernelScheduler.Estado.{
  rdy, rnn, bck, ext, InfoConfig, CpuKs, Ks, escribir_pcb, en_lista,
}
use tp_so_limpio.KernelScheduler.Desalojo.{existe_pcb_con_pid, sacar_pcb_por_pid}
use tp_so_limpio.KernelScheduler.Listas.{
  cambiar_estado_pcb, eliminar_proceso_lista, transicion, transicion_adelantada,
}
use tp_so_limpio.KernelScheduler.Afinidad.{quitar_retorno_cpu, quitar_retorno_por_fd}
use tp_so_limpio.KernelScheduler.Busqueda.{buscar_pcb_por_pid, buscar_cpu, con_cpu, liberada}
use tp_so_limpio.KernelScheduler.Plazos.{enviar_a_km, nuevo_espacio}
use tp_so_limpio.KernelScheduler.Prioridades.{actualizar_prioridad_pcb}

abbrev sin_reserva : ℕ → Ks → Ks
sin_reserva pid st = record st { retorno_cpu = quitar_retorno_cpu pid st.retorno_cpu }

-- The end of a process, which `exit_proceso` and `segmentation_fault` share: its CPU is free, and
-- Kernel Memory may have room for others.
unfoldable pub liberar_cpu_y_espacio : InfoConfig → (List Mensaje → Bool) → ℕ → Ks → Option Ks
liberar_cpu_y_espacio cfg hay_lugar fd st = elim (buscar_cpu fd st.cpus) [
  | none ↦ some st
  | some c ↦ nuevo_espacio cfg hay_lugar (record st { cpus = con_cpu liberada fd st.cpus })
]

unfoldable pub exit_proceso :
    InfoConfig → (List Mensaje → Bool) → ℕ → ℕ → Ks → Option (Ks × List Mensaje)
exit_proceso cfg hay_lugar fd pid st = elim (buscar_pcb_por_pid cfg pid st) [
  | none ↦ some (sin_reserva pid st, [])
  | some p ↦
      transicion cfg p ext (enviar_a_km (op gl_exit ∷ entero pid ∷ []) (sin_reserva pid st))
      >>= liberar_cpu_y_espacio cfg hay_lugar fd
      >>= λ s. some (s, op ok ∷ [])
]

unfoldable pub segmentation_fault : InfoConfig → (List Mensaje → Bool) → ℕ → ℕ → Ks → Option Ks
segmentation_fault cfg hay_lugar fd pid st = elim (buscar_pcb_por_pid cfg pid st) [
  | none ↦ some (sin_reserva pid st)
  | some p ↦ transicion cfg p ext (sin_reserva pid st) >>= λ s.
      liberar_cpu_y_espacio cfg hay_lugar fd
        (enviar_a_km (op gl_exit ∷ entero (s.pcbs p).pid ∷ []) s)
]

-- What the CPU is told when it asks whether to go on, and whether the process was preempted.
unfoldable pub responder_desalojo : InfoConfig → ℕ → Ks → Bool × Ks × List Mensaje
responder_desalojo cfg pid st =
    let sacado = record st { desalojo = sacar_pcb_por_pid st.pcbs st.desalojo pid } in
    let terminado : Bool × Ks × List Mensaje = (false, sin_reserva pid sacado, op ok ∷ []) in
    if st.mem_corrupt_value
    then (true, sin_reserva pid st, op mem_corrupt ∷ [])
    else if st.compactacion_value
    then (true, sin_reserva pid st, op compactacion ∷ [])
    else if existe_pcb_con_pid st.pcbs st.desalojo pid
    then elim (buscar_pcb_por_pid cfg pid st) [
      | none ↦ terminado
      | some p ↦ elim (st.pcbs p).estado_pcb [
        | ext ↦ terminado
        | _ ↦ (true, sacado, op desalojo ∷ [])
      ]
    ]
    else elim st.list_ms_pendientes [
      | [] ↦ (false, st, op ok ∷ [])
      | m ∷ ms ↦ (
        false,
        record st { list_ms_pendientes = ms },
        op nueva_memory_stick
            ∷ buffer (m.ip ++ (0 ∷ m.puerto ++ (0 ∷ bytes_de 4 m.base ++ bytes_de 4 m.tamanio)))
            ∷ [],
      )
    ]

-- The process is ready again; during a compaction it goes to the head of `listasProcesos->rdy`.
unfoldable pub volver_a_ready : InfoConfig → ℕ → Ks → Option Ks
volver_a_ready cfg p st =
    let st1 = cambiar_estado_pcb p rdy st in
    let st2 = actualizar_prioridad_pcb cfg p 0 st1 in
    let st3 = record (en_lista rdy (p ∷ st2.listas.rdy) st2) {
      sem_hay_ready = st2.sem_hay_ready + 1;
    } in
    if st.compactacion_value
    then (eliminar_proceso_lista cfg p st3 >>= λ r. some r.1)
    else transicion_adelantada cfg p rdy st

-- What becomes of the process that the CPU gave up.
unfoldable pub desalojar : InfoConfig → ℕ → Ks → Option Ks
desalojar cfg pid st = elim (buscar_pcb_por_pid cfg pid st) [
  | none ↦ some st
  | some p ↦ elim (st.pcbs p).estado_pcb [
    | bck ↦ if (st.pcbs p).esperando_io then some st else volver_a_ready cfg p st
    | rnn ↦ volver_a_ready cfg p st
    | _ ↦ some st
  ]
]

-- `confirma` tells whether the CPU then answers OK.
unfoldable pub atender_desalojo : InfoConfig → Bool → ℕ → ℕ → Ks → Option (Ks × List Mensaje)
atender_desalojo cfg confirma fd pid st =
    let r = responder_desalojo cfg pid st in
    (if confirma && r.0 then desalojar cfg pid r.1 else some r.1) >>= λ s.
    some (record s { cpus = if r.0 then con_cpu liberada fd s.cpus else s.cpus }, r.2)

-- What becomes of the process `p` of a CPU that is lost.
unfoldable pub replanificar : InfoConfig → ℕ → Ks → Option Ks
replanificar cfg p st =
    let x = st.pcbs p in
    let st1 = record st { desalojo = sacar_pcb_por_pid st.pcbs st.desalojo x.pid } in
    let st2 =
      escribir_pcb p (record x { fd_cpu = 0; quantum_version = add32 x.quantum_version 1 }) st1 in
    elim x.estado_pcb [
      | rnn ↦ transicion cfg p rdy st2
      | bck ↦ if x.esperando_io then some st2 else transicion cfg p rdy st2
      | _ ↦ some st2
    ]

unfoldable pub quitar_cpu : ℕ → List CpuKs → List CpuKs
quitar_cpu fd [] = []
quitar_cpu fd (c ∷ cs) = if c.fd == fd then cs else c ∷ quitar_cpu fd cs

-- The CPU is the one that `rev_desconexion` finds by its socket.
unfoldable pub gestionar_desconexion_cpu : InfoConfig → CpuKs → Ks → Option Ks
gestionar_desconexion_cpu cfg c st =
    let st1 = record st {
      cpus = quitar_cpu c.fd st.cpus;
      retorno_cpu = quitar_retorno_por_fd c.fd st.retorno_cpu;
    } in
    elim (c.pid_ejecutando >>= λ pid. buscar_pcb_por_pid cfg pid st1) [
      | none ↦ some st1
      | some p ↦ if (st.pcbs p).fd_cpu == c.fd then replanificar cfg p st1 else some st1
    ]
