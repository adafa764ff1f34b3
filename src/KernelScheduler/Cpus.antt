-- ===== src/KernelScheduler/Cpus.antt =====
-- kernel_scheduler/src/server/src/server.c: CPUs that connect, take processes and give them up.
use Prim.Native.String.{String}
use tp_so_limpio.Base.{
  ℕ, ◌+◌, Bool, true, false, Option, none, some, List, [], ◌∷◌, ◌++◌, ◌==◌, ◌>>=◌, get_elem?, add32,
  if◌then◌else◌,
}
use tp_so_limpio.KernelScheduler.Estado.{
  rdy, rnn, Nivel, nivel_fifo, nivel_rr, Politica, rr, cmn, InfoConfig, CpuKs, Ks, escribir_pcb,
  en_lista,
}
use tp_so_limpio.KernelScheduler.Desalojo.{quitar_de_desalojo}
use tp_so_limpio.KernelScheduler.Listas.{
  sem_wait, cambiar_estado_pcb, agregar_proceso_lista, eliminar_proceso_lista,
}
use tp_so_limpio.KernelScheduler.Afinidad.{quitar_retorno_cpu, fd_afinidad_de}
use tp_so_limpio.KernelScheduler.Busqueda.{buscar_cpu, con_cpu, liberada}

-- The CPU as the planner registers it, without the list of Memory Sticks that it is sent.
unfoldable pub nueva_cpu : ℕ → String → Ks → Ks
nueva_cpu fd nombre st = record st {
  cpus =
      st.cpus
      ++ (record { fd = fd; identificador = nombre; en_uso = false; pid_ejecutando = none } ∷ []);
}

-- The head of a queue and the queues without it, or what the later queues give.
abbrev pub con_cabeza :
    Nivel → List Nivel → Option (ℕ × List Nivel) → List ℕ → Option (ℕ × List Nivel)
con_cabeza v vs resto [] = resto >>= λ r. some (r.0, v ∷ r.1)
con_cabeza v vs resto (p ∷ ps) = some (p, record v { cola = ps } ∷ vs)

-- The head of the first queue that is not empty, and the queues without it.
unfoldable pub primero_de_niveles : List Nivel → Option (ℕ × List Nivel)
primero_de_niveles [] = none
primero_de_niveles (v ∷ vs) = con_cabeza v vs (primero_de_niveles vs) v.cola

abbrev pub de_niveles : Ks → Option (ℕ × List Nivel) → Option (ℕ × Ks)
de_niveles st none = none
de_niveles st (some (p, vs)) = some (p, record st { niveles = vs })

abbrev pub de_rdy : Ks → List ℕ → Option (ℕ × Ks)
de_rdy st [] = none
de_rdy st (p ∷ ps) = some (p, en_lista rdy ps st)

abbrev pub primero_segun : Politica → Ks → Option (ℕ × Ks)
primero_segun cmn st = de_niveles st (primero_de_niveles st.niveles)
primero_segun _ st = de_rdy st st.listas.rdy

-- The process that is next in READY, and the state without it.
unfoldable pub primero_listo : InfoConfig → Ks → Option (ℕ × Ks)
primero_listo cfg st = primero_segun cfg.politica st

-- The process `p` is for the CPU `fd`, given the CPU that it waits for; its reservation is used up.
abbrev pub con_afinidad : ℕ → ℕ → ℕ → Ks → Option ℕ → Option (ℕ × Ks)
con_afinidad fd p pid st none = some (p, st)
con_afinidad fd p pid st (some f) =
    if f == fd
    then some (p, record st { retorno_cpu = quitar_retorno_cpu pid st.retorno_cpu })
    else none

abbrev pub elegir_para : ℕ → Ks → Option (ℕ × Ks) → Option (ℕ × Ks)
elegir_para fd st none = none
elegir_para fd st (some (p, st')) =
    let pid = (st.pcbs p).pid in con_afinidad fd p pid st' (fd_afinidad_de pid st.retorno_cpu)

-- The next process, unless it waits for another CPU.
unfoldable pub obtener_siguiente_proceso_para_cpu : InfoConfig → ℕ → Ks → Option (ℕ × Ks)
obtener_siguiente_proceso_para_cpu cfg fd st = elegir_para fd st (primero_listo cfg st)

unfoldable pub usa_quantum : InfoConfig → ℕ → Ks → Bool
usa_quantum cfg p st = elim cfg.politica [
  | rr ↦ true
  | cmn ↦ elim (get_elem? st.niveles (st.pcbs p).prioridad) [
    | none ↦ false
    | some v ↦ elim v.tipo [ nivel_rr ↦ true | nivel_fifo ↦ false ]
  ]
  | _ ↦ false
]

-- The thread that waits for the end of the quantum is started with the PCB and its new version.
unfoldable pub iniciar_quantum : InfoConfig → ℕ → Ks → Ks
unfolding usa_quantum
iniciar_quantum cfg p st =
    let x = st.pcbs p in
    let version = add32 x.quantum_version 1 in
    let st' = escribir_pcb p (record x { quantum_version = version }) st in
    if usa_quantum cfg p st
    then record st' { hilos_quantum = st.hilos_quantum ++ ((p, version) ∷ []) }
    else st

-- The process starts to run on the CPU: from `quitar_de_desalojo` to `agregar_proceso_lista`.
unfoldable pub despachar : InfoConfig → ℕ → ℕ → Ks → Ks
unfolding cambiar_estado_pcb
despachar cfg fd p st =
    let st1 = cambiar_estado_pcb p rnn (quitar_de_desalojo p st) in
    agregar_proceso_lista cfg p (escribir_pcb p (record (st1.pcbs p) { fd_cpu = fd }) st1)

-- What follows a PID that could not be sent.
unfoldable pub revertir_despacho : InfoConfig → ℕ → ℕ → Ks → Option Ks
revertir_despacho cfg fd p st =
    let st1 = record st { cpus = con_cpu liberada fd st.cpus } in
    let st2 = cambiar_estado_pcb p rdy st1 in
    let st3 = escribir_pcb p (record (st2.pcbs p) { fd_cpu = 0 }) st2 in
    eliminar_proceso_lista cfg p st3 >>= λ r. some (agregar_proceso_lista cfg p r.1)

abbrev pub sem_post_ready : Ks → Ks
sem_post_ready st = record st { sem_hay_ready = st.sem_hay_ready + 1 }

abbrev pub ocupar : Bool → CpuKs → CpuKs
ocupar b c = record c { en_uso = b }

-- From `enviar_pid` on: `enviado` tells whether the PID could be sent.
unfoldable pub terminar_despacho : InfoConfig → Bool → ℕ → ℕ → Ks → Option (Bool × Ks)
terminar_despacho cfg enviado fd p st =
    let pid = (st.pcbs p).pid in
    if enviado
    then some (
      false,
      iniciar_quantum cfg p
          (record st { cpus = con_cpu (λ c. record c { pid_ejecutando = some pid }) fd st.cpus }),
    )
    else (revertir_despacho cfg fd p st >>= λ s. some (false, s))

-- The CPU is taken, and given back if no process is for it.
unfoldable pub ocupar_cpu : InfoConfig → Bool → ℕ → Ks → Option (Bool × Ks)
ocupar_cpu cfg enviado fd st =
    let st1 = record st { cpus = con_cpu (ocupar true) fd st.cpus } in
    elim (obtener_siguiente_proceso_para_cpu cfg fd st1) [
      | none ↦
          some (true, sem_post_ready (record st1 { cpus = con_cpu (ocupar false) fd st1.cpus }))
      | some (p, st2) ↦ terminar_despacho cfg enviado fd p (despachar cfg fd p st2)
    ]

-- Whether to try again later, and the state.
unfoldable pub mandar_proceso_cpu : InfoConfig → Bool → ℕ → Ks → Option (Bool × Ks)
mandar_proceso_cpu cfg enviado fd st =
    if st.compactacion_value then some (true, sem_post_ready st) else elim (buscar_cpu fd st.cpus) [
      | none ↦ some (false, sem_post_ready st)
      | some c ↦ if c.en_uso then some (false, sem_post_ready st) else ocupar_cpu cfg enviado fd st
    ]

-- One round of the loop of `cpu_libre`; `none` where it waits for a process to be ready.
unfoldable pub cpu_libre_vuelta : InfoConfig → Bool → ℕ → Ks → Option (Bool × Ks)
cpu_libre_vuelta cfg enviado fd st = sem_wait st.sem_hay_ready >>= λ n.
    mandar_proceso_cpu cfg enviado fd (record st { sem_hay_ready = n })
