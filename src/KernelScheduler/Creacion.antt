-- ===== src/KernelScheduler/Creacion.antt =====
-- kernel_scheduler/utilsKS/utilsKS.c and init_proc of kernel_scheduler/src/server/src/server.c: the
-- first state, and the creation of processes.
use Prim.Native.String.{String}
use text.Mathlib.Text.{◌==◌ as str_eq}
use tp_so_limpio.Base.{
  ℕ, suc, Bool, false, Option, none, some, List, [], ◌∷◌, ◌>>=◌, add32, if◌then◌else◌,
}
use tp_so_limpio.GlobalUtils.{Mensaje, op, entero, mensaje, ok, ks_init_proc}
use tp_so_limpio.KernelScheduler.Estado.{
  new, rdy, no_estado, Pcb, Listas, Nivel, nivel_fifo, nivel_rr, InfoConfig, Ks, escribir_pcb,
}
use tp_so_limpio.KernelScheduler.Desalojo.{anotar_desalojo}
use tp_so_limpio.KernelScheduler.Listas.{agregar_proceso_lista, transicion}
use tp_so_limpio.KernelScheduler.Busqueda.{buscar_pcb_por_pid}
use tp_so_limpio.KernelScheduler.Plazos.{enviar_a_km}

-- The levels of `iniciar_planificador_CMN`, from the names of their algorithms.
unfoldable pub iniciar_planificador_cmn : List String → ℕ → List Nivel
iniciar_planificador_cmn [] quantum_default = []
iniciar_planificador_cmn (a ∷ as') quantum_default =
    (if str_eq a "FIFO"
      then record { tipo = nivel_fifo; cola = []; quantum = 0 }
      else record { tipo = nivel_rr; cola = []; quantum = quantum_default })
    ∷ iniciar_planificador_cmn as' quantum_default

abbrev pub iniciar_listas_procesos : Listas
iniciar_listas_procesos = record {
  new = [];
  rnn = [];
  rdy = [];
  bck = [];
  s_bck = [];
  s_rdy = [];
  ext = [];
}

-- The planner before anything connects; no PCB was created, whatever the store holds.
unfoldable pub ks_inicial : (ℕ → Pcb) → List Nivel → Ks
ks_inicial h niveles = record {
  pcbs = h;
  proximo = 0;
  contador_pid = 0;
  listas = iniciar_listas_procesos;
  niveles = niveles;
  sem_hay_ready = 0;
  sem_hay_s_ready = 0;
  cpus = [];
  desalojo = [];
  retorno_cpu = [];
  lista_mutex = [];
  ms = [];
  list_ms_pendientes = [];
  lista_bck_io = record {
    io_sleep = [];
    io_stdin = [];
    io_stdout = [];
    sem_io_sleep_vacio = 0;
    sem_io_stdin_vacio = 0;
    sem_io_stdout_vacio = 0;
  };
  compactacion_value = false;
  mem_corrupt_value = false;
  a_km = [];
  hilos_quantum = [];
}

unfoldable pub iniciar_pcb : InfoConfig → ℕ → ℕ → Ks → ℕ × Ks
iniciar_pcb cfg pid prioridad st =
    let x : Pcb = record {
      mutex_tomados = [];
      pid = pid;
      prioridad = prioridad;
      prioridad_original = prioridad;
      estado_pcb = new;
      estado_anterior = no_estado;
      fd_cpu = 0;
      esperando_io = false;
      quantum_version = 0;
      block_version = 0;
    } in
    let st1 = record (escribir_pcb st.proximo x st) { proximo = suc st.proximo } in
    (st.proximo, agregar_proceso_lista cfg st.proximo st1)

unfoldable pub crear_nuevo_proceso : InfoConfig → String → ℕ → Ks → ℕ × Ks
unfolding iniciar_pcb
crear_nuevo_proceso cfg path prioridad st =
    let r = iniciar_pcb cfg st.contador_pid prioridad st in
    let s = enviar_a_km (op ks_init_proc ∷ entero (r.1.pcbs r.0).pid ∷ mensaje path ∷ []) r.1 in
    (r.0, record s { contador_pid = add32 s.contador_pid 1 })

-- `respuesta_ok` tells whether Kernel Memory answered OK: only then is the new process ready.
unfoldable pub crear_y_admitir : InfoConfig → Bool → String → ℕ → Ks → Option Ks
crear_y_admitir cfg respuesta_ok path prioridad st =
    let r = crear_nuevo_proceso cfg path prioridad st in
    if respuesta_ok then transicion cfg r.0 rdy r.1 else some r.1

-- The first process, which `main` creates.
unfoldable pub primer_proceso : InfoConfig → Bool → String → Ks → Option Ks
unfolding crear_y_admitir
primer_proceso cfg respuesta_ok path st = crear_y_admitir cfg respuesta_ok path 0 st

unfoldable pub init_proc : InfoConfig → Bool → String → ℕ → ℕ → Ks → Option (Ks × List Mensaje)
init_proc cfg respuesta_ok path prioridad pid st = elim (buscar_pcb_por_pid cfg pid st) [
  | none ↦ some (st, op ok ∷ op ok ∷ op ok ∷ [])
  | some p ↦ crear_y_admitir cfg respuesta_ok path prioridad (anotar_desalojo p st) >>= λ s.
      some (s, op ok ∷ op ok ∷ op ok ∷ op ok ∷ [])
]
