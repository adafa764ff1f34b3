-- ===== src/KernelScheduler/Bloqueos.antt =====
-- kernel_scheduler/src/server/src/server.c: the syscalls that wait for a device, and their end.
use tp_so_limpio.Base.{
  ℕ, ◌+◌, ◌<◌, refl, true, false, Option, none, some, List, [], ◌∷◌, ◌++◌, ◌>>=◌, arith,
  Option-cases, inl, inr,
}
use tp_so_limpio.GlobalUtils.{Mensaje, op, ok, notok}
use tp_so_limpio.KernelScheduler.Estado.{
  bck, TrabajoIo, sleep, stdin, stdout, ListasIo, InfoConfig, Ks, escribir_pcb,
}
use tp_so_limpio.KernelScheduler.Desalojo.{anotar_desalojo}
use tp_so_limpio.KernelScheduler.Listas.{transicion}
use tp_so_limpio.KernelScheduler.Busqueda.{buscar_pcb_por_pid}
use tp_so_limpio.KernelScheduler.Plazos.{mediano_plazo_rdy}
use tp_so_limpio.KernelScheduler.Coherencia.{Coherente}
use tp_so_limpio.KernelScheduler.Vigencia.{
  Sigue, hallado-existe, escribir-Coherente, transicion-Sigue, mediano_plazo_rdy-Coherente,
}

-- A work joins the queue of its device, and its semaphore is posted.
unfoldable pub encolar_trabajo : ℕ → TrabajoIo → ListasIo → ListasIo
encolar_trabajo pid (sleep t) l = record l {
  io_sleep = l.io_sleep ++ (record { pid = pid; trabajo = sleep t } ∷ []);
  sem_io_sleep_vacio = l.sem_io_sleep_vacio + 1;
}
encolar_trabajo pid (stdin d n) l = record l {
  io_stdin = l.io_stdin ++ (record { pid = pid; trabajo = stdin d n } ∷ []);
  sem_io_stdin_vacio = l.sem_io_stdin_vacio + 1;
}
encolar_trabajo pid (stdout n bytes) l = record l {
  io_stdout = l.io_stdout ++ (record { pid = pid; trabajo = stdout n bytes } ∷ []);
  sem_io_stdout_vacio = l.sem_io_stdout_vacio + 1;
}

-- The process is blocked, has to leave its CPU, and its work is queued.
unfoldable pub bloquear_por_io : InfoConfig → ℕ → TrabajoIo → Ks → Option Ks
bloquear_por_io cfg p trabajo st =
    transicion cfg p bck (escribir_pcb p (record (st.pcbs p) { esperando_io = true }) st) >>= λ s.
    let s' = anotar_desalojo p s in
    some (record s' { lista_bck_io = encolar_trabajo (s'.pcbs p).pid trabajo s'.lista_bck_io })

-- `io_sleep` and `io_stdin`: the CPU hears OK first, and NOTOK too if nobody has the PID.
unfoldable pub io_sleep : InfoConfig → ℕ → ℕ → Ks → Option (Ks × List Mensaje)
io_sleep cfg pid tiempo st = elim (buscar_pcb_por_pid cfg pid st) [
  | none ↦ some (st, op ok ∷ op notok ∷ [])
  | some p ↦ bloquear_por_io cfg p (sleep tiempo) st >>= λ s. some (s, op ok ∷ [])
]

unfoldable pub io_stdin : InfoConfig → ℕ → ℕ → ℕ → Ks → Option (Ks × List Mensaje)
io_stdin cfg pid dir tam st = elim (buscar_pcb_por_pid cfg pid st) [
  | none ↦ some (st, op ok ∷ op notok ∷ [])
  | some p ↦ bloquear_por_io cfg p (stdin dir tam) st >>= λ s. some (s, op ok ∷ [])
]

-- `leidos` is what Kernel Memory answers, or nothing where the reception fails.
unfoldable pub io_stdout : InfoConfig → ℕ → ℕ → List ℕ → Ks → Option (Ks × List Mensaje)
io_stdout cfg pid tam leidos st = elim (buscar_pcb_por_pid cfg pid st) [
  | none ↦ some (st, op notok ∷ [])
  | some p ↦ bloquear_por_io cfg p (stdout tam leidos) st >>= λ s. some (s, op ok ∷ [])
]

-- What `rta_io_sleep`, `rta_io_stdin` and `rta_io_stdout` do to the process; a PID that nobody has
-- is logged.
unfoldable pub terminar_io : InfoConfig → ℕ → Ks → Option Ks
terminar_io cfg pid st = elim (buscar_pcb_por_pid cfg pid st) [
  | none ↦ some st
  | some p ↦
      mediano_plazo_rdy cfg p (escribir_pcb p (record (st.pcbs p) { esperando_io = false }) st)
]

pub bloquear-Sigue :
    (cfg : InfoConfig) (p : ℕ) (trabajo : TrabajoIo) (st : Ks)
    → Coherente cfg st
    → p < st.proximo
    → Sigue cfg (bloquear_por_io cfg p trabajo st)
unfolding bloquear_por_io
bloquear-Sigue cfg p trabajo st v d =
    let x = record (st.pcbs p) { esperando_io = true } in
    let (s, e, w) =
      transicion-Sigue cfg p (escribir_pcb p x st)
        (escribir-Coherente cfg p x st v d refl refl refl) d bck (omega arith) in
    let s' = anotar_desalojo p s in
    (
      record s' { lista_bck_io = encolar_trabajo (s'.pcbs p).pid trabajo s'.lista_bck_io },
      rw e refl,
      w,
    )

-- A process whose device is done leaves its wait; an unknown one changes nothing.
pub terminar_io-Coherente :
    (cfg : InfoConfig) (pid : ℕ) (st : Ks) → Coherente cfg st → Sigue cfg (terminar_io cfg pid st)
unfolding terminar_io
terminar_io-Coherente cfg pid st v = elim (Option-cases (buscar_pcb_por_pid cfg pid st)) [
  | inl nada ↦ (st, rw (nada, terminar_io) refl, v)
  | inr (p, algo) ↦
      let (d, _) = hallado-existe cfg st pid v algo in
      let x = record (st.pcbs p) { esperando_io = false } in
      let (s, e, w) =
        mediano_plazo_rdy-Coherente cfg p (escribir_pcb p x st)
          (escribir-Coherente cfg p x st v d refl refl refl) d in
      (s, rw (algo, terminar_io) e, w)
]
