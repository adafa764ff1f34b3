-- ===== src/KernelScheduler/Mutex.antt =====
-- kernel_scheduler/src/server/src/server.c: the mutexes of the processes, with inherited priorities.
-- A mutex is known by its place in `lista_mutex`.
use Prim.Native.String.{String}
use text.Mathlib.Text.{◌==◌ as str_eq}
use tp_so_limpio.Base.{
  ℕ, ◌+◌, Bool, true, false, Option, none, some, List, [], ◌∷◌, ◌++◌, ◌==◌, ◌>>=◌, set,
  if◌then◌else◌,
}
use tp_so_limpio.GlobalUtils.{Mensaje, op, ok, notok}
use tp_so_limpio.KernelScheduler.Estado.{bck, MutexCpu, InfoConfig, Ks, escribir_pcb}
use tp_so_limpio.KernelScheduler.Desalojo.{agregar_a_desalojo, anotar_desalojo}
use tp_so_limpio.KernelScheduler.Listas.{list_remove_element, transicion_adelantada}
use tp_so_limpio.KernelScheduler.Afinidad.{pinear_retorno_cpu}
use tp_so_limpio.KernelScheduler.Busqueda.{buscar_pcb_por_pid}
use tp_so_limpio.KernelScheduler.Plazos.{mediano_plazo_rdy}
use tp_so_limpio.KernelScheduler.Prioridades.{actualizar_herencia, recalcular_prioridad}

-- The first mutex of an id, with its place.
unfoldable pub buscar_mutex : String → ℕ → List MutexCpu → Option (ℕ × MutexCpu)
buscar_mutex id i [] = none
buscar_mutex id i (m ∷ ms) =
    if str_eq m.mutex_id id then some (i, m) else buscar_mutex id (i + 1) ms

abbrev pub escribir_mutex : ℕ → MutexCpu → Ks → Ks
escribir_mutex i m st = record st { lista_mutex = set st.lista_mutex i m }

-- The process leaves its CPU and is to come back to the same one.
unfoldable pub desalojar_por_syscall_mismo_cpu : Option ℕ → ℕ → Ks → Ks
unfolding agregar_a_desalojo
desalojar_por_syscall_mismo_cpu none fd st = st
desalojar_por_syscall_mismo_cpu (some p) fd st =
    let s = agregar_a_desalojo p st in
    record s { retorno_cpu = pinear_retorno_cpu (s.pcbs p).pid fd s.retorno_cpu }

unfoldable pub mutex_create : InfoConfig → ℕ → ℕ → String → Ks → Ks × List Mensaje
mutex_create cfg fd pid id st =
    let m : MutexCpu = record { mutex_id = id; valor = 1; dueno_actual = none; cola_mutex = [] } in
    let s = record st { lista_mutex = st.lista_mutex ++ (m ∷ []) } in
    elim (buscar_pcb_por_pid cfg pid s) [
      | none ↦ (s, op ok ∷ [])
      | some p ↦ (desalojar_por_syscall_mismo_cpu (some p) fd s, op ok ∷ op ok ∷ [])
    ]

-- The mutex `i` is free and process `p` takes it.
unfoldable pub tomar_mutex : ℕ → MutexCpu → ℕ → Ks → Ks
tomar_mutex i m p st =
    let x = st.pcbs p in
    escribir_mutex i (record m { valor = 0; dueno_actual = some p })
      (escribir_pcb p (record x { mutex_tomados = x.mutex_tomados ++ (i ∷ []) }) st)

-- The mutex `i` is taken: process `p` waits for it and its owner inherits.
unfoldable pub esperar_mutex : InfoConfig → ℕ → MutexCpu → ℕ → ℕ → Ks → Option Ks
esperar_mutex cfg i m p pid st =
    let m' = record m { cola_mutex = m.cola_mutex ++ (pid ∷ []) } in
    let s = escribir_pcb p (record (st.pcbs p) { esperando_io = true }) (escribir_mutex i m' st) in
    transicion_adelantada cfg p bck (actualizar_herencia cfg m' s) >>= λ s'.
    some (anotar_desalojo p s')

unfoldable pub mutex_lock : InfoConfig → ℕ → String → Ks → Option (Ks × List Mensaje)
mutex_lock cfg pid id st = elim (buscar_mutex id 0 st.lista_mutex) [
  | none ↦ some (st, op ok ∷ op notok ∷ [])
  | some (i, m) ↦ elim (buscar_pcb_por_pid cfg pid st) [
    | none ↦ some (st, op ok ∷ [])
    | some p ↦
        if m.valor == 1
        then some (tomar_mutex i m p st, op ok ∷ op ok ∷ [])
        else (esperar_mutex cfg i m p pid st >>= λ s. some (s, op ok ∷ op ok ∷ []))
  ]
]

-- The first that waits becomes the owner and wakes up; a PID that nobody has frees the mutex.
unfoldable pub entregar_mutex : InfoConfig → ℕ → MutexCpu → Ks → Option Ks
entregar_mutex cfg i m st = elim m.cola_mutex [
  | [] ↦ some (escribir_mutex i (record m { valor = 1 }) st)
  | siguiente ∷ resto ↦
      let m1 = record m { cola_mutex = resto } in
      elim (buscar_pcb_por_pid cfg siguiente (escribir_mutex i m1 st)) [
        | none ↦ some (escribir_mutex i (record m1 { valor = 1 }) st)
        | some q ↦
            let m2 = record m1 { dueno_actual = some q } in
            let x = st.pcbs q in
            let s1 =
              escribir_pcb q (record x { mutex_tomados = x.mutex_tomados ++ (i ∷ []) })
                (escribir_mutex i m2 st) in
            let s2 = actualizar_herencia cfg m2 s1 in
            mediano_plazo_rdy cfg q
              (escribir_pcb q (record (s2.pcbs q) { esperando_io = false }) s2)
      ]
]

-- The owner gives the mutex up.
unfoldable pub soltar_mutex : InfoConfig → ℕ → MutexCpu → ℕ → Ks → Option Ks
soltar_mutex cfg i m p st =
    let x = st.pcbs p in
    let sin_el = (list_remove_element i x.mutex_tomados).1 in
    let s1 = recalcular_prioridad cfg p (escribir_pcb p (record x { mutex_tomados = sin_el }) st) in
    let m1 = record m { dueno_actual = none } in entregar_mutex cfg i m1 (escribir_mutex i m1 s1)

abbrev pub es_dueno : ℕ → Option ℕ → Bool
es_dueno p none = false
es_dueno p (some q) = q == p

unfoldable pub mutex_unlock : InfoConfig → ℕ → ℕ → String → Ks → Option (Ks × List Mensaje)
mutex_unlock cfg fd pid id st = elim (buscar_pcb_por_pid cfg pid st) [
  | none ↦ some (st, op ok ∷ [])
  | some p ↦ elim (buscar_mutex id 0 st.lista_mutex) [
    | none ↦ some (st, op ok ∷ op notok ∷ [])
    | some (i, m) ↦
        (if es_dueno p m.dueno_actual then soltar_mutex cfg i m p st else some st) >>= λ s.
        some (desalojar_por_syscall_mismo_cpu (some p) fd s, op ok ∷ op ok ∷ [])
  ]
]
