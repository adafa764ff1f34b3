-- ===== src/KernelScheduler/Listas.antt =====
-- kernel_scheduler/utilsKS/utilsKS.c: the lists of processes, and the state of a process.
use tp_so_limpio.Base.{
  ℕ, zero, suc, ◌+◌, Bool, true, false, Option, none, some, List, [], ◌∷◌, ◌++◌, ◌==◌, ◌>>=◌, ltb,
  length, add32, if◌then◌else◌,
}
use tp_so_limpio.KernelScheduler.Estado.{
  Estado, rdy, bck, s_rdy, no_estado, Nivel, fifo, rr, cmn, otra, InfoConfig, Ks, escribir_pcb,
  lista_de, en_lista,
}
use tp_so_limpio.KernelScheduler.Desalojo.{verificar_desalojo_por_prioridad}

-- `list_remove_element`: whether it stands there, and the list without its first occurrence.
unfoldable pub list_remove_element : ℕ → List ℕ → Bool × List ℕ
list_remove_element p [] = (false, [])
list_remove_element p (x ∷ xs) =
    let r = list_remove_element p xs in if x == p then (true, xs) else (r.0, x ∷ r.1)

-- `sem_wait`; `none` is a thread that waits until another one posts.
abbrev pub sem_wait : ℕ → Option ℕ
sem_wait zero = none
sem_wait (suc n) = some n

-- `list_add(niveles[n].cola, p)`.
unfoldable pub agregar_a_nivel : ℕ → ℕ → List Nivel → List Nivel
agregar_a_nivel n p [] = []
agregar_a_nivel zero p (v ∷ vs) = record v { cola = v.cola ++ (p ∷ []) } ∷ vs
agregar_a_nivel (suc n) p (v ∷ vs) = v ∷ agregar_a_nivel n p vs

-- The loop of `eliminar_proceso_Lista` over the queues of the levels.
unfoldable pub quitar_de_niveles : ℕ → List Nivel → Bool × List Nivel
unfolding list_remove_element
quitar_de_niveles p [] = (false, [])
quitar_de_niveles p (v ∷ vs) =
    let r = list_remove_element p v.cola in
    let resto = quitar_de_niveles p vs in
    let v' : Nivel = record v { cola = r.1 } in
    if r.0 then (true, v' ∷ vs) else (resto.0, v' ∷ resto.1)

-- A negative priority is a pattern that no number of levels reaches.
unfoldable pub ready_cmn : InfoConfig → ℕ → Ks → Ks
unfolding agregar_a_nivel
ready_cmn cfg p st =
    let n = (st.pcbs p).prioridad in
    let st' = record st { niveles = agregar_a_nivel n p st.niveles } in
    if ltb n (length st.niveles)
    then (if cfg.preemption then verificar_desalojo_por_prioridad cfg p st' else st')
    else st

unfoldable pub ready_fifo : ℕ → Ks → Ks
ready_fifo p st = en_lista rdy (st.listas.rdy ++ (p ∷ [])) st

unfoldable pub agregar_lista_ready : InfoConfig → ℕ → Ks → Ks
unfolding ready_fifo ready_cmn
agregar_lista_ready cfg p st = elim cfg.politica [
  | fifo ↦ ready_fifo p st
  | rr ↦ ready_fifo p st
  | cmn ↦ ready_cmn cfg p st
  | otra ↦ st
]

abbrev pub agregar_segun : InfoConfig → Estado → ℕ → Ks → Ks
agregar_segun cfg rdy p st =
    let st' = agregar_lista_ready cfg p st in record st' { sem_hay_ready = st'.sem_hay_ready + 1 }
agregar_segun cfg s_rdy p st = record (en_lista s_rdy (st.listas.s_rdy ++ (p ∷ [])) st) {
  sem_hay_s_ready = st.sem_hay_s_ready + 1;
}
agregar_segun cfg no_estado p st = st
agregar_segun cfg e p st = en_lista e (lista_de e st.listas ++ (p ∷ [])) st

-- The place in the list, which no caller reads, is left out.
unfoldable pub agregar_proceso_lista : InfoConfig → ℕ → Ks → Ks
agregar_proceso_lista cfg p st = agregar_segun cfg (st.pcbs p).estado_pcb p st

-- The removal from a list of READY: from `listasProcesos->rdy`, or else with CMN from the levels.
unfoldable pub quitar_de_ready : InfoConfig → ℕ → Ks → Bool × Ks
unfolding list_remove_element quitar_de_niveles
quitar_de_ready cfg p st =
    let r = list_remove_element p st.listas.rdy in
    let st' = en_lista rdy r.1 st in
    let n = quitar_de_niveles p st.niveles in
    if r.0
    then (true, st')
    else elim cfg.politica [ cmn ↦ (n.0, record st' { niveles = n.1 }) | _ ↦ (false, st') ]

abbrev pub eliminar_segun : InfoConfig → Estado → ℕ → Ks → Option (Bool × Ks)
eliminar_segun cfg rdy p st =
    let r = quitar_de_ready cfg p st in
    if r.0
    then (sem_wait r.1.sem_hay_ready >>= λ n. some (true, record r.1 { sem_hay_ready = n }))
    else some (false, r.1)
eliminar_segun cfg s_rdy p st =
    let r = list_remove_element p st.listas.s_rdy in
    let st' = en_lista s_rdy r.1 st in
    if r.0
    then (sem_wait st.sem_hay_s_ready >>= λ n. some (true, record st' { sem_hay_s_ready = n }))
    else some (false, st')
eliminar_segun cfg no_estado p st = some (false, st)
eliminar_segun cfg e p st =
    let r = list_remove_element p (lista_de e st.listas) in some (r.0, en_lista e r.1 st)

-- Whether the process was removed, OK or NOTOK; `none` where the thread waits at a semaphore.
unfoldable pub eliminar_proceso_lista : InfoConfig → ℕ → Ks → Option (Bool × Ks)
unfolding list_remove_element
eliminar_proceso_lista cfg p st = eliminar_segun cfg (st.pcbs p).estado_anterior p st

abbrev block_version_en : Estado → ℕ → ℕ
block_version_en bck n = add32 n 1
block_version_en _ n = n

unfoldable pub cambiar_estado_pcb : ℕ → Estado → Ks → Ks
cambiar_estado_pcb p e st =
    let x = st.pcbs p in
    escribir_pcb p
      (record x {
        estado_anterior = x.estado_pcb;
        estado_pcb = e;
        block_version = block_version_en e x.block_version;
      })
      st

-- The three calls by which a process changes its list.
unfoldable pub transicion : InfoConfig → ℕ → Estado → Ks → Option Ks
transicion cfg p e st = eliminar_proceso_lista cfg p (cambiar_estado_pcb p e st) >>= λ r.
    some (agregar_proceso_lista cfg p r.1)

-- The same calls where the process is added before it is removed.
unfoldable pub transicion_adelantada : InfoConfig → ℕ → Estado → Ks → Option Ks
transicion_adelantada cfg p e st =
    eliminar_proceso_lista cfg p (agregar_proceso_lista cfg p (cambiar_estado_pcb p e st)) >>= λ r.
    some r.1
