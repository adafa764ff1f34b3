-- ===== src/KernelScheduler/Desalojo.antt =====
-- kernel_scheduler/src/server/src/server.c: the list of the processes that a CPU has to give up.
use tp_so_limpio.Base.{
  ℕ, Bool, true, false, Option, none, some, List, [], ◌∷◌, ◌++◌, ◌==◌, ◌&&◌, not, slt32,
  if◌then◌else◌,
}
use tp_so_limpio.KernelScheduler.Estado.{Pcb, cmn, rnn, InfoConfig, Ks}

-- `list_find_with_context`.
unfoldable pub list_find_with_context : (ℕ → Bool) → List ℕ → Option ℕ
list_find_with_context condicion [] = none
list_find_with_context condicion (x ∷ xs) =
    if condicion x then some x else list_find_with_context condicion xs

-- `existe_pcb_con_pid`, with its predicate `_es_pid`.
unfoldable pub existe_pcb_con_pid : (ℕ → Pcb) → List ℕ → ℕ → Bool
unfolding list_find_with_context
existe_pcb_con_pid h lista pid = elim (list_find_with_context (λ p. (h p).pid == pid) lista) [
  | none ↦ false
  | some p ↦ true
]

-- `sacar_pcb_por_pid`, without the element that it returns.
unfoldable pub sacar_pcb_por_pid : (ℕ → Pcb) → List ℕ → ℕ → List ℕ
sacar_pcb_por_pid h [] pid = []
sacar_pcb_por_pid h (p ∷ ps) pid = if (h p).pid == pid then ps else p ∷ sacar_pcb_por_pid h ps pid

-- The loop of `quitar_de_desalojo`.
unfoldable pub quitar_todos : (ℕ → Pcb) → ℕ → List ℕ → List ℕ
quitar_todos h pid [] = []
quitar_todos h pid (p ∷ ps) =
    if (h p).pid == pid then quitar_todos h pid ps else p ∷ quitar_todos h pid ps

unfoldable pub quitar_de_desalojo : ℕ → Ks → Ks
unfolding quitar_todos
quitar_de_desalojo p st = record st { desalojo = quitar_todos st.pcbs (st.pcbs p).pid st.desalojo }

unfoldable pub agregar_a_desalojo : ℕ → Ks → Ks
unfolding existe_pcb_con_pid
agregar_a_desalojo p st =
    if existe_pcb_con_pid st.pcbs st.desalojo (st.pcbs p).pid
    then st
    else record st { desalojo = st.desalojo ++ (p ∷ []) }

-- The `list_add` to the same list that several syscalls make, with no look at what it holds.
abbrev pub anotar_desalojo : ℕ → Ks → Ks
anotar_desalojo p st = record st { desalojo = st.desalojo ++ (p ∷ []) }

-- The loop of `verificar_desalojo_por_prioridad`: the first running process of less priority than `p`.
unfoldable pub menos_prioritario : (ℕ → Pcb) → ℕ → List ℕ → Option ℕ
menos_prioritario h p [] = none
menos_prioritario h p (q ∷ qs) =
    if not (q == p) && slt32 (h p).prioridad (h q).prioridad
    then some q
    else menos_prioritario h p qs

unfoldable pub verificar_desalojo_por_prioridad : InfoConfig → ℕ → Ks → Ks
unfolding agregar_a_desalojo menos_prioritario
verificar_desalojo_por_prioridad cfg p st = elim cfg.politica [
  | cmn ↦ elim (menos_prioritario st.pcbs p st.listas.rnn) [
    | none ↦ st
    | some q ↦ agregar_a_desalojo q st
  ]
  | _ ↦ st
]

-- `control_hilo_quantum`, behind its sleep.
unfoldable pub control_hilo_quantum : ℕ → ℕ → Ks → Ks
unfolding agregar_a_desalojo
control_hilo_quantum p version st = elim (st.pcbs p).estado_pcb [
  | rnn ↦ if version == (st.pcbs p).quantum_version then agregar_a_desalojo p st else st
  | _ ↦ st
]
