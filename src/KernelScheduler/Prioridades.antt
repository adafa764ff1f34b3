-- ===== src/KernelScheduler/Prioridades.antt =====
-- kernel_scheduler/src/server/src/server.c: the priority of a process, and what it inherits from
-- those that wait for its mutexes.
use tp_so_limpio.Base.{
  ℕ, zero, suc, Bool, false, Option, none, some, List, [], ◌∷◌, ◌==◌, ◌&&◌, ltb, slt32, length,
  get_elem?, if◌then◌else◌,
}
use tp_so_limpio.KernelScheduler.Estado.{
  rdy, cmn, Pcb, Nivel, InfoConfig, MutexCpu, Ks, escribir_pcb,
}
use tp_so_limpio.KernelScheduler.Desalojo.{verificar_desalojo_por_prioridad}
use tp_so_limpio.KernelScheduler.Listas.{list_remove_element, agregar_a_nivel}
use tp_so_limpio.KernelScheduler.Busqueda.{buscar_pcb_por_pid}

-- `list_remove_element(niveles[n].cola, p)`.
unfoldable pub quitar_de_nivel : ℕ → ℕ → List Nivel → Bool × List Nivel
quitar_de_nivel n p [] = (false, [])
quitar_de_nivel zero p (v ∷ vs) =
    let r = list_remove_element p v.cola in (r.0, record v { cola = r.1 } ∷ vs)
quitar_de_nivel (suc n) p (v ∷ vs) = let r = quitar_de_nivel n p vs in (r.0, v ∷ r.1)

-- A ready process goes from the queue of its former priority to the end of that of its new one.
unfoldable pub cambiar_de_cola : ℕ → ℕ → ℕ → Ks → Ks
cambiar_de_cola p vieja nueva st =
    let r = quitar_de_nivel vieja p st.niveles in
    record st { niveles = if r.0 then agregar_a_nivel nueva p r.1 else r.1 }

unfoldable pub actualizar_prioridad_pcb : InfoConfig → ℕ → ℕ → Ks → Ks
actualizar_prioridad_pcb cfg p nueva st =
    let x = st.pcbs p in
    let st1 = escribir_pcb p (record x { prioridad = nueva }) st in
    let dentro = ltb x.prioridad (length st.niveles) && ltb nueva (length st.niveles) in
    elim cfg.politica [
      | cmn ↦ if x.prioridad == nueva then st else elim x.estado_pcb [
        | rdy ↦ if dentro then cambiar_de_cola p x.prioridad nueva st1 else st1
        | _ ↦ st1
      ]
      | _ ↦ st
    ]

-- A priority, or that of a process where it goes before.
abbrev pub mejor_de : (ℕ → Pcb) → ℕ → Option ℕ → ℕ
mejor_de h mejor none = mejor
mejor_de h mejor (some q) = if slt32 (h q).prioridad mejor then (h q).prioridad else mejor

-- The best of a priority and those of the processes that wait; a PID that nobody has is skipped.
unfoldable pub mejor_prioridad : InfoConfig → Ks → List ℕ → ℕ → ℕ
mejor_prioridad cfg st [] mejor = mejor
mejor_prioridad cfg st (pid ∷ pids) mejor =
    mejor_prioridad cfg st pids (mejor_de st.pcbs mejor (buscar_pcb_por_pid cfg pid st))

unfoldable pub actualizar_herencia : InfoConfig → MutexCpu → Ks → Ks
actualizar_herencia cfg m st = elim m.dueno_actual [
  | none ↦ st
  | some p ↦
      let anterior = (st.pcbs p).prioridad in
      let mejor = mejor_prioridad cfg st m.cola_mutex (st.pcbs p).prioridad_original in
      let st1 = actualizar_prioridad_pcb cfg p mejor st in
      if anterior == mejor then st1 else verificar_desalojo_por_prioridad cfg p st1
]

-- The loop of `recalcular_prioridad` over the mutexes that a process holds.
unfoldable pub mejor_de_tomados : InfoConfig → Ks → List ℕ → ℕ → ℕ
mejor_de_tomados cfg st [] mejor = mejor
mejor_de_tomados cfg st (i ∷ is) mejor = elim (get_elem? st.lista_mutex i) [
  | none ↦ mejor_de_tomados cfg st is mejor
  | some m ↦ mejor_de_tomados cfg st is (mejor_prioridad cfg st m.cola_mutex mejor)
]

unfoldable pub recalcular_prioridad : InfoConfig → ℕ → Ks → Ks
recalcular_prioridad cfg p st =
    actualizar_prioridad_pcb cfg p
      (mejor_de_tomados cfg st (st.pcbs p).mutex_tomados (st.pcbs p).prioridad_original) st
