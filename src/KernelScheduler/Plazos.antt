-- ===== src/KernelScheduler/Plazos.antt =====
-- kernel_scheduler/src/server/src/server.c: the medium-term planner and the return of suspended
-- processes. A thread sleeps and asks Kernel Memory between its steps, so each step is a definition.
use tp_so_limpio.Base.{
  ℕ, zero, suc, ◌+◌, Bool, true, false, Option, none, some, List, [], ◌∷◌, ◌++◌, ◌==◌, ◌&&◌, not,
  ◌>>=◌, length, if◌then◌else◌,
}
use tp_so_limpio.GlobalUtils.{op, entero, Mensaje, suspendido, nuevo_espacio as op_nuevo_espacio}
use tp_so_limpio.KernelScheduler.Estado.{rdy, bck, s_bck, s_rdy, cmn, Pcb, InfoConfig, Ks, en_lista}
use tp_so_limpio.KernelScheduler.Listas.{
  list_remove_element, cambiar_estado_pcb, agregar_proceso_lista, transicion,
}

-- What is sent to Kernel Memory.
abbrev pub enviar_a_km : List Mensaje → Ks → Ks
enviar_a_km ms st = record st { a_km = st.a_km ++ ms }

-- The start of `mediano_plazo_bck`: the version of the block that it watches over.
unfoldable pub mediano_plazo_bck_inicio : ℕ → Ks → Option ℕ
mediano_plazo_bck_inicio p st = elim (st.pcbs p).estado_pcb [
  | bck ↦ some (st.pcbs p).block_version
  | _ ↦ none
]

-- `mediano_plazo_bck` behind its sleep, up to the answer of Kernel Memory: whether it asks.
unfoldable pub mediano_plazo_bck_suspender : InfoConfig → ℕ → ℕ → Ks → Option (Bool × Ks)
mediano_plazo_bck_suspender cfg p mi_version st = elim (st.pcbs p).estado_pcb [
  | bck ↦
      if (st.pcbs p).block_version == mi_version
      then (transicion cfg p s_bck st >>= λ s.
          some (true, enviar_a_km (op suspendido ∷ entero (s.pcbs p).pid ∷ []) s))
      else some (false, st)
  | _ ↦ some (false, st)
]

-- What follows an answer other than OK.
unfoldable pub mediano_plazo_bck_volver : InfoConfig → ℕ → Ks → Option Ks
mediano_plazo_bck_volver cfg p st = elim (st.pcbs p).estado_pcb [
  | s_bck ↦ transicion cfg p bck st
  | s_rdy ↦ transicion cfg p rdy st
  | _ ↦ some st
]

unfoldable pub mediano_plazo_rdy : InfoConfig → ℕ → Ks → Option Ks
mediano_plazo_rdy cfg p st = elim (st.pcbs p).estado_pcb [
  | bck ↦ transicion cfg p rdy st
  | s_bck ↦ transicion cfg p s_rdy st
  | _ ↦ some st
]

unfoldable pub ya_fue_intentado : List ℕ → ℕ → Bool
ya_fue_intentado [] p = false
ya_fue_intentado (q ∷ qs) p = if q == p then true else ya_fue_intentado qs p

-- The first of a list that passes a test and was not tried.
unfoldable pub primero_sin_intentar : (ℕ → Bool) → List ℕ → List ℕ → Option ℕ
primero_sin_intentar sirve intentados [] = none
primero_sin_intentar sirve intentados (p ∷ ps) =
    if sirve p && not (ya_fue_intentado intentados p)
    then some p
    else primero_sin_intentar sirve intentados ps

-- The loop over the priorities, from `n` on, with `faltan` of them left.
unfoldable pub candidato_por_prioridad : (ℕ → Pcb) → ℕ → ℕ → List ℕ → List ℕ → Option ℕ
candidato_por_prioridad h zero n intentados ps = none
candidato_por_prioridad h (suc faltan) n intentados ps =
    elim (primero_sin_intentar (λ p. (h p).prioridad == n) intentados ps) [
      | some p ↦ some p
      | none ↦ candidato_por_prioridad h faltan (n + 1) intentados ps
    ]

unfoldable pub candidato : InfoConfig → List ℕ → Ks → Option ℕ
candidato cfg intentados st = elim cfg.politica [
  | cmn ↦ candidato_por_prioridad st.pcbs (length st.niveles) 0 intentados st.listas.s_rdy
  | _ ↦ primero_sin_intentar (λ p. true) intentados st.listas.s_rdy
]

-- One round for a candidate: it was answered that there is room, or it joins those tried.
-- `hay_lugar` is the answer of Kernel Memory, told from all that it was sent.
unfoldable pub probar : InfoConfig → (List Mensaje → Bool) → ℕ → List ℕ → Ks → List ℕ × Ks
probar cfg hay_lugar p intentados st =
    let st1 = enviar_a_km (op op_nuevo_espacio ∷ entero (st.pcbs p).pid ∷ []) st in
    let r = list_remove_element p st1.listas.s_rdy in
    let st2 = en_lista s_rdy r.1 st1 in
    if hay_lugar st1.a_km
    then (
      intentados,
      if r.0 then agregar_proceso_lista cfg p (cambiar_estado_pcb p rdy st2) else st2,
    )
    else (intentados ++ (p ∷ []), st1)

-- The rounds; `none` where the fuel runs out.
unfoldable pub nuevo_espacio_desde :
    InfoConfig → (List Mensaje → Bool) → ℕ → List ℕ → Ks → Option Ks
nuevo_espacio_desde cfg hay_lugar zero intentados st = none
nuevo_espacio_desde cfg hay_lugar (suc f) intentados st = elim (candidato cfg intentados st) [
  | none ↦ some st
  | some p ↦
      let r = probar cfg hay_lugar p intentados st in nuevo_espacio_desde cfg hay_lugar f r.0 r.1
]

unfoldable pub nuevo_espacio : InfoConfig → (List Mensaje → Bool) → Ks → Option Ks
unfolding nuevo_espacio_desde
nuevo_espacio cfg hay_lugar st =
    nuevo_espacio_desde cfg hay_lugar (suc (length st.listas.s_rdy)) [] st
