-- ===== src/KernelScheduler/Vigencia.antt =====
-- kernel_scheduler/src/server/src/server.c: the handlers answer, and each leaves every process in the
-- one place of its state.
use tp_so_limpio.Base.{
  ℕ, ◌<◌, ◌≡◌, refl, sym, ◌∙◌, subst, Bool, true, false, Option, none, some, List, [], ◌∷◌, ◌==◌,
  ◌>>=◌, ltb, if◌then◌else◌, arith, Bool-cases, Option-cases, inl, inr,
}
use tp_so_limpio.GlobalUtils.{Mensaje, op, entero, ok, gl_exit, suspendido}
use tp_so_limpio.KernelScheduler.Estado.{
  Estado, rdy, bck, s_bck, s_rdy, ext, Pcb, InfoConfig, Ks, escribir_pcb,
}
use tp_so_limpio.KernelScheduler.Listas.{transicion}
use tp_so_limpio.KernelScheduler.Afinidad.{quitar_retorno_cpu}
use tp_so_limpio.KernelScheduler.Busqueda.{buscar_pcb_por_pid, buscar_cpu, con_cpu, liberada}
use tp_so_limpio.KernelScheduler.Plazos.{
  enviar_a_km, mediano_plazo_rdy, mediano_plazo_bck_suspender, mediano_plazo_bck_volver,
}
use tp_so_limpio.KernelScheduler.Servicios.{liberar_cpu_y_espacio, exit_proceso, segmentation_fault}
use tp_so_limpio.KernelScheduler.Coherencia.{Coherente, codigo, lugar_de}
use tp_so_limpio.KernelScheduler.Transiciones.{transicion-Movido, recolocar, coherente_de}
use tp_so_limpio.KernelScheduler.Espacio.{nuevo_espacio-Coherente}
use tp_so_limpio.KernelScheduler.Hallazgo.{buscar_pcb_por_pid_lem}

-- A result that is there, with everything coherent.
abbrev pub Sigue : InfoConfig → Option Ks → Type 0
Sigue cfg o = (st' : Ks) × (o ≡ some st') × Coherente cfg st'

-- Who is found was created, under its PID.
pub hallado-existe :
    (cfg : InfoConfig) (st : Ks) (pid : ℕ) {p : ℕ}
    → Coherente cfg st
    → buscar_pcb_por_pid cfg pid st ≡ some p
    → (p < st.proximo) × (p ≡ pid)
hallado-existe cfg st pid {p} v e =
    let z = sym (buscar_pcb_por_pid_lem cfg st v pid) ∙ e in
    elim (Bool-cases (ltb pid st.proximo)) [
      | inl d ↦
          let z' : some pid ≡ some p = rw d at z in
          let i : pid ≡ p = cc in (subst (λ (k : ℕ). k < st.proximo) i (ground arith), sym i)
      | inr d ↦ let z' : none ≡ some p = rw d at z in absurd (cc)
    ]

-- What a PCB says apart from its state, priority and PID does not matter to where it stands.
pub escribir-Coherente :
    (cfg : InfoConfig) (p : ℕ) (x : Pcb) (st : Ks)
    → Coherente cfg st
    → p < st.proximo
    → x.estado_pcb ≡ (st.pcbs p).estado_pcb
    → x.prioridad ≡ (st.pcbs p).prioridad
    → x.pid ≡ (st.pcbs p).pid
    → Coherente cfg (escribir_pcb p x st)
escribir-Coherente cfg p x st v d a b c =
    let st' = escribir_pcb p x st in
    let e : st'.pcbs p ≡ x = ground arith in
    let l : lugar_de cfg.politica (st'.pcbs p) ≡ lugar_de cfg.politica (st.pcbs p) =
      rw (e, a, b) refl in
    coherente_de cfg st st' st'.pcbs v refl refl refl refl (λ q. ground arith) (λ q. ground arith)
      (recolocar cfg.politica st.pcbs st'.pcbs st.proximo p st.listas st.listas st.niveles
        st.niveles d v.ubicados (λ q o. ground arith) (λ q m. rw l refl))
      v.semaforos

module _ (cfg : InfoConfig) (p : ℕ) (st : Ks) (v : Coherente cfg st) (d : p < st.proximo) where
  pub transicion-Sigue : (e : Estado) → codigo e < 7 → Sigue cfg (transicion cfg p e st)
  transicion-Sigue e c =
      let (st', i, m) = transicion-Movido cfg p e st v d c in (st', i, m.coherente)

  -- A process that ends its wait is ready or suspended ready, and else nothing happens.
  pub mediano_plazo_rdy-Coherente : Sigue cfg (mediano_plazo_rdy cfg p st)
  unfolding mediano_plazo_rdy
  mediano_plazo_rdy-Coherente = segun (st.pcbs p).estado_pcb
    where
      segun :
          (e : Estado)
          → Sigue cfg (elim e [
            | bck ↦ transicion cfg p rdy st
            | s_bck ↦ transicion cfg p s_rdy st
            | _ ↦ some st
          ])
      segun bck = transicion-Sigue rdy (omega arith)
      segun s_bck = transicion-Sigue s_rdy (omega arith)
      segun rdy = (st, refl, v)
      segun _ = (st, refl, v)

  -- The thread suspends the process only if it is still blocked by the same call.
  pub mediano_plazo_bck_suspender-Coherente :
      (version : ℕ)
      → (r : Bool × Ks) × (mediano_plazo_bck_suspender cfg p version st ≡ some r)
        × Coherente cfg r.1
  unfolding mediano_plazo_bck_suspender
  mediano_plazo_bck_suspender-Coherente version = segun (st.pcbs p).estado_pcb
    where
      segun :
          (e : Estado)
          → (r : Bool × Ks) × ((elim e [
            | bck ↦
                if (st.pcbs p).block_version == version
                then (transicion cfg p s_bck st >>= λ s.
                    some (true, enviar_a_km (op suspendido ∷ entero (s.pcbs p).pid ∷ []) s))
                else some (false, st)
            | _ ↦ some (false, st)
          ])
              ≡ some r)
            × Coherente cfg r.1
      segun bck = elim (Bool-cases ((st.pcbs p).block_version == version)) [
        | inr otro ↦ ((false, st), rw otro refl, v)
        | inl mismo ↦
            let (s, e, w) = transicion-Sigue s_bck (omega arith) in
            (
              (true, enviar_a_km (op suspendido ∷ entero (s.pcbs p).pid ∷ []) s),
              rw (mismo, e) refl,
              w,
            )
      ]
      segun rdy = ((false, st), refl, v)
      segun _ = ((false, st), refl, v)

  -- What Kernel Memory could not suspend goes back to where it was.
  pub mediano_plazo_bck_volver-Coherente : Sigue cfg (mediano_plazo_bck_volver cfg p st)
  unfolding mediano_plazo_bck_volver
  mediano_plazo_bck_volver-Coherente = segun (st.pcbs p).estado_pcb
    where
      segun :
          (e : Estado)
          → Sigue cfg (elim e [
            | s_bck ↦ transicion cfg p bck st
            | s_rdy ↦ transicion cfg p rdy st
            | _ ↦ some st
          ])
      segun s_bck = transicion-Sigue bck (omega arith)
      segun s_rdy = transicion-Sigue rdy (omega arith)
      segun rdy = (st, refl, v)
      segun _ = (st, refl, v)

-- What follows a result.
pub seguir :
    (cfg : InfoConfig) (o : Option Ks) (f : Ks → Option Ks)
    → Sigue cfg o
    → ((s : Ks) → Coherente cfg s → Sigue cfg (f s))
    → Sigue cfg (o >>= f)
seguir cfg o f (s, e, v) g = let (s', e', v') = g s v in (s', rw e e', v')

module _ (cfg : InfoConfig) (hay : List Mensaje → Bool) (fd : ℕ) where
  liberar-Coherente : (st : Ks) → Coherente cfg st → Sigue cfg (liberar_cpu_y_espacio cfg hay fd st)
  unfolding liberar_cpu_y_espacio
  liberar-Coherente st v = elim (Option-cases (buscar_cpu fd st.cpus)) [
    | inl nada ↦ (st, rw (nada, liberar_cpu_y_espacio) refl, v)
    | inr (c, algo) ↦
        let (st', e, w) =
          nuevo_espacio-Coherente cfg hay (record st { cpus = con_cpu liberada fd st.cpus }) v in
        (st', rw (algo, liberar_cpu_y_espacio) e, w)
  ]

  -- The end of a process, known or not, is always served.
  pub exit_proceso-Coherente :
      (pid : ℕ) (st : Ks)
      → Coherente cfg st
      → (r : Ks × List Mensaje) × (exit_proceso cfg hay fd pid st ≡ some r) × Coherente cfg r.0
  unfolding exit_proceso
  exit_proceso-Coherente pid st v =
      let st1 = record st { retorno_cpu = quitar_retorno_cpu pid st.retorno_cpu } in
      let st2 = enviar_a_km (op gl_exit ∷ entero pid ∷ []) st1 in
      elim (Option-cases (buscar_pcb_por_pid cfg pid st)) [
        | inl nada ↦ ((st1, []), rw (nada, exit_proceso) refl, v)
        | inr (p, algo) ↦
            let (d, _) = hallado-existe cfg st pid v algo in
            let (st', e, w) =
              seguir cfg (transicion cfg p ext st2) (liberar_cpu_y_espacio cfg hay fd)
                (transicion-Sigue cfg p st2 v d ext (omega arith)) liberar-Coherente in
            ((st', op ok ∷ []), rw (algo, exit_proceso, e) refl, w)
      ]

  pub segmentation_fault-Coherente :
      (pid : ℕ) (st : Ks) → Coherente cfg st → Sigue cfg (segmentation_fault cfg hay fd pid st)
  unfolding segmentation_fault
  segmentation_fault-Coherente pid st v =
      let st1 = record st { retorno_cpu = quitar_retorno_cpu pid st.retorno_cpu } in
      elim (Option-cases (buscar_pcb_por_pid cfg pid st)) [
        | inl nada ↦ (st1, rw (nada, segmentation_fault) refl, v)
        | inr (p, algo) ↦
            let (d, _) = hallado-existe cfg st pid v algo in
            let avisar = λ (s : Ks). enviar_a_km (op gl_exit ∷ entero (s.pcbs p).pid ∷ []) s in
            let (st', e, w) =
              seguir cfg (transicion cfg p ext st1)
                (λ s. liberar_cpu_y_espacio cfg hay fd (avisar s))
                (transicion-Sigue cfg p st1 v d ext (omega arith))
                (λ s u. liberar-Coherente (avisar s) u) in
            (st', rw (algo, segmentation_fault) e, w)
      ]
