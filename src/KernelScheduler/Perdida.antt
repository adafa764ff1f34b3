-- ===== src/KernelScheduler/Perdida.antt =====
-- kernel_scheduler/src/server/src/server.c: the end of desalojo during a compaction, with CMN.
use tp_so_limpio.Base.{
  ℕ, zero, suc, ◌+◌, ◌<◌, ◌≡◌, ◌≢◌, refl, sym, ap, ◌∙◌, subst, Bool, true, false, Option, none,
  some, List, [], ◌∷◌, ◌>>=◌, if◌then◌else◌, arith,
}
use tp_so_limpio.KernelScheduler.Estado.{
  Estado, rdy, rnn, Pcb, Nivel, Politica, cmn, InfoConfig, Ks, escribir_pcb, en_lista,
}
use tp_so_limpio.KernelScheduler.Listas.{
  list_remove_element, cambiar_estado_pcb, eliminar_segun, eliminar_proceso_lista,
  transicion_adelantada,
}
use tp_so_limpio.KernelScheduler.Prioridades.{
  quitar_de_nivel, cambiar_de_cola, actualizar_prioridad_pcb,
}
use tp_so_limpio.KernelScheduler.Servicios.{volver_a_ready}
use tp_so_limpio.KernelScheduler.Cpus.{
  de_niveles, primero_segun, con_afinidad, elegir_para, primero_de_niveles, primero_listo,
  obtener_siguiente_proceso_para_cpu,
}
use tp_so_limpio.KernelScheduler.Veces.{veces, sin, sin-ausente, quitado_no, cola_de}
use tp_so_limpio.KernelScheduler.Coherencia.{nivel, Coherente}
use tp_so_limpio.KernelScheduler.Niveles.{primero_de_niveles-Primero}

-- Nothing is removed from the queue of a level where the process does not stand.
quitar_de_nivel-ausente :
    (n p : ℕ) (vs : List Nivel)
    → ((k : ℕ) → veces p (cola_de k vs) ≡ 0)
    → ((quitar_de_nivel n p vs).0 ≡ false) × ((quitar_de_nivel n p vs).1 ≡ vs)
unfolding quitar_de_nivel
quitar_de_nivel-ausente n p [] a = (refl, refl)
quitar_de_nivel-ausente zero p (v ∷ vs) a = (
  quitado_no p v.cola (a 0),
  ap (λ (c : List ℕ). record v { cola = c } ∷ vs) (sin-ausente p v.cola (a 0)),
)
quitar_de_nivel-ausente (suc n) p (v ∷ vs) a =
    let (x, y) = quitar_de_nivel-ausente n p vs (λ k. a (suc k)) in (x, ap (λ l. v ∷ l) y)

module _ (cfg : InfoConfig) (p : ℕ) (st : Ks)
    (ausente : (k : ℕ) → veces p (cola_de k st.niveles) ≡ 0) where
  cambiar_de_cola-ausente : (vieja nueva : ℕ) → cambiar_de_cola p vieja nueva st ≡ st
  unfolding cambiar_de_cola
  cambiar_de_cola-ausente vieja nueva =
      let (x, y) = quitar_de_nivel-ausente vieja p st.niveles ausente in
      ap (λ (vs : List Nivel). record st { niveles = vs }) (rw x y)

-- A change of priority touches the lists only where the process stands in a level.
actualizar-marco :
    (cfg : InfoConfig) (p nueva : ℕ) (st : Ks)
    → ((k : ℕ) → veces p (cola_de k st.niveles) ≡ 0)
    → (h : ℕ → Pcb) × (actualizar_prioridad_pcb cfg p nueva st ≡ record st { pcbs = h })
      × ((h p).estado_pcb ≡ (st.pcbs p).estado_pcb)
      × ((h p).estado_anterior ≡ (st.pcbs p).estado_anterior)
unfolding actualizar_prioridad_pcb
actualizar-marco cfg p nueva st a =
    let x = st.pcbs p in
    let st1 = escribir_pcb p (record x { prioridad = nueva }) st in
    let z = cambiar_de_cola-ausente cfg p st1 a x.prioridad nueva in
    ((actualizar_prioridad_pcb cfg p nueva st).pcbs, ground arith, ground arith, ground arith)

module _ (cfg : InfoConfig) (es_cmn : cfg.politica ≡ cmn) where
  -- With CMN a CPU is only given what stands in a level.
  obtenido-en_nivel :
      (fd p : ℕ) (st s : Ks)
      → obtener_siguiente_proceso_para_cpu cfg fd st ≡ some (p, s)
      → (k : ℕ) × (0 < veces p (cola_de k st.niveles))
  unfolding obtener_siguiente_proceso_para_cpu primero_listo
  obtenido-en_nivel fd p st s e =
      por_cola (primero_de_niveles st.niveles) refl
        (ap (λ (pol : Politica). elegir_para fd st (primero_segun pol st)) (sym es_cmn) ∙ e)
    where
      elegido :
          (q : ℕ) (u : Ks) (f : Option ℕ)
          → con_afinidad fd q (st.pcbs q).pid u f ≡ some (p, s)
          → q ≡ p
      elegido q u none h = cc
      elegido q u (some f) h = ground arith

      por_cola :
          (o : Option (ℕ × List Nivel))
          → primero_de_niveles st.niveles ≡ o
          → elegir_para fd st (de_niveles st o) ≡ some (p, s)
          → (k : ℕ) × (0 < veces p (cola_de k st.niveles))
      por_cola none i h = absurd (cc)
      por_cola (some (q, vs)) i h =
          let r = primero_de_niveles-Primero st.niveles vs i in
          let z = r.cuentas q r.k in
          let ig = elegido q (record st { niveles = vs }) _ h in
          (r.k, subst (λ (k : ℕ). 0 < veces k (cola_de r.k st.niveles)) ig (ground arith))

  module _ (p : ℕ) (st : Ks) (v : Coherente cfg st) (corriendo : (st.pcbs p).estado_pcb ≡ rnn)
      (compactando : st.compactacion_value ≡ true) where
    ausente : (k : ℕ) → veces p (cola_de k st.niveles) ≡ 0
    ausente k = v.ubicados p (nivel k) ∙ rw corriendo (ground arith)

    -- With CMN, while every process stands in the one place of its state, a running process that a CPU
    -- gives up during a compaction becomes READY in `listasProcesos->rdy`, and is not what any CPU gets
    -- next.
    pub volver_a_ready-pierde :
        (st' : Ks) × (volver_a_ready cfg p st ≡ some st')
        × ((st'.pcbs p).estado_pcb ≡ rdy)
        × (0 < veces p st'.listas.rdy)
        × ((fd q : ℕ) (s : Ks)
            → obtener_siguiente_proceso_para_cpu cfg fd st' ≡ some (q, s)
            → q ≢ p)
    unfolding volver_a_ready cambiar_estado_pcb eliminar_proceso_lista
    volver_a_ready-pierde =
        let st1 = cambiar_estado_pcb p rdy st in
        let (h, e, es_rdy, anterior) = actualizar-marco cfg p 0 st1 ausente in
        let st2 = record st1 { pcbs = h } in
        let st3 = record (en_lista rdy (p ∷ st2.listas.rdy) st2) {
          sem_hay_ready = st2.sem_hay_ready + 1;
        } in
        let st4 = en_lista rnn (sin p st3.listas.rnn) st3 in
        let era_rnn : (h p).estado_anterior ≡ rnn = ground arith in
        let eliminado : eliminar_proceso_lista cfg p st3
            ≡ some ((list_remove_element p st3.listas.rnn).0, st4) =
          ap (λ (a : Estado). eliminar_segun cfg a p st3) era_rnn in
        let encolar = λ (s : Ks).
          eliminar_proceso_lista cfg p
            (record (en_lista rdy (p ∷ s.listas.rdy) s) { sem_hay_ready = s.sem_hay_ready + 1 })
          >>= λ r. some r.1 in
        let normal = transicion_adelantada cfg p rdy st in
        (
          st4,
          ap (λ (b : Bool). if b then encolar (actualizar_prioridad_pcb cfg p 0 st1) else normal)
                compactando
              ∙ ap encolar e
              ∙ ap (λ (o : Option (Bool × Ks)). o >>= λ r. some r.1) eliminado,
          ground arith,
          ground arith,
          λ fd q s o.
              let (k, dentro) = obtenido-en_nivel fd q st4 s o in
              λ ig.
                let z : 0 < veces p (cola_de k st.niveles) =
                  subst (λ (j : ℕ). 0 < veces j (cola_de k st.niveles)) ig dentro in
                let a = ausente k in omega arith,
        )
