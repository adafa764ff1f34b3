-- ===== src/KernelScheduler/Transiciones.antt =====
-- kernel_scheduler/utilsKS/utilsKS.c: a change of state, by cambiar_estado_pcb and the two calls on
-- the lists, in both orders in which the planner makes them.
use tp_so_limpio.Base.{
  ℕ, ◌+◌, ◌<◌, ◌≡◌, ◌≢◌, refl, sym, ap, ◌∙◌, subst, some, List, ◌==◌, ◌&&◌, length, arith,
  Bool-cases, inl, inr,
}
use tp_so_limpio.KernelScheduler.Estado.{
  Estado, new, rdy, rnn, bck, s_bck, s_rdy, ext, no_estado, lista_de, Pcb, Listas, Nivel, Politica,
  InfoConfig, Ks,
}
use tp_so_limpio.KernelScheduler.Listas.{
  agregar_proceso_lista, cambiar_estado_pcb, transicion, transicion_adelantada,
}
use tp_so_limpio.KernelScheduler.Veces.{marca, veces}
use tp_so_limpio.KernelScheduler.Coherencia.{
  Lugar, lista, mismo_lugar, ocupantes, lugar_segun, lugar_de, esperadas, sin_lugar, HayLugar,
  Semaforos, Coherente, codigo, hay_lugar, Ubicados,
}
use tp_so_limpio.KernelScheduler.Agregado.{agregar-Puesto}
use tp_so_limpio.KernelScheduler.Eliminado.{
  Sacado, SinAviso, eliminar-Sacado, eliminar-Sacado_presente,
}

-- The state after process `p` went to state `e`: its PCB says so, and everything is coherent.
pub record Movido (cfg : InfoConfig) (p : ℕ) (e : Estado) (st st' : Ks) : Type 0 where
  pub coherente : Coherente cfg st'
  pub pcbs : st'.pcbs ≡ (cambiar_estado_pcb p e st).pcbs
  pub proximo : st'.proximo ≡ st.proximo
  pub cantidad : length st'.niveles ≡ length st.niveles
  pub lista_mutex : st'.lista_mutex ≡ st.lista_mutex
  pub cpus : st'.cpus ≡ st.cpus
  pub a_km : st'.a_km ≡ st.a_km

-- A process in its place has a state.
pub tiene_estado :
    (cfg : InfoConfig) (p : ℕ) (st : Ks)
    → Coherente cfg st
    → p < st.proximo
    → codigo (st.pcbs p).estado_pcb < 7
tiene_estado cfg p st v d =
    let u = v.ubicados p (lista no_estado) in
    sin_lugar cfg.politica (st.pcbs p).estado_pcb (st.pcbs p).prioridad (ground arith)

-- The place that one process leaves and the place that it takes account for all that changes.
pub recolocar :
    (pol : Politica) (h h' : ℕ → Pcb) (prox p : ℕ) (ls ls' : Listas) (vs vs' : List Nivel)
    → p < prox
    → Ubicados pol h prox ls vs
    → ((q : ℕ) → p ≢ q → h' q ≡ h q)
    → ((q : ℕ) (m : Lugar)
        → veces q (ocupantes m ls vs) + marca (mismo_lugar m (lugar_de pol (h' p)) && p == q)
          ≡ veces q (ocupantes m ls' vs') + marca (mismo_lugar m (lugar_de pol (h p)) && p == q))
    → Ubicados pol h' prox ls' vs'
recolocar pol h h' prox p ls ls' vs vs' d u otros c q m = elim (Bool-cases (p == q)) [
  | inl si ↦
      let e : p ≡ q = ground arith in
      subst (λ (k : ℕ). veces k (ocupantes m ls' vs') ≡ esperadas pol h' prox k m) e
        (let a = c p m in let b = u p m in ground arith)
  | inr sin ↦ let a = c q m in let b = u q m in let o = otros q (ground arith) in ground arith
]

lugar-SinAviso : (pol : Politica) (e : Estado) (n : ℕ) → SinAviso e → lugar_segun pol e n ≡ lista e
lugar-SinAviso pol new n h = refl
lugar-SinAviso pol rnn n h = refl
lugar-SinAviso pol bck n h = refl
lugar-SinAviso pol s_bck n h = refl
lugar-SinAviso pol ext n h = refl
lugar-SinAviso pol rdy n h = absurd h
lugar-SinAviso pol s_rdy n h = absurd h
lugar-SinAviso pol no_estado n h = absurd h

presente_en_lista :
    (e : Estado) (p : ℕ) (ls : Listas) (vs : List Nivel)
    → veces p (ocupantes (lista e) ls vs) ≡ marca (mismo_lugar (lista e) (lista e))
    → 0 < veces p (lista_de e ls)
presente_en_lista e p ls vs h = ground arith

-- What changed in the lists is accounted for, and the rest is as it was.
pub coherente_de :
    (cfg : InfoConfig) (st st' : Ks) (h' : ℕ → Pcb)
    → Coherente cfg st
    → st'.pcbs ≡ h'
    → st'.proximo ≡ st.proximo
    → st'.contador_pid ≡ st.contador_pid
    → length st'.niveles ≡ length st.niveles
    → ((q : ℕ) → (h' q).pid ≡ (st.pcbs q).pid)
    → ((q : ℕ) → (h' q).prioridad ≡ (st.pcbs q).prioridad)
    → Ubicados cfg.politica h' st.proximo st'.listas st'.niveles
    → Semaforos st'.listas st'.niveles st'.sem_hay_ready st'.sem_hay_s_ready
    → Coherente cfg st'
coherente_de cfg st st' h' v a b c n i j u s = record {
  ubicados = rw (a, b) u;
  pids = rw (a, b) (λ q d. i q ∙ v.pids q d);
  contados = rw (b, c) v.contados;
  validas = rw (a, b, n) (λ q d. rw (j q) (v.validas q d));
  semaforos = s;
}

module _ (cfg : InfoConfig) (p : ℕ) (e : Estado) (st : Ks) (v : Coherente cfg st)
    (d : p < st.proximo) (c : codigo e < 7) where
  h : HayLugar cfg.politica e (st.pcbs p).prioridad (length st.niveles)
  h = hay_lugar cfg.politica e (st.pcbs p).prioridad (length st.niveles) c (v.validas p d)

  en_su_lugar :
      (m : Lugar)
      → veces p (ocupantes m st.listas st.niveles)
        ≡ marca (mismo_lugar m (lugar_de cfg.politica (st.pcbs p)))
  en_su_lugar m = let u = v.ubicados p m in ground arith

  pub transicion-Movido : (st' : Ks) × (transicion cfg p e st ≡ some st') × Movido cfg p e st st'
  unfolding transicion cambiar_estado_pcb
  transicion-Movido =
      let st1 = cambiar_estado_pcb p e st in
      let anterior : (st1.pcbs p).estado_anterior ≡ (st.pcbs p).estado_pcb = ground arith in
      let actual : (st1.pcbs p).estado_pcb ≡ e = ground arith in
      let prioridad : (st1.pcbs p).prioridad ≡ (st.pcbs p).prioridad = ground arith in
      let (st2, e1, s) =
        eliminar-Sacado cfg p st1 (rw anterior (tiene_estado cfg p st v d)) v.semaforos
          (rw (anterior, prioridad) en_su_lugar) in
      let en2 : (st2.pcbs p) ≡ (st1.pcbs p) = ap (λ (f : ℕ → Pcb). f p) s.pcbs in
      let pu = agregar-Puesto cfg p st2 (rw (en2, actual, prioridad, s.cantidad) h) in
      let st3 = agregar_proceso_lista cfg p st2 in
      let igual : st3.pcbs ≡ st1.pcbs = pu.pcbs ∙ s.pcbs in
      let en3 : lugar_de cfg.politica (st2.pcbs p) ≡ lugar_de cfg.politica (st1.pcbs p) =
        ap (lugar_de cfg.politica) en2 in
      let en1 : lugar_segun cfg.politica (st1.pcbs p).estado_anterior (st1.pcbs p).prioridad
          ≡ lugar_de cfg.politica (st.pcbs p) =
        rw (anterior, prioridad) refl in
      (
        st3,
        rw e1 refl,
        record {
          coherente =
              coherente_de cfg st st3 st1.pcbs v igual (pu.proximo ∙ s.proximo)
                (pu.contador_pid ∙ s.contador_pid) (pu.cantidad ∙ s.cantidad) (λ q. ground arith)
                (λ q. ground arith)
                (recolocar cfg.politica st.pcbs st1.pcbs st.proximo p st.listas st3.listas
                  st.niveles st3.niveles d v.ubicados (λ q o. ground arith)
                  (λ q m.
                    let a = pu.cuentas q m in
                    let b = s.cuentas q m in
                    let a' = rw en3 at a in let b' = rw en1 at b in omega arith))
                (pu.semaforos s.semaforos);
          pcbs = igual;
          proximo = pu.proximo ∙ s.proximo;
          cantidad = pu.cantidad ∙ s.cantidad;
          lista_mutex = pu.lista_mutex ∙ s.lista_mutex;
          cpus = pu.cpus ∙ s.cpus;
          a_km = pu.a_km ∙ s.a_km;
        },
      )

  -- The same where the process is added to the new place before it leaves the old one.
  pub transicion_adelantada-Movido :
      SinAviso (st.pcbs p).estado_pcb
      → (st' : Ks) × (transicion_adelantada cfg p e st ≡ some st') × Movido cfg p e st st'
  unfolding transicion_adelantada cambiar_estado_pcb
  transicion_adelantada-Movido simple =
      let st1 = cambiar_estado_pcb p e st in
      let anterior : (st1.pcbs p).estado_anterior ≡ (st.pcbs p).estado_pcb = ground arith in
      let actual : (st1.pcbs p).estado_pcb ≡ e = ground arith in
      let prioridad : (st1.pcbs p).prioridad ≡ (st.pcbs p).prioridad = ground arith in
      let pu = agregar-Puesto cfg p st1 (rw (actual, prioridad) h) in
      let st2 = agregar_proceso_lista cfg p st1 in
      let ant2 : (st2.pcbs p).estado_anterior ≡ (st.pcbs p).estado_pcb =
        ap (λ (f : ℕ → Pcb). (f p).estado_anterior) pu.pcbs ∙ anterior in
      let l0 = (st.pcbs p).estado_pcb in
      let antes : 0 < veces p (lista_de l0 st.listas) =
        presente_en_lista l0 p st.listas st.niveles (
          en_su_lugar (lista l0)
          ∙ ap (λ (l : Lugar). marca (mismo_lugar (lista l0) l))
              (lugar-SinAviso cfg.politica l0 (st.pcbs p).prioridad simple)) in
      let mas = pu.cuentas p (lista l0) in
      let (st3, e3, s) =
        eliminar-Sacado_presente cfg p st2 (rw ant2 simple) (pu.semaforos v.semaforos)
          (rw ant2 (omega arith)) in
      let igual : st3.pcbs ≡ st1.pcbs = s.pcbs ∙ pu.pcbs in
      let en1 : lista (st2.pcbs p).estado_anterior ≡ lugar_de cfg.politica (st.pcbs p) =
        ap lista ant2 ∙ sym (lugar-SinAviso cfg.politica l0 (st.pcbs p).prioridad simple) in
      (
        st3,
        rw e3 refl,
        record {
          coherente =
              coherente_de cfg st st3 st1.pcbs v igual (s.proximo ∙ pu.proximo)
                (s.contador_pid ∙ pu.contador_pid) (s.cantidad ∙ pu.cantidad) (λ q. ground arith)
                (λ q. ground arith)
                (recolocar cfg.politica st.pcbs st1.pcbs st.proximo p st.listas st3.listas
                  st.niveles st3.niveles d v.ubicados (λ q o. ground arith)
                  (λ q m.
                    let a = pu.cuentas q m in
                    let b = s.cuentas q m in let b' = rw en1 at b in omega arith))
                s.semaforos;
          pcbs = igual;
          proximo = s.proximo ∙ pu.proximo;
          cantidad = s.cantidad ∙ pu.cantidad;
          lista_mutex = s.lista_mutex ∙ pu.lista_mutex;
          cpus = s.cpus ∙ pu.cpus;
          a_km = s.a_km ∙ pu.a_km;
        },
      )

en_todos :
    (f : Pcb → ℕ) (p : ℕ) (h h' : ℕ → Pcb)
    → ((q : ℕ) → p ≢ q → h' q ≡ h q)
    → f (h' p) ≡ f (h p)
    → (q : ℕ) → f (h' q) ≡ f (h q)
en_todos f p h h' otros en_p q = elim (Bool-cases (p == q)) [
  | inl si ↦ let e : p ≡ q = ground arith in subst (λ (k : ℕ). f (h' k) ≡ f (h k)) e en_p
  | inr sin ↦ ap f (otros q (ground arith))
]

-- A process that was taken from its place and is added to the place of what its PCB says now.
pub reubicar :
    (cfg : InfoConfig) (p : ℕ) (st st1 : Ks) (h' : ℕ → Pcb)
    → Coherente cfg st
    → p < st.proximo
    → Sacado p (lugar_de cfg.politica (st.pcbs p)) st st1
    → codigo (h' p).estado_pcb < 7
    → ((q : ℕ) → p ≢ q → h' q ≡ st.pcbs q)
    → (h' p).pid ≡ (st.pcbs p).pid
    → (h' p).prioridad ≡ (st.pcbs p).prioridad
    → Coherente cfg (agregar_proceso_lista cfg p (record st1 { pcbs = h' }))
reubicar cfg p st st1 h' v d s c otros mismo_pid misma =
    let st2 = record st1 { pcbs = h' } in
    let valida =
      hay_lugar cfg.politica (h' p).estado_pcb (h' p).prioridad (length st.niveles) c
        (rw misma (v.validas p d)) in
    let pu = agregar-Puesto cfg p st2 (rw s.cantidad valida) in
    let st3 = agregar_proceso_lista cfg p st2 in
    coherente_de cfg st st3 h' v pu.pcbs (pu.proximo ∙ s.proximo) (pu.contador_pid ∙ s.contador_pid)
      (pu.cantidad ∙ s.cantidad) (en_todos (λ x. x.pid) p st.pcbs h' otros mismo_pid)
      (en_todos (λ x. x.prioridad) p st.pcbs h' otros misma)
      (recolocar cfg.politica st.pcbs h' st.proximo p st.listas st3.listas st.niveles st3.niveles d
        v.ubicados otros (λ q m. let a = pu.cuentas q m in let b = s.cuentas q m in omega arith))
      (pu.semaforos s.semaforos)
