-- ===== src/KernelScheduler/Despacho.antt =====
-- kernel_scheduler/src/server/src/server.c: a CPU that is free takes the process that is next.
use tp_so_limpio.Base.{
  ℕ, suc, ◌+◌, ◌<◌, ◌≡◌, ◌⊎◌, refl, ap, ◌∙◌, subst, Option, none, some, List, [], ◌∷◌, ◌==◌, ◌&&◌,
  length, arith, Bool-cases, inl, inr,
}
use tp_so_limpio.KernelScheduler.Estado.{
  rdy, Nivel, Politica, cmn, fifo, rr, otra, InfoConfig, Ks, en_lista,
}
use tp_so_limpio.KernelScheduler.Afinidad.{fd_afinidad_de, quitar_retorno_cpu}
use tp_so_limpio.KernelScheduler.Cpus.{
  de_niveles, de_rdy, primero_segun, con_afinidad, elegir_para, primero_de_niveles, primero_listo,
  obtener_siguiente_proceso_para_cpu,
}
use tp_so_limpio.KernelScheduler.Veces.{marca, veces}
use tp_so_limpio.KernelScheduler.Coherencia.{
  Lugar, lista, nivel, mismo_lugar, ocupantes, lugar_de, CoherenteEn, Coherente, presente-lugar,
  veces-sin_lista,
}
use tp_so_limpio.KernelScheduler.Eliminado.{Sacado}
use tp_so_limpio.KernelScheduler.Niveles.{Primero, primero_de_niveles-Primero}

module _ (cfg : InfoConfig) (st : Ks) (n : ℕ) (v : Coherente cfg st)
    (suyo : st.sem_hay_ready ≡ suc n) where
  cuentas_de_cola :
      {p : ℕ} (vs' : List Nivel) (r : Primero p st.niveles vs') (q : ℕ) (m : Lugar)
      → veces q (ocupantes m st.listas st.niveles)
        ≡ veces q (ocupantes m st.listas vs') + marca (mismo_lugar m (nivel r.k) && p == q)
  cuentas_de_cola vs' r q (lista e) = omega arith
  cuentas_de_cola vs' r q (nivel k) = r.cuentas q k

  de_la_cola :
      {p : ℕ} (vs' : List Nivel)
      → cfg.politica ≡ cmn
      → primero_de_niveles st.niveles ≡ some (p, vs')
      → (p < st.proximo)
        × Sacado p
            (lugar_de cfg.politica (st.pcbs p))
            st
            (record st { sem_hay_ready = n; niveles = vs' })
  de_la_cola {p} vs' c e =
      let r = primero_de_niveles-Primero st.niveles vs' e in
      let z = r.cuentas p r.k in
      let (d, l) = presente-lugar cfg st p (nivel r.k) v (ground arith) in
      (
        d,
        subst (λ (k : Lugar). Sacado p k st (record st { sem_hay_ready = n; niveles = vs' })) l
            (record {
              cuentas = cuentas_de_cola vs' r;
              semaforos = record {
                hay_ready = let a = r.menos in let b = v.semaforos.hay_ready in omega arith;
                hay_s_ready = v.semaforos.hay_s_ready;
              };
              pcbs = refl;
              proximo = refl;
              contador_pid = refl;
              cantidad = r.cantidad;
              lista_mutex = refl;
              cpus = refl;
              a_km = refl;
            }),
      )

  de_la_lista :
      (p : ℕ) (ps : List ℕ)
      → st.listas.rdy ≡ p ∷ ps
      → (p < st.proximo)
        × Sacado p
            (lugar_de cfg.politica (st.pcbs p))
            st
            (record (en_lista rdy ps st) { sem_hay_ready = n })
  de_la_lista p ps e =
      let (d, l) = presente-lugar cfg st p (lista rdy) v (rw e (ground arith)) in
      (
        d,
        subst (λ (k : Lugar). Sacado p k st (record (en_lista rdy ps st) { sem_hay_ready = n })) l
            (record {
              cuentas = λ q m.
                  let b : veces q st.listas.rdy ≡ veces q ps + marca (p == q) =
                    rw e (omega arith) in
                  let z =
                    veces-sin_lista rdy ps st.listas st.niveles q (marca (p == q)) m (omega arith)
                      b in
                  ground arith;
              semaforos = record {
                hay_ready = let a = ap length e in let b = v.semaforos.hay_ready in omega arith;
                hay_s_ready = v.semaforos.hay_s_ready;
              };
              pcbs = refl;
              proximo = refl;
              contador_pid = refl;
              cantidad = refl;
              lista_mutex = refl;
              cpus = refl;
              a_km = refl;
            }),
      )

  movido :
      {q : ℕ} {s : Ks} (p : ℕ) (st' : Ks)
      → q ≡ p
      → s ≡ st'
      → (q < st.proximo) × Sacado q (lugar_de cfg.politica (st.pcbs q)) st s
      → (p < st.proximo) × Sacado p (lugar_de cfg.politica (st.pcbs p)) st st'
  movido {q} {s} p st' a b t =
      subst (λ (k : ℕ). (k < st.proximo) × Sacado k (lugar_de cfg.politica (st.pcbs k)) st st') a
        (subst (λ (u : Ks). (q < st.proximo) × Sacado q (lugar_de cfg.politica (st.pcbs q)) st u) b
          t)

  sin_reserva :
      (q : ℕ) (s : Ks)
      → Sacado q (lugar_de cfg.politica (st.pcbs q)) st s
      → Sacado q
          (lugar_de cfg.politica (st.pcbs q))
          st
          (record s { retorno_cpu = quitar_retorno_cpu (st.pcbs q).pid s.retorno_cpu })
  sin_reserva q s x = record {
    cuentas = x.cuentas;
    semaforos = x.semaforos;
    pcbs = x.pcbs;
    proximo = x.proximo;
    contador_pid = x.contador_pid;
    cantidad = x.cantidad;
    lista_mutex = x.lista_mutex;
    cpus = x.cpus;
    a_km = x.a_km;
  }

  -- The token goes back where nothing was taken.
  pub devuelto :
      CoherenteEn cfg.politica st.pcbs st.proximo st.contador_pid st.listas st.niveles
        (n + 1)
        st.sem_hay_s_ready
  devuelto = record {
    ubicados = v.ubicados;
    pids = v.pids;
    contados = v.contados;
    validas = v.validas;
    semaforos = record {
      hay_ready = let b = v.semaforos.hay_ready in omega arith;
      hay_s_ready = v.semaforos.hay_s_ready;
    };
  }

  -- What is next, once its token was taken, is taken from its place.
  primero-Sacado :
      (p : ℕ) (st' : Ks)
      → primero_listo cfg (record st { sem_hay_ready = n }) ≡ some (p, st')
      → (p < st.proximo) × Sacado p (lugar_de cfg.politica (st.pcbs p)) st st'
  unfolding primero_listo
  primero-Sacado p st' e = segun cfg.politica refl e
    where
      por_cola :
          cfg.politica ≡ cmn
          → (o : Option (ℕ × List Nivel)) → primero_de_niveles st.niveles ≡ o
          → de_niveles (record st { sem_hay_ready = n }) o ≡ some (p, st')
          → (p < st.proximo) × Sacado p (lugar_de cfg.politica (st.pcbs p)) st st'
      por_cola c none i h = absurd (cc)
      por_cola c (some (q, vs')) i h =
          let a : q ≡ p = cc in
          let b : record st { sem_hay_ready = n; niveles = vs' } ≡ st' = cc in
          movido p st' a b (de_la_cola vs' c i)

      por_lista :
          (l : List ℕ)
          → st.listas.rdy ≡ l
          → de_rdy (record st { sem_hay_ready = n }) l ≡ some (p, st')
          → (p < st.proximo) × Sacado p (lugar_de cfg.politica (st.pcbs p)) st st'
      por_lista [] i h = absurd (cc)
      por_lista (q ∷ ps) i h =
          let a : q ≡ p = cc in
          let b : record (en_lista rdy ps st) { sem_hay_ready = n } ≡ st' = cc in
          movido p st' a b (de_la_lista q ps i)

      segun :
          (pol : Politica)
          → cfg.politica ≡ pol
          → primero_segun pol (record st { sem_hay_ready = n }) ≡ some (p, st')
          → (p < st.proximo) × Sacado p (lugar_de cfg.politica (st.pcbs p)) st st'
      segun cmn c h = por_cola c (primero_de_niveles st.niveles) refl h
      segun fifo c h = por_lista st.listas.rdy refl h
      segun rr c h = por_lista st.listas.rdy refl h
      segun otra c h = por_lista st.listas.rdy refl h

  -- While every process stands in the one place of its state, what a CPU gets, once it has taken a token
  -- of `sem_hay_ready`, is a process that was created; it is taken from its place, nothing else is, and
  -- it is reserved for no other CPU.
  pub obtener-Sacado :
      (fd p : ℕ) (st' : Ks)
      → obtener_siguiente_proceso_para_cpu cfg fd (record st { sem_hay_ready = n }) ≡ some (p, st')
      → (p < st.proximo)
        × Sacado p (lugar_de cfg.politica (st.pcbs p)) st st'
        × ((fd_afinidad_de (st.pcbs p).pid st.retorno_cpu ≡ none)
            ⊎ (fd_afinidad_de (st.pcbs p).pid st.retorno_cpu ≡ some fd))
  unfolding obtener_siguiente_proceso_para_cpu
  obtener-Sacado fd p st' e = segun (primero_listo cfg (record st { sem_hay_ready = n })) refl e
    where
      con :
          (q : ℕ) (s : Ks) (f : Option ℕ)
          → fd_afinidad_de (st.pcbs q).pid st.retorno_cpu ≡ f
          → (q < st.proximo) × Sacado q (lugar_de cfg.politica (st.pcbs q)) st s
          → con_afinidad fd q (st.pcbs q).pid s f ≡ some (p, st')
          → (p < st.proximo)
            × Sacado p (lugar_de cfg.politica (st.pcbs p)) st st'
            × ((fd_afinidad_de (st.pcbs p).pid st.retorno_cpu ≡ none)
                ⊎ (fd_afinidad_de (st.pcbs p).pid st.retorno_cpu ≡ some fd))
      con q s none i t h =
          let a : q ≡ p = cc in
          let b : s ≡ st' = cc in
          let (d, x) = movido p st' a b t in
          (d, x, inl (subst (λ (k : ℕ). fd_afinidad_de (st.pcbs k).pid st.retorno_cpu ≡ none) a i))
      con q s (some f) i t h = elim (Bool-cases (f == fd)) [
        | inr otra_cpu ↦
            let z : ◌≡◌ {A = Option (ℕ × Ks)} none (some (p, st')) = rw otra_cpu at h in absurd (cc)
        | inl esta ↦
            let s' = record s { retorno_cpu = quitar_retorno_cpu (st.pcbs q).pid s.retorno_cpu } in
            let z : ◌≡◌ {A = Option (ℕ × Ks)} (some (q, s')) (some (p, st')) = rw esta at h in
            let a : q ≡ p = cc in
            let b : s' ≡ st' = cc in
            let f' : f ≡ fd = ground arith in
            let (d, x) = movido p st' a b (t.0, sin_reserva q s t.1) in
            (
              d,
              x,
              inr (
                  subst (λ (k : ℕ). fd_afinidad_de (st.pcbs k).pid st.retorno_cpu ≡ some fd) a
                    (i ∙ ap (λ (k : ℕ). some k) f')),
            )
      ]

      segun :
          (o : Option (ℕ × Ks))
          → primero_listo cfg (record st { sem_hay_ready = n }) ≡ o
          → elegir_para fd (record st { sem_hay_ready = n }) o ≡ some (p, st')
          → (p < st.proximo)
            × Sacado p (lugar_de cfg.politica (st.pcbs p)) st st'
            × ((fd_afinidad_de (st.pcbs p).pid st.retorno_cpu ≡ none)
                ⊎ (fd_afinidad_de (st.pcbs p).pid st.retorno_cpu ≡ some fd))
      segun none i h = absurd (cc)
      segun (some (q, s)) i h =
          con q s (fd_afinidad_de (st.pcbs q).pid st.retorno_cpu) refl (primero-Sacado q s i) h
