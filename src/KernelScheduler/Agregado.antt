-- ===== src/KernelScheduler/Agregado.antt =====
-- kernel_scheduler/utilsKS/utilsKS.c: what agregar_proceso_lista does to the places.
use tp_so_limpio.Base.{
  ℕ, ◌+◌, ◌<◌, ◌≡◌, refl, sym, ap, ◌∙◌, subst, true, List, [], ◌∷◌, ◌++◌, ◌==◌, ◌&&◌, length, ltb,
  arith, inl, inr, Bool-cases,
}
use tp_so_limpio.KernelScheduler.Estado.{
  Estado, new, rdy, rnn, bck, s_bck, s_rdy, ext, no_estado, Listas, Nivel, Politica, cmn, fifo, rr,
  otra, InfoConfig, Ks, lista_de, con_lista, en_lista,
}
use tp_so_limpio.KernelScheduler.Desalojo.{verificar_desalojo_por_prioridad, agregar_a_desalojo}
use tp_so_limpio.KernelScheduler.Listas.{
  agregar_proceso_lista, agregar_segun, agregar_lista_ready, agregar_a_nivel, ready_fifo, ready_cmn,
}
use tp_so_limpio.KernelScheduler.Veces.{
  marca, veces, en_niveles, veces-al_final, length-al_final, agregado_veces, agregado_length,
  agregar_a_nivel_cantidad,
}
use tp_so_limpio.KernelScheduler.Coherencia.{
  Lugar, lista, nivel, mismo_lugar, ocupantes, lugar_segun, HayLugar, Semaforos, listos, codigo,
  veces-con_lista,
}

-- A process more in one place, and nothing else but the semaphores and the list of preemptions.
pub record Puesto (p : ℕ) (l : Lugar) (st st' : Ks) : Type 0 where
  pub cuentas :
      (q : ℕ) (m : Lugar)
      → veces q (ocupantes m st'.listas st'.niveles)
        ≡ veces q (ocupantes m st.listas st.niveles) + marca (mismo_lugar m l && p == q)
  pub semaforos :
      Semaforos st.listas st.niveles st.sem_hay_ready st.sem_hay_s_ready
      → Semaforos st'.listas st'.niveles st'.sem_hay_ready st'.sem_hay_s_ready
  pub pcbs : st'.pcbs ≡ st.pcbs
  pub proximo : st'.proximo ≡ st.proximo
  pub contador_pid : st'.contador_pid ≡ st.contador_pid
  pub cantidad : length st'.niveles ≡ length st.niveles
  pub lista_mutex : st'.lista_mutex ≡ st.lista_mutex
  pub cpus : st'.cpus ≡ st.cpus
  pub a_km : st'.a_km ≡ st.a_km

-- A check for preemption changes the list of preemptions only.
pub verificar_marco :
    (cfg : InfoConfig) (p : ℕ) (st : Ks)
    → verificar_desalojo_por_prioridad cfg p st
      ≡ record st { desalojo = (verificar_desalojo_por_prioridad cfg p st).desalojo }
unfolding verificar_desalojo_por_prioridad agregar_a_desalojo
verificar_marco cfg p st = ground arith

puesto_en :
    (e : Estado) (p : ℕ) (st : Ks) (q : ℕ) (m : Lugar)
    → codigo e < 7
    → veces q (ocupantes m (con_lista e (lista_de e st.listas ++ (p ∷ [])) st.listas) st.niveles)
      ≡ veces q (ocupantes m st.listas st.niveles) + marca (mismo_lugar m (lista e) && p == q)
puesto_en e p st q m h =
    let z =
      veces-con_lista e (lista_de e st.listas ++ (p ∷ [])) st.listas st.niveles q (marca (p == q)) m
        h (veces-al_final q p (lista_de e st.listas)) in
    ground arith

module _ (cfg : InfoConfig) (p : ℕ) (st : Ks) where
  simple :
      (e : Estado) (st' : Ks)
      → codigo e < 7
      → st'.listas ≡ con_lista e (lista_de e st.listas ++ (p ∷ [])) st.listas
      → st'.niveles ≡ st.niveles
      → (Semaforos st.listas st.niveles st.sem_hay_ready st.sem_hay_s_ready
          → Semaforos st'.listas st'.niveles st'.sem_hay_ready st'.sem_hay_s_ready)
      → st'.pcbs ≡ st.pcbs
      → st'.proximo ≡ st.proximo
      → st'.contador_pid ≡ st.contador_pid
      → st'.lista_mutex ≡ st.lista_mutex
      → st'.cpus ≡ st.cpus
      → st'.a_km ≡ st.a_km
      → Puesto p (lista e) st st'
  simple e st' h a b s c d f g i j = record {
    cuentas = λ q m. rw (a, b) (puesto_en e p st q m h);
    semaforos = s;
    pcbs = c;
    proximo = d;
    contador_pid = f;
    cantidad = ap (λ (v : List Nivel). length v) b;
    lista_mutex = g;
    cpus = i;
    a_km = j;
  }

  cuentas_cola :
      (k : ℕ) (vs : List Nivel)
      → vs ≡ agregar_a_nivel k p st.niveles
      → k < length st.niveles
      → (q : ℕ) (m : Lugar)
      → veces q (ocupantes m st.listas vs)
        ≡ veces q (ocupantes m st.listas st.niveles) + marca (mismo_lugar m (nivel k) && p == q)
  cuentas_cola k vs e h q (lista m) = omega arith
  cuentas_cola k vs e h q (nivel m) = rw e (agregado_veces p q k m st.niveles h)

  uno_mas :
      Semaforos st.listas st.niveles st.sem_hay_ready st.sem_hay_s_ready
      → (l : Listas) (vs : List Nivel) → l.s_rdy ≡ st.listas.s_rdy
      → listos l vs ≡ listos st.listas st.niveles + 1
      → Semaforos l vs (st.sem_hay_ready + 1) st.sem_hay_s_ready
  uno_mas s l vs e n = record {
    hay_ready = omega (arith, s.hay_ready);
    hay_s_ready = rw e s.hay_s_ready;
  }

  en_rdy :
      agregar_lista_ready cfg p st ≡ ready_fifo p st
      → Puesto p (lista rdy) st (agregar_segun cfg rdy p st)
  unfolding ready_fifo
  en_rdy e =
      subst (λ (s : Ks). Puesto p (lista rdy) st (record s { sem_hay_ready = s.sem_hay_ready + 1 }))
        (sym e)
        (simple rdy
          (record (en_lista rdy (st.listas.rdy ++ (p ∷ [])) st) {
            sem_hay_ready = st.sem_hay_ready + 1;
          })
          (omega arith) refl refl
          (λ s.
            uno_mas s (con_lista rdy (st.listas.rdy ++ (p ∷ [])) st.listas) st.niveles refl
              (omega (arith, length-al_final p st.listas.rdy)))
          refl refl refl refl refl refl)

  en_cola :
      (st.pcbs p).prioridad < length st.niveles
      → (d : List ℕ)
      → agregar_lista_ready cfg p st
        ≡ record st { niveles = agregar_a_nivel (st.pcbs p).prioridad p st.niveles; desalojo = d }
      → Puesto p (nivel (st.pcbs p).prioridad) st (agregar_segun cfg rdy p st)
  en_cola h d e =
      let k = (st.pcbs p).prioridad in
      let vs = agregar_a_nivel k p st.niveles in
      let cuentas : (q : ℕ) (m : Lugar)
          → veces q (ocupantes m st.listas vs)
            ≡ veces q (ocupantes m st.listas st.niveles)
              + marca (mismo_lugar m (nivel k) && p == q) =
        λ q m. cuentas_cola k vs refl h q m in
      subst (λ (s : Ks). Puesto p (nivel k) st (record s { sem_hay_ready = s.sem_hay_ready + 1 }))
        (sym e)
        (record {
          cuentas = cuentas;
          semaforos =
              λ s. uno_mas s st.listas vs refl (omega (arith, agregado_length p k st.niveles h));
          pcbs = refl;
          proximo = refl;
          contador_pid = refl;
          cantidad = agregar_a_nivel_cantidad k p st.niveles;
          lista_mutex = refl;
          cpus = refl;
          a_km = refl;
        })

  agregar-cola :
      cfg.politica ≡ cmn
      → (st.pcbs p).prioridad < length st.niveles
      → (d : List ℕ) × (agregar_lista_ready cfg p st ≡ record st {
        niveles = agregar_a_nivel (st.pcbs p).prioridad p st.niveles;
        desalojo = d;
      })
  unfolding agregar_lista_ready ready_cmn
  agregar-cola e h =
      let st' = record st { niveles = agregar_a_nivel (st.pcbs p).prioridad p st.niveles } in
      let dentro : ltb (st.pcbs p).prioridad (length st.niveles) ≡ true = ground arith in
      elim (Bool-cases cfg.preemption) [
        | inl si ↦ (
          (verificar_desalojo_por_prioridad cfg p st').desalojo,
          ground (arith, verificar_marco cfg p st'),
        )
        | inr sin ↦ (st.desalojo, ground arith)
      ]

  listo :
      (pol : Politica)
      → cfg.politica ≡ pol
      → HayLugar pol rdy (st.pcbs p).prioridad (length st.niveles)
      → Puesto p (lugar_segun pol rdy (st.pcbs p).prioridad) st (agregar_segun cfg rdy p st)
  unfolding agregar_lista_ready
  listo fifo e h = en_rdy (rw e refl)
  listo rr e h = en_rdy (rw e refl)
  listo cmn e h = let (d, eq) = agregar-cola e h in en_cola h d eq
  listo otra e h = absurd h

  sin_aviso :
      (e : Estado)
      → codigo e < 7
      → (con_lista e (lista_de e st.listas ++ (p ∷ [])) st.listas).rdy ≡ st.listas.rdy
      → (con_lista e (lista_de e st.listas ++ (p ∷ [])) st.listas).s_rdy ≡ st.listas.s_rdy
      → Puesto p (lista e) st (en_lista e (lista_de e st.listas ++ (p ∷ [])) st)
  sin_aviso e h a b =
      simple e (en_lista e (lista_de e st.listas ++ (p ∷ [])) st) h refl refl
        (λ s. record {
          hay_ready = s.hay_ready ∙ ap (λ (l : List ℕ). length l + en_niveles st.niveles) (sym a);
          hay_s_ready = rw b s.hay_s_ready;
        })
        refl refl refl refl refl refl

  segun :
      (e : Estado)
      → HayLugar cfg.politica e (st.pcbs p).prioridad (length st.niveles)
      → Puesto p (lugar_segun cfg.politica e (st.pcbs p).prioridad) st (agregar_segun cfg e p st)
  segun rdy h = listo cfg.politica refl h
  segun new h = sin_aviso new (omega arith) refl refl
  segun rnn h = sin_aviso rnn (omega arith) refl refl
  segun bck h = sin_aviso bck (omega arith) refl refl
  segun s_bck h = sin_aviso s_bck (omega arith) refl refl
  segun ext h = sin_aviso ext (omega arith) refl refl
  segun s_rdy h =
      simple s_rdy (agregar_segun cfg s_rdy p st) (omega arith) refl refl
        (λ s. record {
          hay_ready = s.hay_ready;
          hay_s_ready = omega (arith, s.hay_s_ready, length-al_final p st.listas.s_rdy);
        })
        refl refl refl refl refl refl
  segun no_estado h = absurd h

  -- A process is added to the place of its state.
  pub agregar-Puesto :
      HayLugar cfg.politica (st.pcbs p).estado_pcb (st.pcbs p).prioridad (length st.niveles)
      → Puesto p
          (lugar_segun cfg.politica (st.pcbs p).estado_pcb (st.pcbs p).prioridad)
          st
          (agregar_proceso_lista cfg p st)
  unfolding agregar_proceso_lista
  agregar-Puesto h = segun (st.pcbs p).estado_pcb h
