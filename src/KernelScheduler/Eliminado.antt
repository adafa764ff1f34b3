-- ===== src/KernelScheduler/Eliminado.antt =====
-- kernel_scheduler/utilsKS/utilsKS.c: what eliminar_proceso_Lista does to the places.
use tp_so_limpio.Base.{
  ℕ, suc, ◌+◌, ◌-◌, ◌<◌, ◌≡◌, refl, sym, ap, ◌∙◌, Bool, true, some, List, ◌==◌, ◌&&◌, length, arith,
}
use tp_so_limpio.KernelScheduler.Estado.{
  Estado, new, rdy, rnn, bck, s_bck, s_rdy, ext, no_estado, Politica, cmn, fifo, rr, otra,
  InfoConfig, Ks, lista_de, con_lista, en_lista,
}
use tp_so_limpio.KernelScheduler.Listas.{
  sem_wait, list_remove_element, quitar_de_niveles, quitar_de_ready, eliminar_segun,
  eliminar_proceso_lista,
}
use tp_so_limpio.KernelScheduler.Veces.{
  marca, veces, cola_de, en_niveles, quitado_length, quitado_si, quitado_no, sin, veces-sin,
  sin-ausente, quitado_niveles_length, quitar_de_niveles_cantidad, quitado_niveles_si,
  quitado_niveles_veces,
}
use tp_so_limpio.KernelScheduler.Coherencia.{
  Lugar, lista, nivel, mismo_lugar, ocupantes, lugar_segun, Semaforos, codigo, veces-sin_lista,
}

-- A process less in one place, and nothing else but the semaphores.
pub record Sacado (p : ℕ) (l : Lugar) (st st' : Ks) : Type 0 where
  pub cuentas :
      (q : ℕ) (m : Lugar)
      → veces q (ocupantes m st.listas st.niveles)
        ≡ veces q (ocupantes m st'.listas st'.niveles) + marca (mismo_lugar m l && p == q)
  pub semaforos : Semaforos st'.listas st'.niveles st'.sem_hay_ready st'.sem_hay_s_ready
  pub pcbs : st'.pcbs ≡ st.pcbs
  pub proximo : st'.proximo ≡ st.proximo
  pub contador_pid : st'.contador_pid ≡ st.contador_pid
  pub cantidad : length st'.niveles ≡ length st.niveles
  pub lista_mutex : st'.lista_mutex ≡ st.lista_mutex
  pub cpus : st'.cpus ≡ st.cpus
  pub a_km : st'.a_km ≡ st.a_km

-- The states whose processes no semaphore counts.
abbrev pub SinAviso : Estado → Type 0
SinAviso rdy = ⊥
SinAviso s_rdy = ⊥
SinAviso no_estado = ⊥
SinAviso _ = Unit

sem_wait-pos : (n : ℕ) → 0 < n → sem_wait n ≡ some (n - 1)
sem_wait-pos n h =
    let e : n ≡ suc (n - 1) = omega arith in rw e (ap (λ (k : ℕ). some k) (omega arith))

module _ (cfg : InfoConfig) (p : ℕ) (st : Ks)
    (s : Semaforos st.listas st.niveles st.sem_hay_ready st.sem_hay_s_ready) where
  sacado_en :
      (e : Estado) (q : ℕ) (m : Lugar)
      → codigo e < 7
      → 0 < veces p (lista_de e st.listas)
      → veces q (ocupantes m st.listas st.niveles)
        ≡ veces q (ocupantes m (con_lista e (sin p (lista_de e st.listas)) st.listas) st.niveles)
          + marca (mismo_lugar m (lista e) && p == q)
  sacado_en e q m h u =
      let z =
        veces-sin_lista e (sin p (lista_de e st.listas)) st.listas st.niveles q (marca (p == q)) m h
          (veces-sin p q (lista_de e st.listas) u) in
      ground arith

  simple :
      (e : Estado) (n n' : ℕ)
      → codigo e < 7
      → 0 < veces p (lista_de e st.listas)
      → Semaforos (con_lista e (sin p (lista_de e st.listas)) st.listas) st.niveles n n'
      → Sacado p (lista e) st (record (en_lista e (sin p (lista_de e st.listas)) st) {
        sem_hay_ready = n;
        sem_hay_s_ready = n';
      })
  simple e n n' h u w = record {
    cuentas = λ q m. sacado_en e q m h u;
    semaforos = w;
    pcbs = refl;
    proximo = refl;
    contador_pid = refl;
    cantidad = refl;
    lista_mutex = refl;
    cpus = refl;
    a_km = refl;
  }

  sin_aviso :
      (e : Estado)
      → codigo e < 7
      → 0 < veces p (lista_de e st.listas)
      → (con_lista e (sin p (lista_de e st.listas)) st.listas).rdy ≡ st.listas.rdy
      → (con_lista e (sin p (lista_de e st.listas)) st.listas).s_rdy ≡ st.listas.s_rdy
      → eliminar_segun cfg e p st
        ≡ some (
          (list_remove_element p (lista_de e st.listas)).0,
          en_lista e (sin p (lista_de e st.listas)) st,
        )
      → (st' : Ks) × (eliminar_segun cfg e p st ≡ some (true, st')) × Sacado p (lista e) st st'
  sin_aviso e h u a b eq = (
    en_lista e (sin p (lista_de e st.listas)) st,
    eq
        ∙ ap (λ (r : Bool). some (r, en_lista e (sin p (lista_de e st.listas)) st))
            (quitado_si p (lista_de e st.listas) u),
    simple e st.sem_hay_ready st.sem_hay_s_ready h u (record {
      hay_ready = s.hay_ready ∙ ap (λ (l : List ℕ). length l + en_niveles st.niveles) (sym a);
      hay_s_ready = rw b s.hay_s_ready;
    }),
  )

  cuentas_cola :
      (k : ℕ)
      → ((n : ℕ) → veces p (cola_de n st.niveles) ≡ marca (n == k))
      → (q : ℕ) (m : Lugar)
      → veces q (ocupantes m st.listas st.niveles)
        ≡ veces q (ocupantes m st.listas (quitar_de_niveles p st.niveles).1)
          + marca (mismo_lugar m (nivel k) && p == q)
  cuentas_cola k u q (lista m) = omega arith
  cuentas_cola k u q (nivel n) = quitado_niveles_veces p k q n st.niveles u

  suspendido :
      veces p st.listas.s_rdy ≡ 1
      → (st' : Ks) × (eliminar_segun cfg s_rdy p st ≡ some (true, st'))
        × Sacado p (lista s_rdy) st st'
  suspendido u =
      let si = quitado_si p st.listas.s_rdy (omega arith) in
      let largo = quitado_length p st.listas.s_rdy in
      let menos : length st.listas.s_rdy ≡ length (sin p st.listas.s_rdy) + 1 = ground arith in
      (
        record (en_lista s_rdy (sin p st.listas.s_rdy) st) {
          sem_hay_s_ready = st.sem_hay_s_ready - 1;
        },
        rw (si, sem_wait-pos st.sem_hay_s_ready (omega (arith, s.hay_s_ready))) refl,
        simple s_rdy st.sem_hay_ready (st.sem_hay_s_ready - 1) (omega arith) (omega arith)
            (record { hay_ready = s.hay_ready; hay_s_ready = omega (arith, s.hay_s_ready) }),
      )

  esperar :
      (st1 : Ks)
      → quitar_de_ready cfg p st ≡ (true, st1)
      → 0 < st1.sem_hay_ready
      → eliminar_segun cfg rdy p st
        ≡ some (true, record st1 { sem_hay_ready = st1.sem_hay_ready - 1 })
  esperar st1 e h = rw (e, sem_wait-pos st1.sem_hay_ready h) refl

  en_rdy :
      veces p st.listas.rdy ≡ 1
      → (st' : Ks) × (eliminar_segun cfg rdy p st ≡ some (true, st')) × Sacado p (lista rdy) st st'
  unfolding quitar_de_ready
  en_rdy u =
      let si = quitado_si p st.listas.rdy (omega arith) in
      let largo = quitado_length p st.listas.rdy in
      let menos : length st.listas.rdy ≡ length (sin p st.listas.rdy) + 1 = ground arith in
      let st1 = en_lista rdy (sin p st.listas.rdy) st in
      (
        record st1 { sem_hay_ready = st.sem_hay_ready - 1 },
        esperar st1 (rw si refl) (omega (arith, s.hay_ready)),
        simple rdy (st.sem_hay_ready - 1) st.sem_hay_s_ready (omega arith) (omega arith)
            (record { hay_ready = omega (arith, s.hay_ready); hay_s_ready = s.hay_s_ready }),
      )

  -- With CMN, a ready process is taken from the queue of its level.
  en_cola :
      (k : ℕ)
      → cfg.politica ≡ cmn
      → veces p st.listas.rdy ≡ 0
      → ((n : ℕ) → veces p (cola_de n st.niveles) ≡ marca (n == k))
      → (st' : Ks) × (eliminar_segun cfg rdy p st ≡ some (true, st')) × Sacado p (nivel k) st st'
  unfolding quitar_de_ready
  en_cola k e z u =
      let encontrado = quitado_niveles_si p k st.niveles u in
      let largo = quitado_niveles_length p st.niveles in
      let vs = (quitar_de_niveles p st.niveles).1 in
      let menos : en_niveles st.niveles ≡ en_niveles vs + 1 = ground arith in
      let igual = sin-ausente p st.listas.rdy z in
      let ls = con_lista rdy (sin p st.listas.rdy) st.listas in
      let iguales : ls ≡ st.listas = ap (λ (xs : List ℕ). con_lista rdy xs st.listas) igual in
      let st1 = record st { listas = ls; niveles = vs } in
      (
        record st1 { sem_hay_ready = st.sem_hay_ready - 1 },
        esperar st1 (rw (quitado_no p st.listas.rdy z, e, encontrado) refl)
            (omega (arith, s.hay_ready)),
        record {
          cuentas = λ q m. rw iguales (cuentas_cola k u q m);
          semaforos =
              rw iguales
                (record { hay_ready = omega (arith, s.hay_ready); hay_s_ready = s.hay_s_ready });
          pcbs = refl;
          proximo = refl;
          contador_pid = refl;
          cantidad = quitar_de_niveles_cantidad p st.niveles;
          lista_mutex = refl;
          cpus = refl;
          a_km = refl;
        },
      )

  listo :
      (pol : Politica)
      → cfg.politica ≡ pol
      → ((m : Lugar)
          → veces p (ocupantes m st.listas st.niveles)
            ≡ marca (mismo_lugar m (lugar_segun pol rdy (st.pcbs p).prioridad)))
      → (st' : Ks) × (eliminar_segun cfg rdy p st ≡ some (true, st'))
        × Sacado p (lugar_segun pol rdy (st.pcbs p).prioridad) st st'
  listo cmn e u = en_cola (st.pcbs p).prioridad e (u (lista rdy)) (λ n. u (nivel n))
  listo fifo e u = en_rdy (u (lista rdy))
  listo rr e u = en_rdy (u (lista rdy))
  listo otra e u = en_rdy (u (lista rdy))

  presente :
      (e : Estado)
      → SinAviso e
      → 0 < veces p (lista_de e st.listas)
      → (st' : Ks) × (eliminar_segun cfg e p st ≡ some (true, st')) × Sacado p (lista e) st st'
  presente new h u = sin_aviso new (omega arith) u refl refl refl
  presente rnn h u = sin_aviso rnn (omega arith) u refl refl refl
  presente bck h u = sin_aviso bck (omega arith) u refl refl refl
  presente s_bck h u = sin_aviso s_bck (omega arith) u refl refl refl
  presente ext h u = sin_aviso ext (omega arith) u refl refl refl
  presente rdy h u = absurd h
  presente s_rdy h u = absurd h
  presente no_estado h u = absurd h

  segun :
      (e : Estado)
      → codigo e < 7
      → ((m : Lugar)
          → veces p (ocupantes m st.listas st.niveles)
            ≡ marca (mismo_lugar m (lugar_segun cfg.politica e (st.pcbs p).prioridad)))
      → (st' : Ks) × (eliminar_segun cfg e p st ≡ some (true, st'))
        × Sacado p (lugar_segun cfg.politica e (st.pcbs p).prioridad) st st'
  segun rdy h u = listo cfg.politica refl u
  segun new h u = presente new tt (let z = u (lista new) in omega arith)
  segun rnn h u = presente rnn tt (let z = u (lista rnn) in omega arith)
  segun bck h u = presente bck tt (let z = u (lista bck) in omega arith)
  segun s_bck h u = presente s_bck tt (let z = u (lista s_bck) in omega arith)
  segun s_rdy h u = suspendido (u (lista s_rdy))
  segun ext h u = presente ext tt (let z = u (lista ext) in omega arith)
  segun no_estado h u = absurd (omega arith)

-- A process that stands in the place of its former state is taken from there: the call answers OK
-- and waits at no semaphore.
pub eliminar-Sacado :
    (cfg : InfoConfig) (p : ℕ) (st : Ks)
    → codigo (st.pcbs p).estado_anterior < 7
    → Semaforos st.listas st.niveles st.sem_hay_ready st.sem_hay_s_ready
    → ((m : Lugar)
        → veces p (ocupantes m st.listas st.niveles)
          ≡ marca (
              mismo_lugar m
                (lugar_segun cfg.politica (st.pcbs p).estado_anterior (st.pcbs p).prioridad)))
    → (st' : Ks) × (eliminar_proceso_lista cfg p st ≡ some (true, st'))
      × Sacado p (lugar_segun cfg.politica (st.pcbs p).estado_anterior (st.pcbs p).prioridad) st st'
unfolding eliminar_proceso_lista
eliminar-Sacado cfg p st h s u = segun cfg p st s (st.pcbs p).estado_anterior h u

-- The same where the process stands in other places too.
pub eliminar-Sacado_presente :
    (cfg : InfoConfig) (p : ℕ) (st : Ks)
    → SinAviso (st.pcbs p).estado_anterior
    → Semaforos st.listas st.niveles st.sem_hay_ready st.sem_hay_s_ready
    → 0 < veces p (lista_de (st.pcbs p).estado_anterior st.listas)
    → (st' : Ks) × (eliminar_proceso_lista cfg p st ≡ some (true, st'))
      × Sacado p (lista (st.pcbs p).estado_anterior) st st'
unfolding eliminar_proceso_lista
eliminar-Sacado_presente cfg p st h s u = presente cfg p st s (st.pcbs p).estado_anterior h u

-- A removal from the suspended ready that no semaphore sees.
pub quitar_s_rdy-Sacado :
    (cfg : InfoConfig) (p : ℕ) (st : Ks)
    → Semaforos st.listas st.niveles st.sem_hay_ready st.sem_hay_s_ready
    → 0 < veces p st.listas.s_rdy
    → Sacado p (lista s_rdy) st (en_lista s_rdy (sin p st.listas.s_rdy) st)
quitar_s_rdy-Sacado cfg p st s u =
    let largo = quitado_length p st.listas.s_rdy in
    simple cfg p st s s_rdy st.sem_hay_ready st.sem_hay_s_ready (omega arith) u
      (record { hay_ready = s.hay_ready; hay_s_ready = omega (arith, s.hay_s_ready) })
