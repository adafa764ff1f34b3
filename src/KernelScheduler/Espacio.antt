-- ===== src/KernelScheduler/Espacio.antt =====
-- kernel_scheduler/src/server/src/server.c: nuevo_espacio ends, and leaves everything coherent.
use tp_so_limpio.Base.{
  ℕ, zero, suc, ◌+◌, ◌≤◌, ◌<◌, ◌≡◌, refl, ◌∙◌, subst, Bool, true, false, some, List, [], ◌∷◌, ◌++◌,
  ◌==◌, ◌&&◌, not, length, if◌then◌else◌, arith, Bool-cases, Option-cases, inl, inr,
}
use tp_so_limpio.GlobalUtils.{Mensaje, op, entero, nuevo_espacio as op_nuevo_espacio}
use tp_so_limpio.KernelScheduler.Estado.{
  rdy, s_rdy, Pcb, Politica, cmn, fifo, rr, otra, InfoConfig, Ks, en_lista,
}
use tp_so_limpio.KernelScheduler.Listas.{
  list_remove_element, cambiar_estado_pcb, agregar_proceso_lista, agregar_lista_ready,
  agregar_a_nivel, ready_fifo, ready_cmn,
}
use tp_so_limpio.KernelScheduler.Plazos.{
  ya_fue_intentado, primero_sin_intentar, candidato_por_prioridad, candidato, probar,
  nuevo_espacio_desde, nuevo_espacio, enviar_a_km,
}
use tp_so_limpio.KernelScheduler.Veces.{marca, veces, sin, quitado_si}
use tp_so_limpio.KernelScheduler.Coherencia.{Lugar, Coherente, lista, presente-lugar}
use tp_so_limpio.KernelScheduler.Agregado.{verificar_marco}
use tp_so_limpio.KernelScheduler.Eliminado.{Sacado, quitar_s_rdy-Sacado}
use tp_so_limpio.KernelScheduler.Transiciones.{reubicar}

-- The processes of a list that were not tried.
abbrev pendientes : List ℕ → List ℕ → ℕ
pendientes intentados [] = 0
pendientes intentados (p ∷ ps) =
    marca (not (ya_fue_intentado intentados p)) + pendientes intentados ps

pendientes-le : (xs : List ℕ) → pendientes [] xs ≤ length xs
unfolding ya_fue_intentado
pendientes-le [] = omega arith
pendientes-le (x ∷ xs) = omega (arith, pendientes-le xs)

intentado_mas :
    (it : List ℕ) (p q : ℕ)
    → ya_fue_intentado (it ++ (p ∷ [])) q ≡ (if ya_fue_intentado it q then true else p == q)
unfolding ya_fue_intentado
intentado_mas [] p q = ground arith
intentado_mas (x ∷ xs) p q = ground (arith, intentado_mas xs p q)

pendientes_tras_intento :
    (it : List ℕ) (p : ℕ) (xs : List ℕ)
    → ya_fue_intentado it p ≡ false
    → pendientes (it ++ (p ∷ [])) xs + veces p xs ≡ pendientes it xs
pendientes_tras_intento it p [] n = omega arith
pendientes_tras_intento it p (x ∷ xs) n =
    let a = intentado_mas it p x in
    let b = pendientes_tras_intento it p xs n in
    elim (Bool-cases (x == p)) [
      | inl si ↦
          let e : p ≡ x = ground arith in
          let n' : ya_fue_intentado it x ≡ false = subst (λ k. ya_fue_intentado it k ≡ false) e n in
          ground arith
      | inr sin' ↦ ground arith
    ]

pendientes_tras_quitar :
    (it : List ℕ) (p : ℕ) (xs : List ℕ)
    → 0 < veces p xs
    → ya_fue_intentado it p ≡ false
    → pendientes it (sin p xs) + 1 ≡ pendientes it xs
unfolding list_remove_element
pendientes_tras_quitar it p [] h n = absurd (omega arith)
pendientes_tras_quitar it p (x ∷ xs) h n = elim (Bool-cases (x == p)) [
  | inl si ↦
      let e : p ≡ x = ground arith in
      let n' : ya_fue_intentado it x ≡ false = subst (λ k. ya_fue_intentado it k ≡ false) e n in
      ground arith
  | inr sin' ↦ ground (arith, pendientes_tras_quitar it p xs (ground arith) n)
]

primero-presente :
    (sirve : ℕ → Bool) (it xs : List ℕ) (p : ℕ)
    → primero_sin_intentar sirve it xs ≡ some p
    → (0 < veces p xs) × (ya_fue_intentado it p ≡ false)
unfolding primero_sin_intentar
primero-presente sirve it [] p h = absurd (cc)
primero-presente sirve it (x ∷ xs) p h =
    elim (Bool-cases (sirve x && not (ya_fue_intentado it x))) [
      | inl si ↦
          let e : some x ≡ some p = rw si at h in
          let e' : x ≡ p = cc in
          let n : ya_fue_intentado it x ≡ false = ground arith in
          (ground arith, subst (λ k. ya_fue_intentado it k ≡ false) e' n)
      | inr sin' ↦ let r = primero-presente sirve it xs p (rw sin' at h) in (ground arith, r.1)
    ]

por_prioridad-presente :
    (h : ℕ → Pcb) (f n : ℕ) (it xs : List ℕ) (p : ℕ)
    → candidato_por_prioridad h f n it xs ≡ some p
    → (0 < veces p xs) × (ya_fue_intentado it p ≡ false)
unfolding candidato_por_prioridad
por_prioridad-presente h zero n it xs p e = absurd (cc)
por_prioridad-presente h (suc f) n it xs p e =
    elim (Option-cases (primero_sin_intentar (λ k. (h k).prioridad == n) it xs)) [
      | inl nada ↦
          por_prioridad-presente h f (n + 1) it xs p (rw (nada, candidato_por_prioridad) at e)
      | inr (a, algo) ↦
          let e' : some a ≡ some p = rw (algo, candidato_por_prioridad) at e in
          primero-presente (λ k. (h k).prioridad == n) it xs p (algo ∙ e')
    ]

candidato-presente :
    (cfg : InfoConfig) (it : List ℕ) (st : Ks) (p : ℕ)
    → candidato cfg it st ≡ some p
    → (0 < veces p st.listas.s_rdy) × (ya_fue_intentado it p ≡ false)
unfolding candidato
candidato-presente cfg it st p h = segun cfg.politica h
  where
    segun :
        (pol : Politica)
        → (elim pol [
          | cmn ↦ candidato_por_prioridad st.pcbs (length st.niveles) 0 it st.listas.s_rdy
          | _ ↦ primero_sin_intentar (λ q. true) it st.listas.s_rdy
        ])
          ≡ some p
        → (0 < veces p st.listas.s_rdy) × (ya_fue_intentado it p ≡ false)
    segun cmn e = por_prioridad-presente st.pcbs (length st.niveles) 0 it st.listas.s_rdy p e
    segun fifo e = primero-presente (λ q. true) it st.listas.s_rdy p e
    segun rr e = primero-presente (λ q. true) it st.listas.s_rdy p e
    segun otra e = primero-presente (λ q. true) it st.listas.s_rdy p e

-- To be ready again puts nobody among the suspended ready.
agregar_listo-s_rdy :
    (cfg : InfoConfig) (p : ℕ) (st : Ks)
    → (st.pcbs p).estado_pcb ≡ rdy
    → (agregar_proceso_lista cfg p st).listas.s_rdy ≡ st.listas.s_rdy
unfolding agregar_proceso_lista agregar_lista_ready ready_fifo ready_cmn
agregar_listo-s_rdy cfg p st e =
    let st' = record st { niveles = agregar_a_nivel (st.pcbs p).prioridad p st.niveles } in
    let m = verificar_marco cfg p st' in rw e (ground arith)

-- A suspended process for which there is room is ready.
probar-cabe :
    (cfg : InfoConfig) (p : ℕ) (st : Ks)
    → Coherente cfg st
    → 0 < veces p st.listas.s_rdy
    → (let st' =
          agregar_proceso_lista cfg p
            (cambiar_estado_pcb p rdy (en_lista s_rdy (sin p st.listas.s_rdy) st)) in
        Coherente cfg st' × (st'.listas.s_rdy ≡ sin p st.listas.s_rdy))
unfolding cambiar_estado_pcb
probar-cabe cfg p st v h =
    let st2 = en_lista s_rdy (sin p st.listas.s_rdy) st in
    let st3 = cambiar_estado_pcb p rdy st2 in
    let (d, l) = presente-lugar cfg st p (lista s_rdy) v h in
    let s = quitar_s_rdy-Sacado cfg p st v.semaforos h in
    let e : (st3.pcbs p).estado_pcb ≡ rdy = ground arith in
    (
      reubicar cfg p st st2 st3.pcbs v d (subst (λ (k : Lugar). Sacado p k st st2) l s)
          (rw e (omega arith)) (λ q o. ground arith) (ground arith) (ground arith),
      agregar_listo-s_rdy cfg p st3 e,
    )

-- One round for a candidate keeps everything coherent and leaves fewer processes to try.
probar_lem :
    (cfg : InfoConfig) (hay : List Mensaje → Bool) (p : ℕ) (it : List ℕ) (st : Ks)
    → Coherente cfg st
    → 0 < veces p st.listas.s_rdy
    → ya_fue_intentado it p ≡ false
    → (let r = probar cfg hay p it st in
        Coherente cfg r.1 × (pendientes r.0 r.1.listas.s_rdy < pendientes it st.listas.s_rdy))
unfolding probar
probar_lem cfg hay p it st v h n =
    let st1 = enviar_a_km (op op_nuevo_espacio ∷ entero (st.pcbs p).pid ∷ []) st in
    let st2 = en_lista s_rdy (sin p st.listas.s_rdy) st1 in
    let (d, l) = presente-lugar cfg st p (lista s_rdy) v h in
    elim (Bool-cases (hay st1.a_km)) [
      | inr lleno ↦
          rw (lleno) (v, let z = pendientes_tras_intento it p st.listas.s_rdy n in omega arith)
      | inl cabe ↦
          let (c, e) = probar-cabe cfg p st1 v h in
          rw (cabe, quitado_si p st.listas.s_rdy h)
            (c, rw e (let z = pendientes_tras_quitar it p st.listas.s_rdy h n in omega arith))
    ]

desde-termina :
    (cfg : InfoConfig) (hay : List Mensaje → Bool) (f : ℕ) (it : List ℕ) (st : Ks)
    → Coherente cfg st
    → pendientes it st.listas.s_rdy < f
    → (st' : Ks) × (nuevo_espacio_desde cfg hay f it st ≡ some st') × Coherente cfg st'
unfolding nuevo_espacio_desde
desde-termina cfg hay zero it st v h = absurd (omega arith)
desde-termina cfg hay (suc f) it st v h = elim (Option-cases (candidato cfg it st)) [
  | inl nada ↦ (st, rw (nada, nuevo_espacio_desde) refl, v)
  | inr (p, algo) ↦
      let (a, b) = candidato-presente cfg it st p algo in
      let (c, d) = probar_lem cfg hay p it st v a b in
      let r = probar cfg hay p it st in
      let (st', e, w) = desde-termina cfg hay f r.0 r.1 c (omega arith) in
      (st', rw (algo, nuevo_espacio_desde) e, w)
]

-- While every process stands in the one place of its state, nuevo_espacio ends with as many rounds as
-- there are suspended ready processes and one more, whatever Kernel Memory answers to each request, and
-- every process stands in the one place of its state again.
pub nuevo_espacio-Coherente :
    (cfg : InfoConfig) (hay : List Mensaje → Bool) (st : Ks)
    → Coherente cfg st
    → (st' : Ks) × (nuevo_espacio cfg hay st ≡ some st') × Coherente cfg st'
unfolding nuevo_espacio
nuevo_espacio-Coherente cfg hay st v =
    let z = pendientes-le st.listas.s_rdy in
    desde-termina cfg hay (suc (length st.listas.s_rdy)) [] st v (omega arith)
