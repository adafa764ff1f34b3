-- ===== src/KernelScheduler/Hallazgo.antt =====
-- kernel_scheduler/src/server/src/server.c: buscar_pcb_por_pid finds who exists.
use tp_so_limpio.Base.{
  ℕ, zero, suc, ◌<◌, ◌≡◌, refl, sym, ◌∙◌, subst, Bool, true, false, none, some, List, [], ◌∷◌, ◌==◌,
  ltb, if◌then◌else◌, arith, Bool-cases, Option-cases, inl, inr,
}
use tp_so_limpio.KernelScheduler.Estado.{
  Estado, new, rdy, rnn, bck, s_bck, s_rdy, ext, no_estado, Pcb, Nivel, Politica, cmn, fifo, rr,
  otra, InfoConfig, Ks,
}
use tp_so_limpio.KernelScheduler.Busqueda.{buscar_en, buscar_en_niveles, buscar_pcb_por_pid}
use tp_so_limpio.KernelScheduler.Veces.{veces, cola_de}
use tp_so_limpio.KernelScheduler.Coherencia.{
  Lugar, lista, nivel, mismo_lugar, ocupantes, lugar_de, lugar_segun, lugar_listo, Coherente,
  presente-lugar,
}

-- What the loop over a list finds stands there and has the PID; it finds nothing only where no such
-- process stands.
buscar_en-hallado :
    (h : ℕ → Pcb) (pid : ℕ) (xs : List ℕ) {p : ℕ}
    → buscar_en h pid xs ≡ some p
    → (0 < veces p xs) × ((h p).pid ≡ pid)
unfolding buscar_en
buscar_en-hallado h pid [] e = absurd (cc)
buscar_en-hallado h pid (x ∷ xs) {p} e = elim (Bool-cases ((h x).pid == pid)) [
  | inl si ↦
      let e' : some x ≡ some p = rw si at e in
      let i : x ≡ p = cc in (ground arith, subst (λ (k : ℕ). (h k).pid ≡ pid) i (ground arith))
  | inr sin ↦ let r = buscar_en-hallado h pid xs (rw sin at e) in (omega (arith, r.0), r.1)
]

buscar_en-ausente :
    (h : ℕ → Pcb) (pid : ℕ) (xs : List ℕ) (p : ℕ)
    → buscar_en h pid xs ≡ none
    → (h p).pid ≡ pid
    → veces p xs ≡ 0
unfolding buscar_en
buscar_en-ausente h pid [] p e i = refl
buscar_en-ausente h pid (x ∷ xs) p e i = elim (Bool-cases ((h x).pid == pid)) [
  | inl si ↦ let e' : some x ≡ none = rw si at e in absurd (cc)
  | inr sin ↦
      let r = buscar_en-ausente h pid xs p (rw sin at e) i in
      let n : (x == p) ≡ false = elim (Bool-cases (x == p)) [
        | inr no' ↦ no'
        | inl si ↦
            let ig : p ≡ x = ground arith in
            let z : (h x).pid ≡ pid = subst (λ (k : ℕ). (h k).pid ≡ pid) ig i in
            absurd (ground arith)
      ] in
      ground arith
]

niveles-ausente :
    (h : ℕ → Pcb) (pid : ℕ) (vs : List Nivel)
    → ((n : ℕ) → buscar_en h pid (cola_de n vs) ≡ none)
    → buscar_en_niveles h pid vs ≡ none
unfolding buscar_en_niveles
niveles-ausente h pid [] e = refl
niveles-ausente h pid (v ∷ vs) e = rw (e 0) (niveles-ausente h pid vs (λ n. e (suc n)))

niveles-hallado :
    (h : ℕ → Pcb) (pid k : ℕ) (vs : List Nivel)
    → ((n : ℕ) → buscar_en h pid (cola_de n vs) ≡ (if n == k then some pid else none))
    → buscar_en_niveles h pid vs ≡ some pid
unfolding buscar_en_niveles buscar_en
niveles-hallado h pid k [] e = let z = e k in absurd (ground arith)
niveles-hallado h pid zero (v ∷ vs) e = rw (e 0) refl
niveles-hallado h pid (suc k) (v ∷ vs) e =
    let z : buscar_en h pid v.cola ≡ none = e 0 ∙ ground arith in
    rw z (niveles-hallado h pid k vs (λ n. e (suc n) ∙ ground arith))

module _ (cfg : InfoConfig) (st : Ks) (v : Coherente cfg st) (pid : ℕ) where
  -- Whether a place holds the process of that PID.
  en : Lugar → Bool
  en l = if ltb pid st.proximo then mismo_lugar l (lugar_de cfg.politica (st.pcbs pid)) else false

  buscar_en-lugar :
      (l : Lugar)
      → buscar_en st.pcbs pid (ocupantes l st.listas st.niveles) ≡ (if en l then some pid else none)
  unfolding en
  buscar_en-lugar l =
      let u = v.ubicados pid l in
      elim (Option-cases (buscar_en st.pcbs pid (ocupantes l st.listas st.niveles))) [
        | inl nada ↦ elim (Bool-cases (ltb pid st.proximo)) [
          | inr fuera ↦ nada ∙ rw fuera refl
          | inl dentro ↦
              let z =
                buscar_en-ausente st.pcbs pid (ocupantes l st.listas st.niveles) pid nada
                  (v.pids pid (ground arith)) in
              nada ∙ ground arith
        ]
        | inr (p, algo) ↦
            let (n, i) = buscar_en-hallado st.pcbs pid (ocupantes l st.listas st.niveles) algo in
            let (d, _) = presente-lugar cfg st p l v n in
            let ig : p ≡ pid = sym (v.pids p d) ∙ i in
            let n' : 0 < veces pid (ocupantes l st.listas st.niveles) =
              subst (λ (k : ℕ). 0 < veces k (ocupantes l st.listas st.niveles)) ig n in
            let d' : pid < st.proximo = subst (λ (k : ℕ). k < st.proximo) ig d in
            algo ∙ ground arith
      ]

  -- The search where the place of the process is known.
  por_lugar :
      (l : Lugar)
      → ltb pid st.proximo ≡ true
      → lugar_de cfg.politica (st.pcbs pid) ≡ l
      → (m : Lugar)
      → buscar_en st.pcbs pid (ocupantes m st.listas st.niveles)
        ≡ (if mismo_lugar m l then some pid else none)
  unfolding en
  por_lugar l d e m = buscar_en-lugar m ∙ rw (d, e) refl

  en_ninguno :
      ltb pid st.proximo ≡ false
      → (m : Lugar) → buscar_en st.pcbs pid (ocupantes m st.listas st.niveles) ≡ none
  unfolding en
  en_ninguno d m = buscar_en-lugar m ∙ rw d refl

  en_cola :
      (pol : Politica) (n : ℕ)
      → cfg.politica ≡ pol
      → ltb pid st.proximo ≡ true
      → lugar_de cfg.politica (st.pcbs pid) ≡ lugar_listo pol n
      → buscar_pcb_por_pid cfg pid st ≡ some pid
  unfolding buscar_pcb_por_pid
  en_cola cmn n c d e =
      let b = por_lugar (nivel n) d e in
      rw
        (
          b (lista new),
          b (lista rdy),
          b (lista rnn),
          b (lista bck),
          b (lista ext),
          b (lista s_bck),
          b (lista s_rdy),
          c,
        )
        (niveles-hallado st.pcbs pid n st.niveles (λ k. b (nivel k)))
  en_cola fifo n c d e = let b = por_lugar (lista rdy) d e in rw (b (lista new), b (lista rdy)) refl
  en_cola rr n c d e = let b = por_lugar (lista rdy) d e in rw (b (lista new), b (lista rdy)) refl
  en_cola otra n c d e = let b = por_lugar (lista rdy) d e in rw (b (lista new), b (lista rdy)) refl

  por_estado :
      (e : Estado) (n : ℕ)
      → ltb pid st.proximo ≡ true
      → lugar_de cfg.politica (st.pcbs pid) ≡ lugar_segun cfg.politica e n
      → buscar_pcb_por_pid cfg pid st ≡ some pid
  unfolding buscar_pcb_por_pid
  por_estado rdy n d e = en_cola cfg.politica n refl d e
  por_estado new n d e = let b = por_lugar (lista new) d e in rw (b (lista new)) refl
  por_estado rnn n d e =
      let b = por_lugar (lista rnn) d e in rw (b (lista new), b (lista rdy), b (lista rnn)) refl
  por_estado bck n d e =
      let b = por_lugar (lista bck) d e in
      rw (b (lista new), b (lista rdy), b (lista rnn), b (lista bck)) refl
  por_estado ext n d e =
      let b = por_lugar (lista ext) d e in
      rw (b (lista new), b (lista rdy), b (lista rnn), b (lista bck), b (lista ext)) refl
  por_estado s_bck n d e =
      let b = por_lugar (lista s_bck) d e in
      rw
        (b (lista new), b (lista rdy), b (lista rnn), b (lista bck), b (lista ext), b (lista s_bck))
        refl
  por_estado s_rdy n d e =
      let b = por_lugar (lista s_rdy) d e in
      rw
        (
          b (lista new),
          b (lista rdy),
          b (lista rnn),
          b (lista bck),
          b (lista ext),
          b (lista s_bck),
          b (lista s_rdy),
        )
        refl
  por_estado no_estado n d e =
      let z : none ≡ some pid = por_lugar (lista no_estado) d e (lista no_estado) in absurd (cc)

  en_ningun_nivel :
      (pol : Politica)
      → ltb pid st.proximo ≡ false
      → (elim pol [ cmn ↦ buscar_en_niveles st.pcbs pid st.niveles | _ ↦ none ]) ≡ none
  en_ningun_nivel cmn d = niveles-ausente st.pcbs pid st.niveles (λ n. en_ninguno d (nivel n))
  en_ningun_nivel fifo d = refl
  en_ningun_nivel rr d = refl
  en_ningun_nivel otra d = refl

  -- While every process stands in the one place of its state, a process is found by its PID exactly when
  -- it was created, whatever its state.
  pub buscar_pcb_por_pid_lem :
      buscar_pcb_por_pid cfg pid st ≡ (if ltb pid st.proximo then some pid else none)
  unfolding buscar_pcb_por_pid
  buscar_pcb_por_pid_lem = elim (Bool-cases (ltb pid st.proximo)) [
    | inl d ↦ por_estado (st.pcbs pid).estado_pcb (st.pcbs pid).prioridad d refl ∙ rw d refl
    | inr d ↦
        let b = en_ninguno d in
        rw
          (
            b (lista new),
            b (lista rdy),
            b (lista rnn),
            b (lista bck),
            b (lista ext),
            b (lista s_bck),
            b (lista s_rdy),
            d,
          )
          (en_ningun_nivel cfg.politica d)
  ]
