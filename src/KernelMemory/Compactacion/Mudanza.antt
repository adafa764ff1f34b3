-- ===== src/KernelMemory/Compactacion/Mudanza.antt =====
-- The loop that moves the segments: what it does to the store, and to the accounts.
use tp_so_limpio.Base.{
  ℕ, ◌+◌, ◌≤◌, ◌<◌, ◌^◌, ◌≡◌, refl, ◌∙◌, inl, inr, true, false, List, [], ◌∷◌, arith, ◌==◌,
  if◌then◌else◌, Bool-cases, suma, add32,
}
use tp_so_limpio.KernelMemory.Huecos.Cobertura.{dentro}
use tp_so_limpio.KernelMemory.Fisica.{Fisica}
use tp_so_limpio.KernelMemory.Estado.{Segmento}
use tp_so_limpio.KernelMemory.Estado.Sumas.{es}
use tp_so_limpio.KernelMemory.Compactacion.{mudar, mudar_todos}

-- What a segment keeps while it moves.
pub record MismoSegmento (s t : Segmento) : Type 0 where
  pub mismo_limite : t.limite ≡ s.limite
  pub mismo_en_swap : t.en_swap ≡ s.en_swap
  pub mismo_id : t.id_segmento ≡ s.id_segmento
  pub mismo_bloque : t.bloque_swap ≡ s.bloque_swap
  pub mismos_bloques : t.cantidad_bloques ≡ s.cantidad_bloques

-- The store after `p` is moved, whether or not its base was there already.
pub mudar-base :
    (f : Fisica) (h : ℕ → Segmento) (p proxima q : ℕ)
    → ((mudar f h p proxima).1 q).direccion_base
      ≡ (if p == q then proxima else (h q).direccion_base)
unfolding mudar
mudar-base f h p proxima q = ground arith

pub mudar-MismoSegmento :
    (f : Fisica) (h : ℕ → Segmento) (p proxima q : ℕ)
    → MismoSegmento (h q) ((mudar f h p proxima).1 q)
unfolding mudar
mudar-MismoSegmento f h p proxima q = record {
  mismo_limite = ground arith;
  mismo_en_swap = ground arith;
  mismo_id = ground arith;
  mismo_bloque = ground arith;
  mismos_bloques = ground arith;
}

MismoSegmento-trans : (s t u : Segmento) → MismoSegmento s t → MismoSegmento t u → MismoSegmento s u
MismoSegmento-trans s t u a b = record {
  mismo_limite = b.mismo_limite ∙ a.mismo_limite;
  mismo_en_swap = b.mismo_en_swap ∙ a.mismo_en_swap;
  mismo_id = b.mismo_id ∙ a.mismo_id;
  mismo_bloque = b.mismo_bloque ∙ a.mismo_bloque;
  mismos_bloques = b.mismos_bloques ∙ a.mismos_bloques;
}

MismoSegmento-refl : (s : Segmento) → MismoSegmento s s
MismoSegmento-refl s = record {
  mismo_limite = refl;
  mismo_en_swap = refl;
  mismo_id = refl;
  mismo_bloque = refl;
  mismos_bloques = refl;
}

-- The bytes of a list of segments.
abbrev pub bytes_residentes : (ℕ → Segmento) → List ℕ → ℕ
bytes_residentes h = suma (λ p. (h p).limite)

-- What the loop does to the store `h`, from address `proxima` on.
pub record Mudado (h : ℕ → Segmento) (proxima : ℕ) (ps : List ℕ) (h' : ℕ → Segmento) (fin : ℕ)
    : Type 0 where
  pub llega : fin ≡ proxima + bytes_residentes h ps
  pub conserva : (q : ℕ) → MismoSegmento (h q) (h' q)
  pub ajenos : (q : ℕ) → suma (es q) ps ≡ 0 → (h' q).direccion_base ≡ (h q).direccion_base
  pub seguidos :
      (x : ℕ)
      → suma (λ p. dentro (h' p).direccion_base (h' p).limite x) ps
        ≡ dentro proxima (bytes_residentes h ps) x
  pub caben : (q : ℕ) → 1 ≤ suma (es q) ps → (h' q).direccion_base + (h' q).limite ≤ fin

pub bytes_residentes-Mismo :
    (h h' : ℕ → Segmento) (ps : List ℕ)
    → ((q : ℕ) → MismoSegmento (h q) (h' q))
    → bytes_residentes h' ps ≡ bytes_residentes h ps
bytes_residentes-Mismo h h' [] k = refl
bytes_residentes-Mismo h h' (p ∷ ps) k =
    omega (arith, (k p).mismo_limite, bytes_residentes-Mismo h h' ps k)

pub mudar_todos-Mudado :
    (f : Fisica) (h : ℕ → Segmento) (proxima : ℕ) (ps : List ℕ)
    → ((q : ℕ) → suma (es q) ps ≤ 1)
    → proxima + bytes_residentes h ps < 2 ^ 32
    → Mudado h proxima ps (mudar_todos f h proxima ps).1 (mudar_todos f h proxima ps).2
unfolding mudar_todos
mudar_todos-Mudado f h proxima [] una lim = record {
  llega = omega arith;
  conserva = λ q. MismoSegmento-refl (h q);
  ajenos = λ q e. refl;
  seguidos = λ x. ground arith;
  caben = λ q e. absurd (omega arith);
}
mudar_todos-Mudado f h proxima (p ∷ ps) una lim =
    let f1 = (mudar f h p proxima).0 in
    let h1 = (mudar f h p proxima).1 in
    let mismo = mudar-MismoSegmento f h p proxima in
    let misma_suma = bytes_residentes-Mismo h h1 ps mismo in
    let lp = (mismo p).mismo_limite in
    let sig : add32 proxima (h1 p).limite ≡ proxima + (h p).limite = omega arith in
    let fuera : suma (es p) ps ≡ 0 =
      let k = una p in let s : (p == p) ≡ true = ground arith in ground arith in
    let r =
      mudar_todos-Mudado f1 h1 (add32 proxima (h1 p).limite) ps (λ q. let k = una q in omega arith)
        (omega arith) in
    let base_p = mudar-base f h p proxima p in
    let base_fin = r.ajenos p fuera in
    let limite_fin = (r.conserva p).mismo_limite in
    let en_p : (p == p) ≡ true = ground arith in
    let aqui : ((mudar_todos f1 h1 (add32 proxima (h1 p).limite) ps).1 p).direccion_base ≡ proxima =
      base_fin ∙ base_p ∙ rw en_p in
    record {
      llega = omega (arith, r.llega);
      conserva = λ q. MismoSegmento-trans _ _ _ (mismo q) (r.conserva q);
      ajenos = λ q e.
          let (a, b) : (suma (es q) ps ≡ 0) × ((p == q) ≡ false) = (ground arith, ground arith) in
          r.ajenos q a ∙ mudar-base f h p proxima q ∙ rw b;
      seguidos = λ x.
          let resto = rw sig at (r.seguidos x) in
          ground (arith, resto, aqui, limite_fin, lp, misma_suma);
      caben = λ q e. elim (Bool-cases (p == q)) [
        | inl t ↦
            let igual : p ≡ q = ground arith in
            rw (← igual) (omega (arith, aqui, limite_fin, lp, r.llega, sig))
        | inr t ↦ r.caben q (ground arith)
      ];
    }
