-- ===== src/KernelMemory/Compactacion/Contenido.antt =====
-- Compaction moves every resident segment with its bytes.
use tp_so_limpio.Base.{
  ℕ, zero, suc, ◌+◌, ◌-◌, ◌≤◌, ◌<◌, ◌≡◌, ◌≢◌, refl, ap, ◌∙◌, sym, inl, inr, true, false, Option,
  some, List, [], ◌∷◌, arith, ltb, leb, ◌==◌, ◌&&◌, Bool-cases, suma, All, All-map, All-zip, add32,
  length, leer_plano, leer_plano-ext, leer_plano-eq, subst, take-length, get_elem?-some,
}
use tp_so_limpio.KernelMemory.Fisica.{Fisica, leer_bytes_globales, escribir_bytes_globales}
use tp_so_limpio.KernelMemory.Fisica.Plano.{Coherente, byte}
use tp_so_limpio.KernelMemory.Fisica.Lectura.{leer_bytes_globales_lem}
use tp_so_limpio.KernelMemory.Fisica.Escritura.{Mapeado, escribir_bytes_globales-Escrito}
use tp_so_limpio.KernelMemory.Estado.{Segmento}
use tp_so_limpio.KernelMemory.Estado.Sumas.{es}
use tp_so_limpio.KernelMemory.Compactacion.{mudar, mudar_todos}
use tp_so_limpio.KernelMemory.Compactacion.Mudanza.{mudar-base, mudar-MismoSegmento}

-- The bytes of a segment, as the flat memory holds them.
abbrev pub contenido : Fisica → Segmento → Option (List ℕ)
contenido f s = leer_plano (byte f) s.direccion_base s.limite

-- A range with all its bytes can be read, and gives as many.
leer_plano-Mapeado :
    (f : Fisica) (d n : ℕ)
    → Mapeado f d n
    → (bs : List ℕ) × (leer_plano (byte f) d n ≡ some bs) × (length bs ≡ n)
leer_plano-Mapeado f d zero m = ([], refl, refl)
leer_plano-Mapeado f d (suc n) m =
    let (b, e) = m d (omega arith) (omega arith) in
    let (bs, r, l) = leer_plano-Mapeado f (d + 1) n (λ x h k. m x (omega arith) (omega arith)) in
    (b ∷ bs, rw (e, r), ap suc l)

-- What moving one segment down does to the flat memory.
record Movido (total : ℕ) (f g : Fisica) (viejo nuevo n : ℕ) : Type 0 where
  coherente : Coherente total g
  mapeado : Mapeado g 0 total
  mismos_bytes : leer_plano (byte g) nuevo n ≡ leer_plano (byte f) viejo n
  debajo : (x : ℕ) → x < nuevo → byte g x ≡ byte f x
  encima : (x : ℕ) → nuevo + n ≤ x → byte g x ≡ byte f x

mover-Movido :
    (total : ℕ) (f : Fisica) (viejo nuevo n : ℕ) (bs : List ℕ)
    → Coherente total f
    → Mapeado f 0 total
    → nuevo + n ≤ total
    → leer_plano (byte f) viejo n ≡ some bs
    → length bs ≡ n
    → Movido total f (escribir_bytes_globales f nuevo bs) viejo nuevo n
mover-Movido total f viejo nuevo n bs coh mapa cabe leido largo =
    let w =
      escribir_bytes_globales-Escrito total f nuevo bs coh
        (λ x h k. mapa x (omega arith) (omega arith)) in
    let g = escribir_bytes_globales f nuevo bs in
    record {
      coherente = w.coherente;
      mapeado = λ x h k. elim (Bool-cases (leb nuevo x && ltb x (nuevo + length bs))) [
        | inl t ↦
            let (b, e) = get_elem?-some bs (x - nuevo) (ground arith) in (b, w.bytes x ∙ rw t e)
        | inr t ↦ let (b, e) = mapa x h k in (b, w.bytes x ∙ rw t e)
      ];
      mismos_bytes =
          subst (λ k. leer_plano (byte g) nuevo k ≡ some bs) largo
            (leer_plano-eq (byte g) nuevo (length bs) 0 bs (omega arith) (λ k hk.
                let t : (leb nuevo (nuevo + k) && ltb (nuevo + k) (nuevo + length bs)) ≡ true =
                  ground arith in
                let i : nuevo + k - nuevo ≡ 0 + k = omega arith in w.bytes (nuevo + k) ∙ rw (t, i))
              ∙ ap some (take-length bs))
          ∙ sym leido;
      debajo = λ x h.
          let t : (leb nuevo x && ltb x (nuevo + length bs)) ≡ false = ground arith in
          w.bytes x ∙ rw t;
      encima = λ x h.
          let t : (leb nuevo x && ltb x (nuevo + length bs)) ≡ false = ground arith in
          w.bytes x ∙ rw t;
    }

mudar-Movido :
    (total : ℕ) (f : Fisica) (h : ℕ → Segmento) (p proxima : ℕ)
    → Coherente total f
    → Mapeado f 0 total
    → proxima ≤ (h p).direccion_base
    → (h p).direccion_base + (h p).limite ≤ total
    → Movido total f (mudar f h p proxima).0 (h p).direccion_base proxima (h p).limite
unfolding mudar
mudar-Movido total f h p proxima coh mapa baja cabe =
    elim (Bool-cases ((h p).direccion_base == proxima)) [
      | inl t ↦
          let e : (h p).direccion_base ≡ proxima = ground arith in
          rw t (record {
            coherente = coh;
            mapeado = mapa;
            mismos_bytes = ap (λ d. leer_plano (byte f) d (h p).limite) (sym e);
            debajo = λ x k. refl;
            encima = λ x k. refl;
          })
      | inr t ↦
          let (bs, leido, largo) =
            leer_plano-Mapeado f (h p).direccion_base (h p).limite
              (λ x a b. mapa x (omega arith) (omega arith)) in
          let lee : leer_bytes_globales f (h p).direccion_base (h p).limite ≡ some bs =
            leer_bytes_globales_lem total f coh (h p).direccion_base (h p).limite ∙ leido in
          rw (t, lee)
            (mover-Movido total f (h p).direccion_base proxima (h p).limite bs coh mapa
              (omega arith) leido largo)
    ]

-- Each segment ends before the later ones begin.
abbrev pub Separados : (ℕ → Segmento) → List ℕ → Type 0
Separados h [] = Unit
Separados h (p ∷ ps) =
    All (λ q. (h p).direccion_base + (h p).limite ≤ (h q).direccion_base) ps × Separados h ps

-- A fact about the members of a list in which `p` does not stand is one about others than `p`.
All-ajeno :
    (P : ℕ → Type 0) (p : ℕ) (ps : List ℕ)
    → suma (es p) ps ≡ 0
    → All P ps
    → All (λ q. P q × (p ≢ q)) ps
All-ajeno P p [] e v = tt
All-ajeno P p (q ∷ ps) e v = ((v.0, λ i. ground arith), All-ajeno P p ps (ground arith) v.1)

Separados-cambio :
    (h k : ℕ → Segmento) (ps : List ℕ)
    → All (λ q. ((h q).direccion_base ≡ (k q).direccion_base) × ((h q).limite ≡ (k q).limite)) ps
    → Separados h ps
    → Separados k ps
Separados-cambio h k [] e s = tt
Separados-cambio h k (p ∷ ps) e s = (junta p ps e.0 e.1 s.0, Separados-cambio h k ps e.1 s.1)
  where
    junta :
        (p : ℕ) (ps : List ℕ)
        → ((h p).direccion_base ≡ (k p).direccion_base) × ((h p).limite ≡ (k p).limite)
        → All
            (λ q. ((h q).direccion_base ≡ (k q).direccion_base) × ((h q).limite ≡ (k q).limite))
            ps
        → All (λ q. (h p).direccion_base + (h p).limite ≤ (h q).direccion_base) ps
        → All (λ q. (k p).direccion_base + (k p).limite ≤ (k q).direccion_base) ps
    junta p [] e es s = tt
    junta p (q ∷ ps) e es s = (omega (arith, e, es.0), junta p ps e es.1 s.1)

-- The state after the loop: every segment of the list has the bytes that it had, and nothing below
-- the first new base has changed.
pub record Trasladado (total : ℕ) (f g : Fisica) (h k : ℕ → Segmento) (proxima : ℕ) (ps : List ℕ)
    : Type 0 where
  pub coherente : Coherente total g
  pub contenidos : All (λ q. contenido g (k q) ≡ contenido f (h q)) ps
  pub debajo : (x : ℕ) → x < proxima → byte g x ≡ byte f x

-- A segment that is not in the list stays where it is.
mudar_todos-ajeno :
    (f : Fisica) (h : ℕ → Segmento) (proxima : ℕ) (ps : List ℕ) (p : ℕ)
    → suma (es p) ps ≡ 0
    → let k = (mudar_todos f h proxima ps).1 in
      ((k p).direccion_base ≡ (h p).direccion_base) × ((k p).limite ≡ (h p).limite)
unfolding mudar_todos
mudar_todos-ajeno f h proxima [] p e = (refl, refl)
mudar_todos-ajeno f h proxima (q ∷ ps) p e =
    let (otro, resto) : ((q == p) ≡ false) × (suma (es p) ps ≡ 0) = (ground arith, ground arith) in
    let r =
      mudar_todos-ajeno (mudar f h q proxima).0 (mudar f h q proxima).1
        (add32 proxima ((mudar f h q proxima).1 q).limite) ps p resto in
    (
      r.0 ∙ mudar-base f h q proxima p ∙ rw otro,
      r.1 ∙ (mudar-MismoSegmento f h q proxima p).mismo_limite,
    )

-- The same bytes in a range that two memories agree on.
contenido-ext :
    (f g : Fisica) (s t : Segmento)
    → t.direccion_base ≡ s.direccion_base
    → t.limite ≡ s.limite
    → ((x : ℕ) → s.direccion_base ≤ x → x < s.direccion_base + s.limite → byte g x ≡ byte f x)
    → contenido g t ≡ contenido f s
contenido-ext f g s t base limite mismos =
    ap (λ d. leer_plano (byte g) d t.limite) base
    ∙ ap (leer_plano (byte g) s.direccion_base) limite
    ∙ leer_plano-ext (byte g) (byte f) s.direccion_base s.direccion_base s.limite
        (λ k h. mismos (s.direccion_base + k) (omega arith) (omega arith))

module _ (total : ℕ) where
  pub mudar_todos-Trasladado :
      (f : Fisica) (h : ℕ → Segmento) (proxima : ℕ) (ps : List ℕ)
      → Coherente total f
      → Mapeado f 0 total
      → ((q : ℕ) → suma (es q) ps ≤ 1)
      → All (λ q. proxima ≤ (h q).direccion_base) ps
      → All (λ q. (h q).direccion_base + (h q).limite ≤ total) ps
      → Separados h ps
      → Trasladado total f
          (mudar_todos f h proxima ps).0
          h
          (mudar_todos f h proxima ps).1
          proxima
          ps
  unfolding mudar_todos
  mudar_todos-Trasladado f h proxima [] coh mapa una bajan caben sep = record {
    coherente = coh;
    contenidos = tt;
    debajo = λ x k. refl;
  }
  mudar_todos-Trasladado f h proxima (p ∷ ps) coh mapa una bajan caben sep =
      let lim = coh.limite in
      let f1 = (mudar f h p proxima).0 in
      let h1 = (mudar f h p proxima).1 in
      let mv = mudar-Movido total f h p proxima coh mapa bajan.0 caben.0 in
      let lp = (mudar-MismoSegmento f h p proxima p).mismo_limite in
      let sig : add32 proxima (h1 p).limite ≡ proxima + (h p).limite = omega arith in
      let fuera : suma (es p) ps ≡ 0 =
        let k = una p in let s : (p == p) ≡ true = ground arith in ground arith in
      let quietos : All
          (λ q. ((h q).direccion_base ≡ (h1 q).direccion_base) × ((h q).limite ≡ (h1 q).limite))
          ps =
        All-map (λ q. (proxima ≤ (h q).direccion_base) × (p ≢ q)) _ ps
          (λ q d.
            let t : (p == q) ≡ false = ground arith in
            (
              sym (mudar-base f h p proxima q ∙ rw t),
              sym (mudar-MismoSegmento f h p proxima q).mismo_limite,
            ))
          (All-ajeno _ p ps fuera bajan.1) in
      let r =
        mudar_todos-Trasladado f1 h1 (add32 proxima (h1 p).limite) ps mv.coherente mv.mapeado
          (λ q. let k = una q in omega arith)
          (All-zip _ _ (λ q. add32 proxima (h1 p).limite ≤ (h1 q).direccion_base) ps
            (λ q e s. omega (arith, sig)) quietos sep.0)
          (All-zip _ _ (λ q. (h1 q).direccion_base + (h1 q).limite ≤ total) ps
            (λ q e s. omega arith) quietos caben.1)
          (Separados-cambio h h1 ps quietos sep.1) in
      let (kp, kl) = mudar_todos-ajeno f1 h1 (add32 proxima (h1 p).limite) ps p fuera in
      let en_p : (p == p) ≡ true = ground arith in
      let base_p : (h1 p).direccion_base ≡ proxima = mudar-base f h p proxima p ∙ rw en_p in
      let g = (mudar_todos f1 h1 (add32 proxima (h1 p).limite) ps).0 in
      let aca : Segmento = record (h p) { direccion_base = proxima } in
      record {
        coherente = r.coherente;
        contenidos = (
          contenido-ext f1 g aca ((mudar_todos f1 h1 (add32 proxima (h1 p).limite) ps).1 p)
                (kp ∙ base_p) (kl ∙ lp) (λ x a b. r.debajo x (omega (arith, sig)))
              ∙ mv.mismos_bytes,
          All-zip _ _ _ ps (λ q ig d. ig ∙ d) r.contenidos
              (All-zip _ _ (λ q. contenido f1 (h1 q) ≡ contenido f (h q)) ps
                (λ q e s.
                  contenido-ext f f1 (h q) (h1 q) (sym e.0) (sym e.1)
                    (λ x a b. mv.encima x (omega arith)))
                quietos sep.0),
        );
        debajo = λ x k. r.debajo x (omega (arith, sig)) ∙ mv.debajo x k;
      }
