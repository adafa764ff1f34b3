-- ===== src/KernelMemory/Suspension/Guardado.antt =====
-- Suspending a process: one of its segments goes to SWAP, and what SWAP holds then.
use tp_so_limpio.Base.{
  ℕ, if◌then◌else◌, zero, suc, ◌+◌, ◌*◌, ◌≤◌, ◌<◌, ◌≡◌, ◌⊎◌, refl, sym, ap, ◌∙◌, subst, inl, inr,
  true, false, Option, none, some, List, [], ◌∷◌, arith, ◌==◌, ◌&&◌, ltb, leb, Bool-cases,
  Option-cases, length, leer_plano, dec_lt, por_monotona,
}
use tp_so_limpio.Commons.{Commons}
use tp_so_limpio.Swap.{Swap, atender_kernel, lectura_bloque}
use tp_so_limpio.Swap.Servidor.{Sano}
use tp_so_limpio.KernelMemory.Fisica.{Fisica}
use tp_so_limpio.KernelMemory.Fisica.Plano.{byte}
use tp_so_limpio.KernelMemory.Estado.{Segmento, Mapa}
use tp_so_limpio.KernelMemory.Particion.{veces}
use tp_so_limpio.KernelMemory.Respaldo.{
  bloques_necesarios, escribir_bloques, escribir_segmento_en_swap, leer_segmento_de_swap,
}
use tp_so_limpio.KernelMemory.Respaldo.Bloques.{Libres, Obtenido}
use tp_so_limpio.KernelMemory.Respaldo.Viaje.{escribir_segmento-Sano, leer_bloques-igual}
use tp_so_limpio.KernelMemory.Suspension.{Sistema, sin_segmento, en_swap_desde}

length-leer_plano :
    (g : ℕ → Option ℕ) (d n : ℕ) (bs : List ℕ) → leer_plano g d n ≡ some bs → length bs ≡ n
length-leer_plano g d zero bs e = let z : [] ≡ bs = cc in ap length (sym z)
length-leer_plano g d (suc n) bs e = elim (Option-cases (g d)) [
  | inl nada ↦ let z : none ≡ some bs = rw nada at e in cc
  | inr (b, hay) ↦ elim (Option-cases (leer_plano g (d + 1) n)) [
    | inl nada ↦ let z : none ≡ some bs = rw (hay, nada) at e in cc
    | inr (xs, resto) ↦
        let z : some (b ∷ xs) ≡ some bs = rw (hay, resto) at e in
        let i : b ∷ xs ≡ bs = cc in
        let n' = length-leer_plano g (d + 1) n xs resto in ap length (sym i) ∙ ap suc n'
  ]
]

-- The segment behind `p` is suspended, its blocks are marked as taken, and they hold the bytes `buf`.
pub record Guardado {c : Commons} (bs total : ℕ) (st : Sistema c) (p : ℕ) (buf : List ℕ)
    : Type 0 where
  pub fuera : (st.mapa.segmentos p).en_swap ≡ true
  pub cabe : (st.mapa.segmentos p).bloque_swap + (st.mapa.segmentos p).cantidad_bloques ≤ total
  pub marcados :
      (j : ℕ)
      → (st.mapa.segmentos p).bloque_swap ≤ j
      → j < (st.mapa.segmentos p).bloque_swap + (st.mapa.segmentos p).cantidad_bloques
      → c.bitarray_test_bit st.bitmap j ≡ true
  pub leible : leer_segmento_de_swap bs (st.mapa.segmentos p) st.swap ≡ some buf

-- SWAP answers, and has all the blocks of the bit map.
pub record EnOrden {c : Commons} (bs total bytes_swap : ℕ) (st : Sistema c) : Type 0 where
  pub modulo : Swap
  pub archivo : List ℕ
  pub conectado : st.swap ≡ some modulo
  pub sano : Sano bs bytes_swap modulo archivo

-- What moving segments to SWAP does there: a segment that goes has its bytes there, and what SWAP held
-- of others stays.
pub record Llevado {c : Commons} (bs total bytes_swap : ℕ) (st st' : Sistema c) : Type 0 where
  pub orden : EnOrden bs total bytes_swap st'
  pub quedan :
      (q : ℕ) → (st'.mapa.segmentos q).en_swap ≡ false → st'.mapa.segmentos q ≡ st.mapa.segmentos q
  pub conserva : (q : ℕ) (buf : List ℕ) → Guardado bs total st q buf → Guardado bs total st' q buf
  pub llegan :
      (q : ℕ)
      → (st.mapa.segmentos q).en_swap ≡ false
      → (st'.mapa.segmentos q).en_swap ≡ true
      → (buf : List ℕ) × (leer_plano
            (byte st.fisica)
            (st.mapa.segmentos q).direccion_base
            (st.mapa.segmentos q).limite
          ≡ some buf)
        × Guardado bs total st' q buf

-- No live resident segment is empty.
abbrev pub SinVacios : Mapa → Type 0
SinVacios m = (q : ℕ) → veces q m ≡ 1 → (m.segmentos q).en_swap ≡ false → 0 < (m.segmentos q).limite

module _ (c : Commons) (bs total bytes_swap : ℕ) (entran : total * bs ≤ bytes_swap) where
  pub Llevado-refl :
      (st : Sistema c) → EnOrden bs total bytes_swap st → Llevado bs total bytes_swap st st
  Llevado-refl st o = record {
    orden = o;
    quedan = λ q h. refl;
    conserva = λ q buf g. g;
    llegan = λ q h k. let z : false ≡ true = sym h ∙ k in cc;
  }

  pub Llevado-trans :
      (a b d : Sistema c)
      → b.fisica ≡ a.fisica
      → Llevado bs total bytes_swap a b
      → Llevado bs total bytes_swap b d
      → Llevado bs total bytes_swap a d
  Llevado-trans a b d fis x y = record {
    orden = y.orden;
    quedan = λ q h.
        let i = y.quedan q h in i ∙ x.quedan q (sym (ap (λ (s : Segmento). s.en_swap) i) ∙ h);
    conserva = λ q buf g. y.conserva q buf (x.conserva q buf g);
    llegan = λ q h k. elim (Bool-cases (b.mapa.segmentos q).en_swap) [
      | inl ya ↦ let (buf, e, g) = x.llegan q h ya in (buf, e, y.conserva q buf g)
      | inr sigue ↦
          let i = x.quedan q sigue in
          let (buf, e, g) = y.llegan q sigue k in
          (
            buf,
            ap (λ (s : Segmento). leer_plano (byte a.fisica) s.direccion_base s.limite) (sym i)
                ∙ ap
                    (λ (f : Fisica).
                      leer_plano (byte f) (b.mapa.segmentos q).direccion_base
                        (b.mapa.segmentos q).limite)
                    (sym fis)
                ∙ e,
            g,
          )
    ];
  }

  -- One segment whose bytes `buf` go to the blocks from `r` on; `s'` is SWAP afterwards.
  module _ (p r : ℕ) (b' : c.Bitarray) (buf : List ℕ) (st : Sistema c) where
    abbrev n : ℕ
    n = bloques_necesarios (st.mapa.segmentos p).limite bs

    abbrev nuevo : Segmento
    nuevo = en_swap_desde r n (st.mapa.segmentos p)

    abbrev llevado : Sistema c
    llevado = record st {
      bitmap = b';
      swap = escribir_bloques bs (st.mapa.segmentos p).limite n buf r 0 n st.swap;
      mapa = sin_segmento c bs total p r n st.mapa;
    }

    -- Exactly its blocks are marked now.
    abbrev Marcado : Type 0
    Marcado =
        (j : ℕ)
        → c.bitarray_test_bit b' j
          ≡ (if leb r j && ltb j (r + n) then true else c.bitarray_test_bit st.bitmap j)

    -- What is said of a segment that stands behind a pointer.
    guardado :
        (q : ℕ) (otro : List ℕ) (x : Segmento) (s' : Swap)
        → llevado.mapa.segmentos q ≡ x
        → llevado.swap ≡ some s'
        → x.en_swap ≡ true
        → x.bloque_swap + x.cantidad_bloques ≤ total
        → ((j : ℕ)
            → x.bloque_swap ≤ j
            → j < x.bloque_swap + x.cantidad_bloques
            → c.bitarray_test_bit b' j ≡ true)
        → leer_segmento_de_swap bs x (some s') ≡ some otro
        → Guardado bs total llevado q otro
    guardado q otro x s' es_x sale fuera cabe marcados lee = record {
      fuera = ap (λ (y : Segmento). y.en_swap) es_x ∙ fuera;
      cabe = subst (λ (y : Segmento). y.bloque_swap + y.cantidad_bloques ≤ total) (sym es_x) cabe;
      marcados =
          subst
            (λ (y : Segmento).
              (j : ℕ)
              → y.bloque_swap ≤ j
              → j < y.bloque_swap + y.cantidad_bloques
              → c.bitarray_test_bit b' j ≡ true)
            (sym es_x) marcados;
      leible =
          ap (λ (y : Segmento). leer_segmento_de_swap bs y llevado.swap) es_x
          ∙ ap (λ (y : Option Swap). leer_segmento_de_swap bs x y) sale
          ∙ lee;
    }

    propio :
        (s' : Swap)
        → llevado.swap ≡ some s'
        → r + n ≤ total
        → Marcado
        → leer_segmento_de_swap bs nuevo (some s') ≡ some buf
        → Guardado bs total llevado p buf
    propio s' sale cabe marca lee =
        let mismo : (p == p) ≡ true = ground arith in
        guardado p buf nuevo s' (rw mismo refl) sale refl cabe
          (λ j d h. let u : (leb r j && ltb j (r + n)) ≡ true = ground arith in marca j ∙ rw u refl)
          lee

    -- Blocks that are marked are none of those that were free.
    lejos :
        (x : Segmento)
        → Libres c st.bitmap r n
        → ((j : ℕ)
            → x.bloque_swap ≤ j
            → j < x.bloque_swap + x.cantidad_bloques
            → c.bitarray_test_bit st.bitmap j ≡ true)
        → (d : ℕ) → x.bloque_swap ≤ d
        → d < x.bloque_swap + x.cantidad_bloques
        → (d < r) ⊎ (r + n ≤ d)
    lejos x libres marcados d a k = elim (dec_lt d r) [
      | yes y ↦ inl y
      | no y ↦ elim (dec_lt d (r + n)) [
        | no w ↦ inr (omega arith)
        | yes w ↦ let z : true ≡ false = sym (marcados d a k) ∙ libres d (omega arith) w in cc
      ]
    ]

    ajeno :
        (q : ℕ) (otro : List ℕ) (s s' : Swap)
        → (p == q) ≡ false
        → st.swap ≡ some s
        → llevado.swap ≡ some s'
        → Libres c st.bitmap r n
        → Marcado
        → ((d : ℕ)
            → d * bs + bs ≤ bytes_swap
            → (d < r) ⊎ (r + n ≤ d)
            → (atender_kernel s' (lectura_bloque d)).1 ≡ (atender_kernel s (lectura_bloque d)).1)
        → Guardado bs total st q otro
        → Guardado bs total llevado q otro
    unfolding leer_segmento_de_swap
    ajeno q otro s s' t conectado sale libres marca otros g =
        let x = st.mapa.segmentos q in
        let leidos : leer_segmento_de_swap bs x (some s') ≡ leer_segmento_de_swap bs x (some s) =
          leer_bloques-igual bs s s' x.cantidad_bloques x.bloque_swap x.limite (λ d a k.
            let m = por_monotona (d + 1) total bs (let h = g.cabe in omega arith) in
            let w : (d + 1) * bs ≡ d * bs + bs = grind arith in
            otros d (omega arith) (lejos x libres g.marcados d a k)) in
        guardado q otro x s' (rw t refl) sale g.fuera g.cabe
          (λ j a k. elim (Bool-cases (leb r j && ltb j (r + n))) [
            | inl u ↦ marca j ∙ rw u refl
            | inr u ↦ marca j ∙ rw u (g.marcados j a k)
          ])
          (leidos
            ∙ ap (λ (y : Option Swap). leer_segmento_de_swap bs x y) (sym conectado)
            ∙ g.leible)

    pub llevar :
        EnOrden bs total bytes_swap st
        → Obtenido c total st.bitmap n (some (r, b'))
        → (st.mapa.segmentos p).en_swap ≡ false
        → leer_plano
            (byte st.fisica)
            (st.mapa.segmentos p).direccion_base
            (st.mapa.segmentos p).limite
          ≡ some buf
        → Llevado bs total bytes_swap st llevado
    unfolding escribir_segmento_en_swap
    llevar o (cabe, libres, _, marca) ram bytes_p =
        let seg = st.mapa.segmentos p in
        let tope = por_monotona (r + n) total bs cabe in
        let (s', archivo', e, v', lee, otros) =
          escribir_segmento-Sano bs bytes_swap nuevo buf o.modulo o.archivo o.sano refl
            (omega arith)
            (length-leer_plano (byte st.fisica) seg.direccion_base seg.limite buf bytes_p) in
        let sale : llevado.swap ≡ some s' =
          ap (λ (x : Option Swap). escribir_bloques bs seg.limite n buf r 0 n x) o.conectado ∙ e in
        record {
          orden = record { modulo = s'; archivo = archivo'; conectado = sale; sano = v' };
          quedan = λ q h. elim (Bool-cases (p == q)) [
            | inl t ↦ let z : true ≡ false = rw t at h in cc
            | inr t ↦ rw t refl
          ];
          conserva = λ q otro g. elim (Bool-cases (p == q)) [
            | inr t ↦ ajeno q otro o.modulo s' t o.conectado sale libres marca otros g
            | inl t ↦
                let i : p ≡ q = ground arith in
                let z : true ≡ false =
                  sym g.fuera ∙ ap (λ k. (st.mapa.segmentos k).en_swap) (sym i) ∙ ram in
                cc
          ];
          llegan = λ q h k. elim (Bool-cases (p == q)) [
            | inr t ↦
                let z : (st.mapa.segmentos q).en_swap ≡ true = rw t at k in
                let y : false ≡ true = sym h ∙ z in cc
            | inl t ↦
                let i : p ≡ q = ground arith in
                subst
                  (λ (y : ℕ).
                    (otro : List ℕ) × (leer_plano (byte st.fisica)
                        (st.mapa.segmentos y).direccion_base (st.mapa.segmentos y).limite
                      ≡ some otro)
                    × Guardado bs total llevado y otro)
                  i (buf, bytes_p, propio s' sale cabe marca lee)
          ];
        }
