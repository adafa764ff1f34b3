-- ===== src/KernelMemory/Suspension/Ida.antt =====
-- Suspending a process: what moving its segments to SWAP leaves of the memory map.
use tp_so_limpio.Base.{
  ℕ, zero, suc, ◌+◌, ◌≤◌, ◌<◌, ◌≡◌, refl, ap, ◌∙◌, inl, inr, true, false, Bool, Option, some, List,
  [], ◌∷◌, arith, ◌==◌, ◌&&◌, Bool-cases, Option-cases, All, suma, leer_plano,
}
use tp_so_limpio.Commons.{Commons}
use tp_so_limpio.KernelMemory.Fisica.{Fisica}
use tp_so_limpio.KernelMemory.Fisica.Plano.{Coherente, byte}
use tp_so_limpio.KernelMemory.Fisica.Lectura.{leer_bytes_globales_lem}
use tp_so_limpio.KernelMemory.Estado.{Contexto, Mapa, buscar_contexto, suma_tablas}
use tp_so_limpio.KernelMemory.Estado.Sumas.{es}
use tp_so_limpio.KernelMemory.Particion.{Particion, Particion-suspender, veces}
use tp_so_limpio.KernelMemory.Respaldo.{
  bloques_necesarios, escribir_bloques, obtener_n_bloques_libres,
}
use tp_so_limpio.KernelMemory.Suspension.{
  Sistema, mover_segmento_a_swap, mover_segmentos, suspender_proceso, sin_segmento,
}

-- Every address of the memory has a byte: its stick is connected.
abbrev pub Legible : ℕ → Fisica → Type 0
Legible total f = (x : ℕ) → x < total → (b : ℕ) × (byte f x ≡ some b)

pub leer_plano-Legible :
    (g : ℕ → Option ℕ) (d n total : ℕ)
    → ((x : ℕ) → x < total → (b : ℕ) × (g x ≡ some b))
    → d + n ≤ total
    → (bs : List ℕ) × (leer_plano g d n ≡ some bs)
leer_plano-Legible g d zero total h k = ([], refl)
leer_plano-Legible g d (suc n) total h k =
    let (b, e) = h d (omega arith) in
    let (bs, e') = leer_plano-Legible g (d + 1) n total h (omega arith) in (b ∷ bs, rw (e, e'))

-- A pointer that stands in the table of a context stands in the tables.
pub tabla-veces :
    (cs : List Contexto) (pid p : ℕ) (ctx : Contexto)
    → buscar_contexto cs pid ≡ some ctx
    → suma (es p) ctx.tabla_segmentos ≤ suma_tablas (es p) cs
unfolding buscar_contexto
tabla-veces [] pid p ctx e = cc
tabla-veces (d ∷ cs) pid p ctx e = elim (Bool-cases (d.pid == pid)) [
  | inl x ↦
      let igual : some d ≡ some ctx = rw x at e in
      let i : d ≡ ctx = cc in
      let k : d.tabla_segmentos ≡ ctx.tabla_segmentos =
        ap (λ (z : Contexto). z.tabla_segmentos) i in
      rw (← k) (omega arith)
  | inr x ↦ omega (arith, tabla-veces cs pid p ctx (rw x at e))
]

pub tabla-una_vez :
    (m : Mapa) (ps : List ℕ)
    → Particion m
    → ((p : ℕ) → suma (es p) ps ≤ veces p m)
    → All (λ p. veces p m ≡ 1) ps
tabla-una_vez m [] v h = tt
tabla-una_vez m (p ∷ ps) v h =
    let mismo : (p == p) ≡ true = ground arith in
    (ground (arith, h p, v.sin_compartir p), tabla-una_vez m ps v (λ q. omega (arith, h q)))

-- What moving segments leaves: the memory is tiled and the physical memory untouched, the tables are
-- the same, and no segment has come back.
pub record Suspendido {c : Commons} (st st' : Sistema c) : Type 0 where
  pub tejado : Particion st'.mapa
  pub fisica_igual : st'.fisica ≡ st.fisica
  pub contextos : st'.mapa.lista_contextos ≡ st.mapa.lista_contextos
  pub total_igual : st'.mapa.memoria_total_sistema ≡ st.mapa.memoria_total_sistema
  pub siguen :
      (q : ℕ) → (st.mapa.segmentos q).en_swap ≡ true → (st'.mapa.segmentos q).en_swap ≡ true

pub Suspendido-refl : {c : Commons} (st : Sistema c) → Particion st.mapa → Suspendido st st
Suspendido-refl st v = record {
  tejado = v;
  fisica_igual = refl;
  contextos = refl;
  total_igual = refl;
  siguen = λ q h. h;
}

Suspendido-trans :
    {c : Commons} (a b d : Sistema c) → Suspendido a b → Suspendido b d → Suspendido a d
Suspendido-trans a b d x y = record {
  tejado = y.tejado;
  fisica_igual = y.fisica_igual ∙ x.fisica_igual;
  contextos = y.contextos ∙ x.contextos;
  total_igual = y.total_igual ∙ x.total_igual;
  siguen = λ q h. y.siguen q (x.siguen q h);
}

module _ (c : Commons) (bs total : ℕ) where
  -- One segment: it answers, and what it answers says whether the segment is in SWAP now.
  pub mover-Suspendido :
      (p : ℕ) (st : Sistema c)
      → Particion st.mapa
      → veces p st.mapa ≡ 1
      → (st.mapa.segmentos p).en_swap ≡ false
      → Coherente st.mapa.memoria_total_sistema st.fisica
      → Legible st.mapa.memoria_total_sistema st.fisica
      → (r : Bool × Sistema c) × (mover_segmento_a_swap c bs total p st ≡ some r)
        × Suspendido st r.1
        × (r.0 ≡ true → (r.1.mapa.segmentos p).en_swap ≡ true)
  unfolding mover_segmento_a_swap
  mover-Suspendido p st v uno ram coh leg =
      let seg = st.mapa.segmentos p in
      let n = bloques_necesarios seg.limite bs in
      elim (Option-cases (obtener_n_bloques_libres c st.bitmap total n)) [
        | inl lleno ↦
            ((false, st), rw (lleno, mover_segmento_a_swap) refl, Suspendido-refl st v, λ e. cc)
        | inr (r, hay) ↦
            let (buf, e) =
              leer_plano-Legible (byte st.fisica) seg.direccion_base seg.limite
                st.mapa.memoria_total_sistema leg (v.segmentos_en_rango p uno ram) in
            let leido =
              leer_bytes_globales_lem st.mapa.memoria_total_sistema st.fisica coh seg.direccion_base
                seg.limite
              ∙ e in
            let mismo : (p == p) ≡ true = ground arith in
            let st' : Sistema c = record st {
              bitmap = r.1;
              swap = escribir_bloques bs seg.limite n buf r.0 0 n st.swap;
              mapa = sin_segmento c bs total p r.0 n st.mapa;
            } in
            (
              (true, st'),
              rw (hay, leido, mover_segmento_a_swap) refl,
              record {
                tejado = Particion-suspender c st.mapa p _ v uno ram refl;
                fisica_igual = refl;
                contextos = refl;
                total_igual = refl;
                siguen = λ q h. elim (Bool-cases (p == q)) [ inl t ↦ rw t refl | inr t ↦ rw t h ];
              },
              λ k. rw mismo refl,
            )
      ]

  -- The loop answers, and answers true only if every segment of the table is in SWAP.
  pub mover_segmentos-Suspendido :
      (ps : List ℕ) (exito : Bool) (st : Sistema c)
      → Particion st.mapa
      → All (λ p. veces p st.mapa ≡ 1) ps
      → Coherente st.mapa.memoria_total_sistema st.fisica
      → Legible st.mapa.memoria_total_sistema st.fisica
      → (r : Bool × Sistema c) × (mover_segmentos c bs total ps exito st ≡ some r)
        × Suspendido st r.1
        × (r.0 ≡ true → (exito ≡ true) × All (λ p. (r.1.mapa.segmentos p).en_swap ≡ true) ps)
  unfolding mover_segmentos
  mover_segmentos-Suspendido [] exito st v unos coh leg =
      ((exito, st), refl, Suspendido-refl st v, λ e. (e, tt))
  mover_segmentos-Suspendido (p ∷ ps) exito st v unos coh leg =
      elim (Bool-cases (st.mapa.segmentos p).en_swap) [
        | inl ya ↦
            let (r, e, mov, fin) = mover_segmentos-Suspendido ps exito st v unos.1 coh leg in
            (r, rw (ya, mover_segmentos) e, mov, λ k. ((fin k).0, (mov.siguen p ya, (fin k).1)))
        | inr ram ↦
            let (a, e, mov, dentro) = mover-Suspendido p st v unos.0 ram coh leg in
            let ct = mov.contextos in
            let tot = mov.total_igual in
            let fis = mov.fisica_igual in
            let (r, e', mov', fin) =
              mover_segmentos-Suspendido ps (exito && a.0) a.1 mov.tejado (rw ct unos.1)
                (rw (tot, fis) coh) (rw (tot, fis) leg) in
            (
              r,
              rw (ram, e, mover_segmentos) e',
              Suspendido-trans st a.1 r.1 mov mov',
              λ k.
                  let (ambos, resto) = fin k in
                  let (ex, el) : (exito ≡ true) × (a.0 ≡ true) = ground arith in
                  (ex, (mov'.siguen p (dentro el), resto)),
            )
      ]

  -- While the memory is tiled and all its sticks are connected, suspending a process that has a
  -- context returns; the memory stays tiled and its bytes as they are, and the answer is true only if
  -- every segment of the process is marked as one in SWAP.
  pub suspender_proceso-Suspendido :
      (pid : ℕ) (st : Sistema c) (ctx : Contexto)
      → Particion st.mapa
      → Coherente st.mapa.memoria_total_sistema st.fisica
      → Legible st.mapa.memoria_total_sistema st.fisica
      → buscar_contexto st.mapa.lista_contextos pid ≡ some ctx
      → (r : Bool × Sistema c) × (suspender_proceso c bs total pid st ≡ some r)
        × Suspendido st r.1
        × (r.0 ≡ true → All (λ p. (r.1.mapa.segmentos p).en_swap ≡ true) ctx.tabla_segmentos)
  unfolding suspender_proceso
  suspender_proceso-Suspendido pid st ctx v coh leg hay =
      let unos =
        tabla-una_vez st.mapa ctx.tabla_segmentos v
          (λ p. tabla-veces st.mapa.lista_contextos pid p ctx hay) in
      let (r, e, mov, fin) =
        mover_segmentos-Suspendido ctx.tabla_segmentos true st v unos coh leg in
      (r, rw (hay, suspender_proceso) e, mov, λ k. (fin k).1)
