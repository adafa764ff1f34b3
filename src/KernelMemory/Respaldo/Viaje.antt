-- ===== src/KernelMemory/Respaldo/Viaje.antt =====
-- A segment that is written to its blocks in SWAP and read back.
use tp_so_limpio.Base.{
  ℕ, zero, suc, ◌+◌, ◌-◌, ◌*◌, ◌/◌, ◌≤◌, ◌<◌, ◌≡◌, ◌⊎◌, refl, sym, ap, ap₂, ◌∙◌, inl, inr, true,
  false, some, List, [], ◌∷◌, ◌++◌, arith, ltb, leb, ◌==◌, ◌&&◌, if◌then◌else◌, Bool-cases, ==_iff,
  length, take, drop, replicate, memcpy, length-memcpy, length-replicate, length-take, length-drop,
  take-length, take-append-take, drop-drop, take-memcpy, por_monotona, subst,
}
use tp_so_limpio.GlobalUtils.{Mensaje, op, buffer, respuesta_datos}
use tp_so_limpio.Swap.{Swap, lectura_bloque, escritura_bloque, atender_kernel}
use tp_so_limpio.Swap.Servidor.{Sano, escritura_lem, Sano-escrito, lectura-escritura}
use tp_so_limpio.KernelMemory.Estado.{Segmento}
use tp_so_limpio.KernelMemory.Respaldo.{
  bloques_necesarios, enviar_a_swap, bloque_data, escribir_bloques, escribir_segmento_en_swap,
  leer_bloques, leer_segmento_de_swap,
}

-- What SWAP answers to a read of a block.
abbrev pub leido : Swap → ℕ → List Mensaje
leido s d = (atender_kernel s (lectura_bloque d)).1

abbrev bloque_leido : List ℕ → List Mensaje
bloque_leido bytes = op respuesta_datos ∷ buffer bytes ∷ []

Sano-atendido :
    (bs total : ℕ) (s : Swap) (bytes : List ℕ) (b : ℕ) (datos : List ℕ)
    → Sano bs total s bytes
    → b * bs + bs ≤ total
    → Sano bs total
        (atender_kernel s (escritura_bloque b datos)).0
        (memcpy bytes (b * bs) (take bs datos))
unfolding atender_kernel
Sano-atendido bs total s bytes b datos v entra =
    subst (λ (r : Swap × List Mensaje). Sano bs total r.0 (memcpy bytes (b * bs) (take bs datos)))
      (sym (escritura_lem bs total s bytes v b datos entra))
      (Sano-escrito bs total s bytes v b (take bs datos))

module _ (bs total limite cantidad : ℕ) (buf : List ℕ) (primero : ℕ) where
  length-bloque_data : (i : ℕ) → length (bloque_data bs limite cantidad buf i) ≡ bs
  length-bloque_data i =
      length-memcpy (replicate bs 0) 0
        (take (if i + 1 == cantidad then limite - i * bs else bs) (drop (i * bs) buf))
      ∙ length-replicate bs 0

  -- The loop writes each of its blocks and no other.
  escribir_bloques_lem :
      (quedan i : ℕ) (s : Swap) (bytes : List ℕ)
      → Sano bs total s bytes
      → (primero + i + quedan) * bs ≤ total
      → (s' : Swap) × (bytes' : List ℕ) × (escribir_bloques bs limite cantidad buf primero i quedan
            (some s)
          ≡ some s')
        × Sano bs total s' bytes'
        × ((d : ℕ)
            → d * bs + bs ≤ total
            → leido s' d ≡ (
                if leb (primero + i) d && ltb d (primero + i + quedan)
                then bloque_leido (bloque_data bs limite cantidad buf (d - primero))
                else leido s d))
  unfolding escribir_bloques enviar_a_swap
  escribir_bloques_lem zero i s bytes v cabe = (
    s,
    bytes,
    refl,
    v,
    λ d h.
        let u : (leb (primero + i) d && ltb d (primero + i + 0)) ≡ false = ground arith in
        rw u refl,
  )
  escribir_bloques_lem (suc q) i s bytes v cabe =
      let b = primero + i in
      let datos = bloque_data bs limite cantidad buf i in
      let entra : b * bs + bs ≤ total = grind arith in
      let s1 = (atender_kernel s (escritura_bloque b datos)).0 in
      let v1 = Sano-atendido bs total s bytes b datos v entra in
      let (s', bytes', e, v', leidos) = escribir_bloques_lem q (i + 1) s1 _ v1 (grind arith) in
      (
        s',
        bytes',
        e,
        v',
        λ d h.
            let uno =
              lectura-escritura bs total s bytes b d datos v entra h (length-bloque_data i) in
            leidos d h ∙ elim (Bool-cases (b == d)) [
              | inl t ↦
                  let mismo : b ≡ d = (==_iff _ _).0 t in
                  let fuera : (leb (primero + (i + 1)) d && ltb d (primero + (i + 1) + q)) ≡ false =
                    ground arith in
                  let dentro_de : (leb b d && ltb d (b + suc q)) ≡ true = ground arith in
                  let lugar : d - primero ≡ i = omega arith in
                  let u : leido s1 d ≡ bloque_leido datos = rw t at uno in
                  rw (fuera, dentro_de, lugar) u
              | inr t ↦
                  let u : leido s1 d ≡ leido s d = rw t at uno in
                  let igual : (leb (primero + (i + 1)) d && ltb d (primero + (i + 1) + q))
                      ≡ (leb b d && ltb d (b + suc q)) =
                    ground arith in
                  rw (igual, u) refl
            ],
      )

  -- How many bytes round `i` copies.
  abbrev trozo : ℕ → ℕ
  trozo i = if i + 1 == cantidad then limite - i * bs else bs

  module _ (justo : limite ≤ cantidad * bs) (lleno : cantidad * bs < limite + bs)
      (largo : length buf ≡ limite) where
    -- What round `i` copies is what is left, up to a block; `quedan` is what it leaves.
    trozo_lem :
        (i : ℕ)
        → i < cantidad
        → (trozo i + i * bs ≤ limite)
          × (trozo i ≤ bs)
          × ((if ltb (limite - i * bs) bs then limite - i * bs else bs) ≡ trozo i)
          × (trozo i + (limite - (i + 1) * bs) ≡ limite - i * bs)
          × ((limite - (i + 1) * bs ≡ 0) ⊎ (i * bs + trozo i ≡ (i + 1) * bs))
    trozo_lem i h =
        let uno : (i + 1) * bs ≡ i * bs + bs = grind arith in
        elim (Bool-cases (i + 1 == cantidad)) [
          | inl t ↦
              let ultimo : i + 1 ≡ cantidad = (==_iff _ _).0 t in
              let fin : cantidad * bs ≡ i * bs + bs = rw (← ultimo) uno in
              rw (t, uno) (omega arith, omega arith, ground arith, omega arith, inl (omega arith))
          | inr t ↦
              let antes : i + 2 ≤ cantidad = ground arith in
              let fin : (i + 2) * bs ≤ cantidad * bs = por_monotona (i + 2) cantidad bs antes in
              let dos : (i + 2) * bs ≡ i * bs + bs + bs = grind arith in
              rw (t, uno) (omega arith, omega arith, ground arith, omega arith, inr refl)
        ]

    -- The copied bytes stand at the front of the block.
    bloque_data-frente :
        (i : ℕ)
        → i < cantidad
        → take (trozo i) (bloque_data bs limite cantidad buf i) ≡ take (trozo i) (drop (i * bs) buf)
    bloque_data-frente i h =
        let (a, b, _, _, _) = trozo_lem i h in
        let xs = take (trozo i) (drop (i * bs) buf) in
        let resto : trozo i ≤ length (drop (i * bs) buf) = elim (length-drop (i * bs) buf) [
          | inl e ↦ omega (arith, largo)
          | inr e ↦ absurd (omega (arith, largo))
        ] in
        let n : length xs ≡ trozo i = length-take (trozo i) (drop (i * bs) buf) resto in
        let cabe : length xs ≤ length (replicate bs 0) =
          omega (arith, length-replicate {A = ℕ} bs 0) in
        subst (λ k. take k (bloque_data bs limite cantidad buf i) ≡ xs) n
          (take-memcpy (replicate bs 0) xs cabe)

    -- The two parts of what is left.
    juntar :
        (i : ℕ)
        → i < cantidad
        → take (trozo i) (drop (i * bs) buf)
            ++ take (limite - (i + 1) * bs) (drop ((i + 1) * bs) buf)
          ≡ take (limite - i * bs) (drop (i * bs) buf)
    juntar i h =
        let (_, _, _, suman, sigue) = trozo_lem i h in
        let r = limite - (i + 1) * bs in
        let cola : take r (drop ((i + 1) * bs) buf) ≡ take r (drop (trozo i) (drop (i * bs) buf)) =
          elim sigue [
            | inl z ↦ rw z refl
            | inr z ↦ rw (drop-drop (i * bs) (trozo i) buf, z) refl
          ] in
        ap (λ ys. take (trozo i) (drop (i * bs) buf) ++ ys) cola
        ∙ take-append-take (trozo i) r (drop (i * bs) buf)
        ∙ ap (λ k. take k (drop (i * bs) buf)) suman

    leer_bloques_lem :
        (s : Swap) (quedan i : ℕ)
        → i + quedan ≡ cantidad
        → ((k : ℕ)
            → k < cantidad
            → leido s (primero + k) ≡ bloque_leido (bloque_data bs limite cantidad buf k))
        → leer_bloques bs (some s) (primero + i) quedan (limite - i * bs)
          ≡ some (take (limite - i * bs) (drop (i * bs) buf))
    unfolding leer_bloques
    leer_bloques_lem s zero i e h =
        let todo : i ≡ cantidad = omega arith in
        let fin : limite - i * bs ≡ 0 = rw todo (omega arith) in rw fin refl
    leer_bloques_lem s (suc q) i e h =
        let menor : i < cantidad = omega arith in
        let (_, _, copia, suman, _) = trozo_lem i menor in
        let otro : primero + i + 1 ≡ primero + (i + 1) = omega arith in
        let queda : limite - i * bs - trozo i ≡ limite - (i + 1) * bs = omega arith in
        let ih = leer_bloques_lem s q (i + 1) (omega arith) h in
        rw (h i menor, copia, otro, queda, ih, bloque_data-frente i menor)
          (ap some (juntar i menor))

pub bloques_justos :
    (limite bs : ℕ)
    → 0 < bs
    → (limite ≤ bloques_necesarios limite bs * bs)
      × (bloques_necesarios limite bs * bs < limite + bs)
bloques_justos limite bs pos =
    let n = limite + bs - 1 in
    let abajo : n / bs * bs ≤ n = grind arith in
    let arriba : n < n / bs * bs + bs = grind arith in (omega arith, omega arith)

-- A segment is read back as it was written, with SWAP in order afterwards.
pub escribir_segmento-Sano :
    (bs total : ℕ) (seg : Segmento) (buf : List ℕ) (s : Swap) (bytes : List ℕ)
    → Sano bs total s bytes
    → seg.cantidad_bloques ≡ bloques_necesarios seg.limite bs
    → (seg.bloque_swap + seg.cantidad_bloques) * bs ≤ total
    → length buf ≡ seg.limite
    → (s' : Swap) × (bytes' : List ℕ) × (escribir_segmento_en_swap bs seg buf (some s) ≡ some s')
      × Sano bs total s' bytes'
      × (leer_segmento_de_swap bs seg (some s') ≡ some buf)
      × ((d : ℕ)
          → d * bs + bs ≤ total
          → (d < seg.bloque_swap) ⊎ (seg.bloque_swap + seg.cantidad_bloques ≤ d)
          → (atender_kernel s' (lectura_bloque d)).1 ≡ (atender_kernel s (lectura_bloque d)).1)
unfolding escribir_segmento_en_swap leer_segmento_de_swap
escribir_segmento-Sano bs total seg buf s bytes v cuantos cabe largo =
    let primero = seg.bloque_swap in
    let cantidad = seg.cantidad_bloques in
    let (justo, lleno) = bloques_justos seg.limite bs v.positivo in
    let base : primero + 0 ≡ primero = omega arith in
    let (s', bytes', e, v', leidos) =
      escribir_bloques_lem bs total seg.limite cantidad buf primero cantidad 0 s bytes v
        (rw base cabe) in
    let bloques : (k : ℕ)
        → k < cantidad
        → leido s' (primero + k) ≡ bloque_leido (bloque_data bs seg.limite cantidad buf k) =
      λ k h.
        let tope = por_monotona (primero + k + 1) (primero + cantidad) bs (omega arith) in
        let uno : (primero + k + 1) * bs ≡ (primero + k) * bs + bs = grind arith in
        let u : (leb (primero + 0) (primero + k) && ltb (primero + k) (primero + 0 + cantidad))
            ≡ true =
          ground arith in
        let lugar : primero + k - primero ≡ k = omega arith in
        leidos (primero + k) (omega arith) ∙ rw (u, lugar) refl in
    let todo =
      leer_bloques_lem bs total seg.limite cantidad buf primero (rw cuantos justo)
        (rw cuantos lleno) largo s' cantidad 0 (omega arith) bloques in
    let entero : seg.limite - 0 * bs ≡ seg.limite = omega arith in
    let cero : 0 * bs ≡ 0 = omega arith in
    let nada : seg.limite - 0 ≡ length buf = omega (arith, largo) in
    let frente : take (seg.limite - 0 * bs) (drop (0 * bs) buf) ≡ buf =
      ap (λ k. take (seg.limite - k) (drop k buf)) cero
      ∙ ap (λ k. take k buf) nada
      ∙ take-length buf in
    let inicio : leer_bloques bs (some s') primero cantidad seg.limite
        ≡ leer_bloques bs (some s') (primero + 0) cantidad (seg.limite - 0 * bs) =
      ap₂ (λ a b. leer_bloques bs (some s') a cantidad b) (sym base) (sym entero) in
    (
      s',
      bytes',
      e,
      v',
      inicio ∙ todo ∙ ap some frente,
      λ d h fuera.
          let u : (leb (primero + 0) d && ltb d (primero + 0 + cantidad)) ≡ false = ground arith in
          leidos d h ∙ rw u refl,
    )

-- Each block that a read of blocks looks at answers the same: so does the read.
pub leer_bloques-igual :
    (bs : ℕ) (s s' : Swap) (quedan nro restantes : ℕ)
    → ((d : ℕ) → nro ≤ d → d < nro + quedan → leido s' d ≡ leido s d)
    → leer_bloques bs (some s') nro quedan restantes ≡ leer_bloques bs (some s) nro quedan restantes
unfolding leer_bloques
leer_bloques-igual bs s s' zero nro restantes h = refl
leer_bloques-igual bs s s' (suc q) nro restantes h =
    let ih =
      leer_bloques-igual bs s s' q (nro + 1)
        (restantes - (if ltb restantes bs then restantes else bs))
        (λ d a b. h d (omega arith) (omega arith)) in
    rw (h nro (omega arith) (omega arith), ih) refl

-- A suspended segment that has the number of blocks that its limit needs, all within SWAP, is read
-- back as it was written, byte by byte, and every other block of SWAP is as before.
pub leer-escribir_segmento :
    (bs total : ℕ) (seg : Segmento) (buf : List ℕ) (s : Swap) (bytes : List ℕ)
    → Sano bs total s bytes
    → seg.cantidad_bloques ≡ bloques_necesarios seg.limite bs
    → (seg.bloque_swap + seg.cantidad_bloques) * bs ≤ total
    → length buf ≡ seg.limite
    → (s' : Swap) × (escribir_segmento_en_swap bs seg buf (some s) ≡ some s')
      × (leer_segmento_de_swap bs seg (some s') ≡ some buf)
      × ((d : ℕ)
          → d * bs + bs ≤ total
          → (d < seg.bloque_swap) ⊎ (seg.bloque_swap + seg.cantidad_bloques ≤ d)
          → (atender_kernel s' (lectura_bloque d)).1 ≡ (atender_kernel s (lectura_bloque d)).1)
leer-escribir_segmento bs total seg buf s bytes v cuantos cabe largo =
    let (s', bytes', e, v', lee, otros) =
      escribir_segmento-Sano bs total seg buf s bytes v cuantos cabe largo in
    (s', e, lee, otros)
