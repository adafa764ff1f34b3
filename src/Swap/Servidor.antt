-- ===== src/Swap/Servidor.antt =====
-- The block server: what a write leaves in the file and what a read answers.
use tp_so_limpio.Base.{
  ℕ, ◌+◌, ◌-◌, ◌*◌, ◌/◌, ◌≤◌, ◌<◌, ◌^◌, ◌≡◌, ◌≢◌, refl, ap, ◌∙◌, inl, inr, true, false, some, List,
  [], subst, ◌∷◌, arith, ltb, leb, ◌==◌, ◌&&◌, if◌then◌else◌, length, take, drop, memcpy,
  length-memcpy, take-length, get_elem?-memcpy, dec_lt, Bool-cases, ==_iff, ◌⊎◌, take-drop-ext,
  length-take, length-drop,
}
use tp_so_limpio.GlobalUtils.{op, buffer, respuesta_ok, respuesta_datos}
use tp_so_limpio.Swap.{
  Swap, bloque_invalido, manejar_lectura_bloque, manejar_escritura_bloque, atender_kernel,
  escritura_bloque, lectura_bloque,
}

-- The file is there, at its full size, and holds these bytes.
pub record Sano (bs total : ℕ) (s : Swap) (bytes : List ℕ) : Type 0 where
  pub abierto : s.archivo ≡ some bytes
  pub bloque : s.tamanio_bloque_swap ≡ bs
  pub tamanio : s.tamanio_total_swap ≡ total
  pub positivo : 0 < bs
  pub entero : total < 2 ^ 31
  pub completo : length bytes ≡ total

module _ (bs total : ℕ) (s : Swap) (bytes : List ℕ) (v : Sano bs total s bytes) (b : ℕ) where
  -- A block that lies within the file passes the check of its number.
  pub bloque_valido : b * bs + bs ≤ total → bloque_invalido s b ≡ false
  bloque_valido h =
      let p = v.positivo in
      let e = v.entero in
      let chico : b ≤ b * bs = grind arith in
      let cociente : b < total / bs = grind arith in
      let t = v.tamanio in let k = v.bloque in rw (t, k) (ground arith)

  pub escritura_lem :
      (datos : List ℕ)
      → b * bs + bs ≤ total
      → manejar_escritura_bloque s b datos ≡ (
        record s { archivo = some (memcpy bytes (b * bs) (take bs datos)) },
        op respuesta_ok ∷ [],
      )
  unfolding manejar_escritura_bloque
  escritura_lem datos h = rw (bloque_valido h, v.abierto, v.bloque)

  pub lectura_lem :
      b * bs + bs ≤ total
      → manejar_lectura_bloque s b
        ≡ op respuesta_datos ∷ buffer (take bs (drop (b * bs) bytes)) ∷ []
  unfolding manejar_lectura_bloque
  lectura_lem h =
      let c = v.completo in
      let resto : bs ≤ length (drop (b * bs) bytes) = elim (length-drop (b * bs) bytes) [
        | inl e ↦ omega arith
        | inr e ↦ absurd (omega arith)
      ] in
      let largo : (length (take bs (drop (b * bs) bytes)) == bs) ≡ true =
        ground (arith, length-take bs (drop (b * bs) bytes) resto) in
      rw (bloque_valido h, v.abierto, v.bloque, largo)

  pub Sano-escrito :
      (datos : List ℕ)
      → Sano bs total
          (record s { archivo = some (memcpy bytes (b * bs) datos) })
          (memcpy bytes (b * bs) datos)
  Sano-escrito datos = record {
    abierto = refl;
    bloque = v.bloque;
    tamanio = v.tamanio;
    positivo = v.positivo;
    entero = v.entero;
    completo = length-memcpy bytes (b * bs) datos ∙ v.completo;
  }

-- Blocks of different numbers do not overlap.
separados : (b d bs : ℕ) → b ≢ d → (d * bs + bs ≤ b * bs) ⊎ (b * bs + bs ≤ d * bs)
separados b d bs h = elim (dec_lt b d) [
  | yes p ↦ inr (grind arith)
  | no p ↦ let q : d < b = ground arith in inl (grind arith)
]

-- A block that has been written is read back as it was sent, and every other block as it was before.
pub lectura-escritura :
    (bs total : ℕ) (s : Swap) (bytes : List ℕ) (b d : ℕ) (datos : List ℕ)
    → Sano bs total s bytes
    → b * bs + bs ≤ total
    → d * bs + bs ≤ total
    → length datos ≡ bs
    → let s' = (atender_kernel s (escritura_bloque b datos)).0 in
      (atender_kernel s' (lectura_bloque d)).1 ≡ (
        if b == d
        then op respuesta_datos ∷ buffer datos ∷ []
        else (atender_kernel s (lectura_bloque d)).1)
unfolding atender_kernel
lectura-escritura bs total s bytes b d datos v hb hd largo =
    let todo : take bs datos ≡ datos =
      subst (λ k. take k datos ≡ datos) largo (take-length datos) in
    let w = Sano-escrito bs total s bytes v b datos in
    let c = v.completo in
    let pos = v.positivo in
    let cabe : b * bs + length datos ≤ length bytes = omega arith in
    let nuevo = memcpy bytes (b * bs) datos in
    let antes = lectura_lem bs total s bytes v d hd in
    let ahora = lectura_lem bs total (record s { archivo = some nuevo }) nuevo w d hd in
    rw (escritura_lem bs total s bytes v b datos hb, todo, ahora)
      (elim (Bool-cases (b == d)) [
        | inl t ↦
            let mismo : b ≡ d = (==_iff _ _).0 t in
            rw (t, ← mismo)
              (ap (λ x. op respuesta_datos ∷ buffer x ∷ [])
                (take-drop-ext nuevo datos (b * bs) 0 bs (λ k hk.
                    let u : (leb (b * bs) (b * bs + k) && ltb (b * bs + k) (b * bs + length datos))
                        ≡ true =
                      ground arith in
                    let i : b * bs + k - b * bs ≡ 0 + k = omega arith in
                    get_elem?-memcpy bytes (b * bs) datos (b * bs + k) cabe ∙ rw (u, i))
                  ∙ todo))
        | inr t ↦
            let lejos : (d * bs + bs ≤ b * bs) ⊎ (b * bs + bs ≤ d * bs) =
              separados b d bs (ground arith) in
            rw (t, antes)
              (ap (λ x. op respuesta_datos ∷ buffer x ∷ [])
                (take-drop-ext nuevo bytes (d * bs) (d * bs) bs (λ k hk.
                  let u : (leb (b * bs) (d * bs + k) && ltb (d * bs + k) (b * bs + length datos))
                      ≡ false =
                    elim lejos [ inl x ↦ ground arith | inr x ↦ ground arith ] in
                  get_elem?-memcpy bytes (b * bs) datos (d * bs + k) cabe ∙ rw u)))
      ])
