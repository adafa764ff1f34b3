-- ===== src/GlobalUtils/Paquete.antt =====
-- utils/src/global_utils.c: packets, whose fields go out one behind the other, each with its size
-- as a 32-bit `int` in front.
use mathlib.Core.List.{append_assoc, append-nil}
use tp_so_limpio.Base.{
  ℕ, zero, suc, ◌+◌, ◌*◌, ◌/◌, ◌%◌, ◌^◌, ◌<◌, ◌≡◌, refl, sym, ap, ◌∙◌, true, false, Option, none,
  some, List, [], ◌∷◌, ◌++◌, arith, ltb, leb, ◌==◌, ◌||◌, if◌then◌else◌, ◌>>=◌, length,
  length-append, take, drop, All,
}

-- The memory of a little-endian value of `k` bytes, and the value that bytes hold.
abbrev pub bytes_de : ℕ → ℕ → List ℕ
bytes_de zero v = []
bytes_de (suc k) v = v % 256 ∷ bytes_de k (v / 256)

abbrev pub valor_de : List ℕ → ℕ
valor_de [] = 0
valor_de (b ∷ bs) = b + 256 * valor_de bs

-- The size of the stream is a uint32_t: where it wraps around, the stream is too short for what is
-- copied to it, `none`.
abbrev pub agregar_a_paquete : List ℕ → List ℕ → Option (List ℕ)
agregar_a_paquete stream valor =
    let mas = stream ++ (bytes_de 4 (length valor) ++ valor) in
    if ltb (length mas) (2 ^ 32) then some mas else none

-- The stream of a packet made by one `agregar_a_paquete` per value.
unfoldable pub armar_paquete : List ℕ → List (List ℕ) → Option (List ℕ)
armar_paquete stream [] = some stream
armar_paquete stream (v ∷ vs) = agregar_a_paquete stream v >>= λ mas. armar_paquete mas vs

-- The loop of `recibir_paquete`, with fuel, on the bytes from `desplazamiento` on. A size of 0 or
-- with its top bit set is not positive; where fewer than four bytes are left, any size is too large. A
-- field that ends behind 2 ^ 31 - 1 overflows `desplazamiento + tamanio`, and is `none` too.
unfoldable pub leer_campos : ℕ → List ℕ → Option (List (List ℕ))
leer_campos zero bytes = none
leer_campos (suc fuel) [] = some []
leer_campos (suc fuel) (b ∷ bs) =
    let tamanio = valor_de (take 4 (b ∷ bs)) in
    let resto = drop 4 (b ∷ bs) in
    elim (tamanio == 0 || leb (2 ^ 31) tamanio || ltb (length resto) tamanio) [
      | true ↦ none
      | false ↦ leer_campos fuel (drop tamanio resto) >>= λ vs. some (take tamanio resto ∷ vs)
    ]

-- `size` is an int, negative or wrapped around for 2 ^ 31 bytes and more: no fields come of that.
unfoldable pub recibir_paquete : List ℕ → Option (List (List ℕ))
unfolding leer_campos
recibir_paquete stream =
    if leb (2 ^ 31) (length stream) then none else leer_campos (suc (length stream)) stream

-- A field that can travel.
abbrev pub CampoValido : List ℕ → Type 0
CampoValido v = (0 < length v) × (length v < 2 ^ 31)

plano : List (List ℕ) → List ℕ
plano [] = []
plano (v ∷ vs) = bytes_de 4 (length v) ++ (v ++ plano vs)

-- The bytes of a packet: those of its fields and four for the size of each.
unfoldable pub tamanio_paquete : List (List ℕ) → ℕ
tamanio_paquete [] = 0
tamanio_paquete (v ∷ vs) = 4 + length v + tamanio_paquete vs

length-plano : (vs : List (List ℕ)) → length (plano vs) ≡ tamanio_paquete vs
unfolding plano tamanio_paquete
length-plano [] = refl
length-plano (v ∷ vs) = omega (arith, length-append v (plano vs), length-plano vs)

armar-plano :
    (stream : List ℕ) (vs : List (List ℕ))
    → length stream + tamanio_paquete vs < 2 ^ 32
    → armar_paquete stream vs ≡ some (stream ++ plano vs)
unfolding armar_paquete plano tamanio_paquete
armar-plano stream [] h = ap some (sym (append-nil stream))
armar-plano stream (v ∷ vs) h =
    let mas = stream ++ (bytes_de 4 (length v) ++ v) in
    let largo : length mas ≡ length stream + (4 + length v) =
      omega (arith, length-append stream (bytes_de 4 (length v) ++ v)) in
    let entra : ltb (length mas) (2 ^ 32) ≡ true = ground (arith, largo) in
    rw (entra, armar_paquete, plano)
      (armar-plano mas vs (omega (arith, largo))
        ∙ ap some (append_assoc stream (bytes_de 4 (length v) ++ v) (plano vs)))

take-append : (v r : List ℕ) → take (length v) (v ++ r) ≡ v
take-append [] r = refl
take-append (x ∷ v) r = ap (λ ys. x ∷ ys) (take-append v r)

drop-append : (v r : List ℕ) → drop (length v) (v ++ r) ≡ r
drop-append [] r = refl
drop-append (x ∷ v) r = drop-append v r

-- A value of at most 32 bits is read as it was written.
pub valor-bytes : (v : ℕ) → v < 2 ^ 32 → valor_de (bytes_de 4 v) ≡ v
valor-bytes v h = omega arith

-- The rest of a round, once the size is known to be the field's.
siguiente :
    (fuel : ℕ) (x r : List ℕ) (vs : List (List ℕ)) (t : ℕ)
    → t ≡ length x
    → leer_campos fuel r ≡ some vs
    → (leer_campos fuel (drop t (x ++ r)) >>= λ ws. some (take t (x ++ r) ∷ ws)) ≡ some (x ∷ vs)
siguiente fuel x r vs t e ih = rw (e, drop-append x r, take-append x r, ih) refl

leer_campos-plano :
    (fuel : ℕ) (vs : List (List ℕ))
    → length (plano vs) < fuel
    → All CampoValido vs
    → leer_campos fuel (plano vs) ≡ some vs
unfolding leer_campos plano
leer_campos-plano zero vs h v = absurd (omega arith)
leer_campos-plano (suc fuel) [] h v = refl
leer_campos-plano (suc fuel) (x ∷ vs) h v =
    let chico = v.0.1 in
    let pos = v.0.0 in
    let n : valor_de (bytes_de 4 (length x)) ≡ length x = valor-bytes (length x) (omega arith) in
    let largo = length-append x (plano vs) in
    let bien : (length x == 0 || leb (2 ^ 31) (length x) || ltb (length (x ++ plano vs)) (length x))
        ≡ false =
      ground (arith, largo) in
    let ih = leer_campos-plano fuel vs (omega (arith, largo)) v.1 in
    rw (n, bien, leer_campos, plano) (siguiente fuel x (plano vs) vs _ n ih)

pub armado :
    (vs : List (List ℕ))
    → All CampoValido vs
    → tamanio_paquete vs < 2 ^ 31
    → (stream : List ℕ) × (armar_paquete [] vs ≡ some stream) × (recibir_paquete stream ≡ some vs)
unfolding recibir_paquete
armado vs v h =
    let largo = length-plano vs in
    let entra : leb (2 ^ 31) (length (plano vs)) ≡ false = ground (arith, largo) in
    (
      plano vs,
      armar-plano [] vs (omega arith),
      rw (entra, recibir_paquete) (leer_campos-plano (suc (length (plano vs))) vs (omega arith) v),
    )

-- The fields of a packet of less than 2 ^ 31 bytes come out as they were put in, if none is empty.
pub recibir-armar :
    (vs : List (List ℕ))
    → All CampoValido vs
    → tamanio_paquete vs < 2 ^ 31
    → (armar_paquete [] vs >>= recibir_paquete) ≡ some vs
recibir-armar vs v h = let (stream, a, b) = armado vs v h in rw a b
