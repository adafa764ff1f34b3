-- ===== src/Base/Bytes.antt =====
-- `memcpy` between buffers, and reading through a map from addresses to bytes.
use Prim.Native.Nat.{ℕ, zero, suc, ◌+◌, ◌-◌, ◌<◌, ◌≤◌}
use mathlib.Core.Path.{◌≡◌, refl, sym, ap, ◌∙◌}
use mathlib.Core.Bool.{◌&&◌}
use mathlib.Core.List.{List, [], ◌∷◌, ◌++◌}
use mathlib.Core.Option.{Option, none, some}
use native.Mathlib.Decide.{dec_lt}
use native.Mathlib.Omega.{arith}
use tp_so_limpio.Base.Tests.{ltb, leb, if◌then◌else◌, ◌>>=◌, Option-cases}
use mathlib.Core.Logic.{inl, inr}
use tp_so_limpio.Base.Lists.{length, get_elem?, get_elem?-some, eq_of_get_elem?, set, take, drop}

-- `memcpy(mem + off, src, size of src)`. What would fall outside `mem` is dropped.
abbrev pub memcpy : List ℕ → ℕ → List ℕ → List ℕ
memcpy mem off [] = mem
memcpy mem off (b ∷ bs) = memcpy (set mem off b) (off + 1) bs

length-set : (xs : List ℕ) (i v : ℕ) → length (set xs i v) ≡ length xs
length-set [] i v = refl
length-set (x ∷ xs) zero v = refl
length-set (x ∷ xs) (suc i) v = ap suc (length-set xs i v)

get_elem?-set :
    (xs : List ℕ) (i j v : ℕ)
    → i < length xs
    → get_elem? (set xs i v) j ≡ (if leb i j && leb j i then some v else get_elem? xs j)
get_elem?-set [] i j v h = absurd (omega arith)
get_elem?-set (x ∷ xs) zero zero v h = refl
get_elem?-set (x ∷ xs) zero (suc j) v h = ground arith
get_elem?-set (x ∷ xs) (suc i) zero v h = ground arith
get_elem?-set (x ∷ xs) (suc i) (suc j) v h = ground (arith, get_elem?-set xs i j v)

pub length-memcpy : (mem : List ℕ) (off : ℕ) (bs : List ℕ) → length (memcpy mem off bs) ≡ length mem
length-memcpy mem off [] = refl
length-memcpy mem off (b ∷ bs) = length-memcpy (set mem off b) (off + 1) bs ∙ length-set mem off b

-- `get_elem?` matches on the index, the code computes it.
get_elem?-cons :
    (b : ℕ) (bs : List ℕ) (k : ℕ)
    → get_elem? (b ∷ bs) k ≡ (if leb k 0 then some b else get_elem? bs (k - 1))
get_elem?-cons b bs zero = refl
get_elem?-cons b bs (suc k) = let e : suc k - 1 ≡ k = omega arith in rw e (ground arith)

-- Inside the copied range stand the new bytes, outside it the old ones.
pub get_elem?-memcpy :
    (mem : List ℕ) (off : ℕ) (bs : List ℕ) (i : ℕ)
    → off + length bs ≤ length mem
    → get_elem? (memcpy mem off bs) i
      ≡ (if leb off i && ltb i (off + length bs) then get_elem? bs (i - off) else get_elem? mem i)
get_elem?-memcpy mem off [] i h = ground arith
get_elem?-memcpy mem off (b ∷ bs) i h = ground (
  arith,
  get_elem?-memcpy (set mem off b) (off + 1) bs i,
  length-set mem off b,
  get_elem?-set mem off i b,
  get_elem?-cons b bs (i - off),
)

pub get_elem?-take : (xs : List ℕ) (n k : ℕ) → k < n → get_elem? (take n xs) k ≡ get_elem? xs k
get_elem?-take xs zero k h = absurd (omega arith)
get_elem?-take [] (suc n) k h = refl
get_elem?-take (x ∷ xs) (suc n) zero h = refl
get_elem?-take (x ∷ xs) (suc n) (suc k) h = get_elem?-take xs n k (omega arith)

pub get_elem?-drop : (xs : List ℕ) (l k : ℕ) → get_elem? (drop l xs) k ≡ get_elem? xs (l + k)
get_elem?-drop xs zero k = ap (get_elem? xs) (omega arith)
get_elem?-drop [] (suc l) k = refl
get_elem?-drop (x ∷ xs) (suc l) k =
    let e : suc l + k ≡ suc (l + k) = omega arith in rw e (get_elem?-drop xs l k)

drop-cons :
    (xs : List ℕ) (l : ℕ) {v : ℕ} → get_elem? xs l ≡ some v → drop l xs ≡ v ∷ drop (suc l) xs
drop-cons [] l e = cc
drop-cons (x ∷ xs) zero e = ground arith
drop-cons (x ∷ xs) (suc l) e = drop-cons xs l e

pub get_elem?-take-drop :
    (mem : List ℕ) (l n k : ℕ) → k < n → get_elem? (take n (drop l mem)) k ≡ get_elem? mem (l + k)
get_elem?-take-drop mem l n k h = get_elem?-take (drop l mem) n k h ∙ get_elem?-drop mem l k

-- `n` bytes from address `d` on, if all are there.
abbrev pub leer_plano : (ℕ → Option ℕ) → ℕ → ℕ → Option (List ℕ)
leer_plano f d zero = some []
leer_plano f d (suc n) = f d >>= λ b. leer_plano f (d + 1) n >>= λ bs. some (b ∷ bs)

bind-some : (m : Option (List ℕ)) → (m >>= λ ys. some ([] ++ ys)) ≡ m
bind-some none = refl
bind-some (some ys) = refl

pub leer_plano-split :
    (f : ℕ → Option ℕ) (d a b : ℕ)
    → leer_plano f d (a + b)
      ≡ (leer_plano f d a >>= λ xs. leer_plano f (d + a) b >>= λ ys. some (xs ++ ys))
leer_plano-split f d zero b =
    let e : 0 + b ≡ b = omega arith in
    let k : d + 0 ≡ d = omega arith in rw (e, k) (sym (bind-some (leer_plano f d b)))
leer_plano-split f d (suc a) b =
    let e : suc a + b ≡ suc (a + b) = omega arith in
    let k : d + suc a ≡ d + 1 + a = omega arith in
    rw (e, k)
      (elim (Option-cases (f d)) [
        | inl n ↦ rw n
        | inr (v, p) ↦
            rw (p, leer_plano-split f (d + 1) a b)
              (elim (Option-cases (leer_plano f (d + 1) a)) [
                | inl n ↦ rw n
                | inr (xs, q) ↦ rw q (elim (Option-cases (leer_plano f (d + 1 + a) b)) [
                  | inl n ↦ rw n
                  | inr (ys, r) ↦ rw r
                ])
              ])
      ])

pub leer_plano-eq :
    (f : ℕ → Option ℕ) (d n l : ℕ) (mem : List ℕ)
    → l + n ≤ length mem
    → ((k : ℕ) → k < n → f (d + k) ≡ get_elem? mem (l + k))
    → leer_plano f d n ≡ some (take n (drop l mem))
leer_plano-eq f d zero l mem h e = refl
leer_plano-eq f d (suc n) l mem h e =
    let (v, p) = get_elem?-some mem l (omega arith) in
    let first : f d ≡ some v =
      ap f (omega arith) ∙ e 0 (omega arith) ∙ ap (get_elem? mem) (omega arith) ∙ p in
    let ih =
      leer_plano-eq f (d + 1) n (suc l) mem (omega arith)
        (λ k hk. ap f (omega arith) ∙ e (suc k) (omega arith) ∙ ap (get_elem? mem) (omega arith)) in
    rw (first, ih, drop-cons mem l p)

-- Two maps that agree on a range read the same there.
pub leer_plano-ext :
    (f g : ℕ → Option ℕ) (d e n : ℕ)
    → ((k : ℕ) → k < n → f (d + k) ≡ g (e + k))
    → leer_plano f d n ≡ leer_plano g e n
leer_plano-ext f g d e zero h = refl
leer_plano-ext f g d e (suc n) h =
    let first : f d ≡ g e = ap f (omega arith) ∙ h 0 (omega arith) ∙ ap g (omega arith) in
    let ih =
      leer_plano-ext f g (d + 1) (e + 1) n
        (λ k hk. ap f (omega arith) ∙ h (suc k) (omega arith) ∙ ap g (omega arith)) in
    rw (first, ih)

get_elem?-take-none : (xs : List ℕ) (n k : ℕ) → n ≤ k → get_elem? (take n xs) k ≡ none
get_elem?-take-none xs zero k h = refl
get_elem?-take-none [] (suc n) k h = refl
get_elem?-take-none (x ∷ xs) (suc n) zero h = absurd (omega arith)
get_elem?-take-none (x ∷ xs) (suc n) (suc k) h = get_elem?-take-none xs n k (omega arith)

-- Two windows with the same entries are equal.
pub take-drop-ext :
    (xs ys : List ℕ) (l m n : ℕ)
    → ((k : ℕ) → k < n → get_elem? xs (l + k) ≡ get_elem? ys (m + k))
    → take n (drop l xs) ≡ take n (drop m ys)
take-drop-ext xs ys l m n h = eq_of_get_elem? (take n (drop l xs)) (take n (drop m ys)) λ i.
    elim (dec_lt i n) [
      | yes p ↦ get_elem?-take-drop xs l n i p ∙ h i p ∙ sym (get_elem?-take-drop ys m n i p)
      | no p ↦
          get_elem?-take-none (drop l xs) n i (omega arith)
          ∙ sym (get_elem?-take-none (drop m ys) n i (omega arith))
    ]
