-- ===== src/Base/Cortes.antt =====
-- Cutting lists of bytes in two, and what stands at the front of a buffer.
use Prim.Native.Nat.{ℕ, zero, suc, ◌+◌, ◌-◌, ◌*◌, ◌≤◌}
use mathlib.Core.Path.{◌≡◌, refl, sym, ap, ◌∙◌}
use mathlib.Core.Bool.{true, ◌&&◌}
use mathlib.Core.List.{List, [], ◌∷◌, ◌++◌}
use native.Mathlib.Omega.{arith}
use tp_so_limpio.Base.Tests.{ltb, leb}
use tp_so_limpio.Base.Lists.{length, take, drop, take-length}
use tp_so_limpio.Base.Bytes.{memcpy, get_elem?-memcpy, take-drop-ext}

take-nil : (b : ℕ) → take {A = ℕ} b [] ≡ []
take-nil zero = refl
take-nil (suc b) = refl

drop-nil : (b : ℕ) → drop {A = ℕ} b [] ≡ []
drop-nil zero = refl
drop-nil (suc b) = refl

pub take-append-take : (a b : ℕ) (xs : List ℕ) → take a xs ++ take b (drop a xs) ≡ take (a + b) xs
take-append-take zero b xs = ap (λ k. take k xs) (omega arith)
take-append-take (suc a) b [] = take-nil b ∙ sym (take-nil (suc a + b))
take-append-take (suc a) b (x ∷ xs) =
    let e : suc a + b ≡ suc (a + b) = omega arith in
    rw e (ap (λ ys. x ∷ ys) (take-append-take a b xs))

pub drop-drop : (a b : ℕ) (xs : List ℕ) → drop b (drop a xs) ≡ drop (a + b) xs
drop-drop zero b xs = ap (λ k. drop k xs) (omega arith)
drop-drop (suc a) b [] = drop-nil b ∙ sym (drop-nil (suc a + b))
drop-drop (suc a) b (x ∷ xs) =
    let e : suc a + b ≡ suc (a + b) = omega arith in rw e (drop-drop a b xs)

pub por_monotona : (a b n : ℕ) → a ≤ b → a * n ≤ b * n
por_monotona a b zero h = grind arith
por_monotona a b (suc n) h = let ih = por_monotona a b n h in grind arith

-- What was copied over the front of a buffer.
pub take-memcpy :
    (mem xs : List ℕ) → length xs ≤ length mem → take (length xs) (memcpy mem 0 xs) ≡ xs
take-memcpy mem xs h =
    take-drop-ext (memcpy mem 0 xs) xs 0 0 (length xs) (λ k hk.
      let u : (leb 0 (0 + k) && ltb (0 + k) (0 + length xs)) ≡ true = ground arith in
      let i : 0 + k - 0 ≡ 0 + k = omega arith in
      get_elem?-memcpy mem 0 xs (0 + k) (omega arith) ∙ rw (u, i))
    ∙ take-length xs
