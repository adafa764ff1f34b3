-- ===== src/Base/Sums.antt =====
-- The sum of a weight over a list, which sees neither order nor grouping.
use Prim.Native.Nat.{ℕ, ◌+◌}
use mathlib.Core.Path.{◌≡◌, refl, ◌∙◌}
use mathlib.Core.List.{List, [], ◌∷◌, ◌++◌, Permᴰ}
use native.Mathlib.Omega.{arith}
use tp_so_limpio.Base.Lists.{All}

module _ {ℓ} {A : Type ℓ} where
  abbrev pub suma : (A → ℕ) → List A → ℕ
  suma f [] = 0
  suma f (x ∷ xs) = f x + suma f xs

  pub suma-append : (f : A → ℕ) (xs ys : List A) → suma f (xs ++ ys) ≡ suma f xs + suma f ys
  suma-append f [] ys = omega arith
  suma-append f (x ∷ xs) ys = omega (arith, suma-append f xs ys)

  pub suma-perm : (f : A → ℕ) {xs ys : List A} → Permᴰ xs ys → suma f xs ≡ suma f ys
  suma-perm f Permᴰ.nil = refl
  suma-perm f (Permᴰ.cons {a = a} {b = b} e p) = rw (e, suma-perm f p)
  suma-perm f (Permᴰ.swap {l = l} e g) = rw (e, g) (omega arith)
  suma-perm f (Permᴰ.trans p q) = suma-perm f p ∙ suma-perm f q

  pub suma-ext : (f g : A → ℕ) (xs : List A) → All (λ x. f x ≡ g x) xs → suma f xs ≡ suma g xs
  suma-ext f g [] h = refl
  suma-ext f g (x ∷ xs) h = omega (arith, suma-ext f g xs h.1)

  pub All-perm {κ} : (P : A → Type κ) {xs ys : List A} → Permᴰ xs ys → All P xs → All P ys
  All-perm P Permᴰ.nil h = h
  All-perm P (Permᴰ.cons e p) h = (rw e at h.0, All-perm P p h.1)
  All-perm P (Permᴰ.swap e g) h = (rw g at h.1.0, (rw e at h.0, h.1.1))
  All-perm P (Permᴰ.trans p q) h = All-perm P q (All-perm P p h)

  pub All-append {κ} : (P : A → Type κ) (xs ys : List A) → All P xs → All P ys → All P (xs ++ ys)
  All-append P [] ys h k = k
  All-append P (x ∷ xs) ys h k = (h.0, All-append P xs ys h.1 k)

  pub All-map {κ μ} :
      (P : A → Type κ) (Q : A → Type μ) (xs : List A) → ((a : A) → P a → Q a) → All P xs → All Q xs
  All-map P Q [] f h = tt
  All-map P Q (x ∷ xs) f h = (f x h.0, All-map P Q xs f h.1)
