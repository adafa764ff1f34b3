-- ===== src/Commons.antt =====
-- What the program calls of the so-commons library, which is not in the repository:
-- `list_sort`, `list_add_sorted` and the bit array. Each law is documented behaviour of that library.
use mathlib.Core.List.{Permᴰ}
use tp_so_limpio.Base.{ℕ, ◌≡◌, Bool, true, false, List, [], ◌∷◌, ◌==◌, if◌then◌else◌, All}

-- No element goes before one that stands above it.
abbrev pub Ordenada : {A : Type 0} → (A → A → Bool) → List A → Type 0
Ordenada lt [] = Unit
Ordenada lt (x ∷ xs) = All (λ y. lt y x ≡ false) xs × Ordenada lt xs

-- A comparator that `list_sort` can sort by: a strict weak order.
pub record EsOrden {A : Type 0} (lt : A → A → Bool) : Type 0 where
  pub asimetrico : (a b : A) → lt a b ≡ true → lt b a ≡ false
  pub transitivo : (a b c : A) → lt b a ≡ false → lt c b ≡ false → lt c a ≡ false

pub record Commons : Type 1 where
  pub list_sort : (A : Type 0) → (A → A → Bool) → List A → List A
  pub list_sort-perm : (A : Type 0) (lt : A → A → Bool) (xs : List A) → Permᴰ xs (list_sort A lt xs)
  pub list_sort-Ordenada :
      (A : Type 0) (lt : A → A → Bool) (xs : List A) → EsOrden lt → Ordenada lt (list_sort A lt xs)
  pub list_add_sorted : (A : Type 0) → (A → A → Bool) → A → List A → List A
  pub list_add_sorted-perm :
      (A : Type 0) (lt : A → A → Bool) (x : A) (xs : List A)
      → Permᴰ (x ∷ xs) (list_add_sorted A lt x xs)
  pub list_add_sorted-Ordenada :
      (A : Type 0) (lt : A → A → Bool) (x : A) (xs : List A)
      → EsOrden lt
      → Ordenada lt xs
      → Ordenada lt (list_add_sorted A lt x xs)
  pub Bitarray : Type 0
  pub bitarray_create : Bitarray
  pub bitarray_test_bit : Bitarray → ℕ → Bool
  pub bitarray_set_bit : Bitarray → ℕ → Bitarray
  pub bitarray_clean_bit : Bitarray → ℕ → Bitarray
  pub test-create : (i : ℕ) → bitarray_test_bit bitarray_create i ≡ false
  pub test-set :
      (b : Bitarray) (i j : ℕ)
      → bitarray_test_bit (bitarray_set_bit b i) j
        ≡ (if i == j then true else bitarray_test_bit b j)
  pub test-clean :
      (b : Bitarray) (i j : ℕ)
      → bitarray_test_bit (bitarray_clean_bit b i) j
        ≡ (if i == j then false else bitarray_test_bit b j)
