-- ===== src/Tests/Biblioteca.antt =====
-- The interface of so-commons, met by insertion sort and by functions for bit arrays.
use mathlib.Core.List.{Permᴰ}
use mathlib.Core.List.Permᴰ
use tp_so_limpio.Base.{
  ℕ, ◌≡◌, refl, inl, inr, Bool, true, false, List, [], ◌∷◌, ◌==◌, if◌then◌else◌, Bool-cases, All,
  All-map,
}
use tp_so_limpio.Commons.{Ordenada, EsOrden, Commons}

module _ {A : Type 0} (lt : A → A → Bool) where
  abbrev pub insertar : A → List A → List A
  insertar x [] = x ∷ []
  insertar x (y ∷ ys) = if lt y x then y ∷ insertar x ys else x ∷ y ∷ ys

  abbrev pub ordenar : List A → List A
  ordenar [] = []
  ordenar (x ∷ xs) = insertar x (ordenar xs)

  pub insertar-perm : (x : A) (xs : List A) → Permᴰ (x ∷ xs) (insertar x xs)
  insertar-perm x [] = Permᴰ.refl (x ∷ [])
  insertar-perm x (y ∷ ys) = elim (Bool-cases (lt y x)) [
    | inl t ↦ rw t (Permᴰ.trans (Permᴰ.swap refl refl) (Permᴰ.cons refl (insertar-perm x ys)))
    | inr t ↦ rw t (Permᴰ.refl (x ∷ y ∷ ys))
  ]

  pub ordenar-perm : (xs : List A) → Permᴰ xs (ordenar xs)
  ordenar-perm [] = Permᴰ.refl []
  ordenar-perm (x ∷ xs) =
      Permᴰ.trans (Permᴰ.cons refl (ordenar-perm xs)) (insertar-perm x (ordenar xs))

  All-insertar : (P : A → Type 0) (x : A) (xs : List A) → P x → All P xs → All P (insertar x xs)
  All-insertar P x [] p v = (p, tt)
  All-insertar P x (y ∷ ys) p v = elim (Bool-cases (lt y x)) [
    | inl t ↦ rw t (v.0, All-insertar P x ys p v.1)
    | inr t ↦ rw t (p, v)
  ]

  pub insertar-Ordenada :
      (o : EsOrden lt) (x : A) (xs : List A) → Ordenada lt xs → Ordenada lt (insertar x xs)
  insertar-Ordenada o x [] v = (tt, tt)
  insertar-Ordenada o x (y ∷ ys) v = elim (Bool-cases (lt y x)) [
    | inl t ↦ rw t (
      All-insertar (λ z. lt z y ≡ false) x ys (o.asimetrico y x t) v.0,
      insertar-Ordenada o x ys v.1,
    )
    | inr t ↦ rw t (
      (
        t,
        All-map (λ z. lt z y ≡ false) (λ z. lt z x ≡ false) ys (λ z h. o.transitivo x y z t h) v.0,
      ),
      v,
    )
  ]

  pub ordenar-Ordenada : (xs : List A) → EsOrden lt → Ordenada lt (ordenar xs)
  ordenar-Ordenada [] o = tt
  ordenar-Ordenada (x ∷ xs) o = insertar-Ordenada o x (ordenar xs) (ordenar-Ordenada xs o)

abbrev pub biblioteca : Commons
biblioteca = record {
  list_sort = λ A lt xs. ordenar lt xs;
  list_sort-perm = λ A lt xs. ordenar-perm lt xs;
  list_sort-Ordenada = λ A lt xs o. ordenar-Ordenada lt xs o;
  list_add_sorted = λ A lt x xs. insertar lt x xs;
  list_add_sorted-perm = λ A lt x xs. insertar-perm lt x xs;
  list_add_sorted-Ordenada = λ A lt x xs o v. insertar-Ordenada lt o x xs v;
  Bitarray = ℕ → Bool;
  bitarray_create = λ i. false;
  bitarray_test_bit = λ b i. b i;
  bitarray_set_bit = λ b i j. if i == j then true else b j;
  bitarray_clean_bit = λ b i j. if i == j then false else b j;
  test-create = λ i. refl;
  test-set = λ b i j. refl;
  test-clean = λ b i j. refl;
}
