-- ===== src/Prelude/Predicates.antt =====
-- Predicates on all and on some elements of a list, by recursion, so that they compute to tuples.
use Prim.Native.Nat.{ℕ, zero, suc}
use mathlib.Core.Path.{◌≡◌, refl, subst}
use mathlib.Core.Logic.{◌⊎◌, inl, inr}
use mathlib.Core.Option.{some, some-injective}
use mathlib.Core.List.{List, [], ◌∷◌, ◌++◌, reverse, reverse-cons}
use raft_craft.Prelude.Lists.{get_elem?}

module _ {ℓ} {A : Type ℓ} (P : A → Type 0) where
  abbrev pub All : List A → Type 0
  All [] = Unit
  All (x ∷ xs) = P x × All xs

  abbrev pub Any : List A → Type 0
  Any [] = ⊥
  Any (x ∷ xs) = P x ⊎ Any xs

module _ {ℓ} {A : Type ℓ} (P : A → Type 0) where
  pub All-append : (xs ys : List A) → All P xs → All P ys → All P (xs ++ ys)
  All-append [] ys a b = b
  All-append (x ∷ xs) ys a b = (a.0, All-append xs ys a.1 b)

  pub All-reverse : (xs : List A) → All P xs → All P (reverse xs)
  All-reverse [] a = tt
  All-reverse (x ∷ xs) a =
      rw (reverse-cons x xs) (All-append (reverse xs) (x ∷ []) (All-reverse xs a.1) (a.0, tt))

  pub All-get_elem? : (xs : List A) (i : ℕ) (x : A) → All P xs → get_elem? xs i ≡ some x → P x
  All-get_elem? [] i x a h = cc
  All-get_elem? (y ∷ xs) zero x a h = subst P (some-injective y x h) a.0
  All-get_elem? (y ∷ xs) (suc i) x a h = All-get_elem? xs i x a.1 h

  pub Any-append : (xs ys : List A) → Any P (xs ++ ys) → Any P xs ⊎ Any P ys
  Any-append [] ys a = inr a
  Any-append (x ∷ xs) ys (inl p) = inl (inl p)
  Any-append (x ∷ xs) ys (inr a) = elim (Any-append xs ys a) [ inl b ↦ inl (inr b) | inr b ↦ inr b ]

  pub Any-reverse : (xs : List A) → Any P (reverse xs) → Any P xs
  Any-reverse [] a = a
  Any-reverse (x ∷ xs) a = elim (Any-append (reverse xs) (x ∷ []) (rw (reverse-cons x xs) at a)) [
    | inl b ↦ inr (Any-reverse xs b)
    | inr (inl p) ↦ inl p
    | inr (inr b) ↦ absurd b
  ]

  pub Any-get_elem? : (xs : List A) → Any P xs → (i : ℕ) × (x : A) × (get_elem? xs i ≡ some x) × P x
  Any-get_elem? [] a = absurd a
  Any-get_elem? (x ∷ xs) (inl p) = (0, x, refl, p)
  Any-get_elem? (x ∷ xs) (inr a) = let (i, y, got, p) = Any-get_elem? xs a in (suc i, y, got, p)

  pub Any-append_left : (xs ys : List A) → Any P xs → Any P (xs ++ ys)
  Any-append_left [] ys a = absurd a
  Any-append_left (x ∷ xs) ys (inl p) = inl p
  Any-append_left (x ∷ xs) ys (inr a) = inr (Any-append_left xs ys a)

  pub Any-append_right : (xs ys : List A) → Any P ys → Any P (xs ++ ys)
  Any-append_right [] ys a = a
  Any-append_right (x ∷ xs) ys a = inr (Any-append_right xs ys a)

  pub reverse-Any : (xs : List A) → Any P xs → Any P (reverse xs)
  reverse-Any [] a = a
  reverse-Any (x ∷ xs) (inl p) =
      rw (reverse-cons x xs) (Any-append_right (reverse xs) (x ∷ []) (inl p))
  reverse-Any (x ∷ xs) (inr a) =
      rw (reverse-cons x xs) (Any-append_left (reverse xs) (x ∷ []) (reverse-Any xs a))

pub get_elem?-Any :
    {A : Type 0} (xs : List A) (i : ℕ) (x : A) → get_elem? xs i ≡ some x → Any (λ y. y ≡ x) xs
get_elem?-Any [] i x h = cc
get_elem?-Any (y ∷ xs) zero x h = inl (some-injective y x h)
get_elem?-Any (y ∷ xs) (suc i) x h = inr (get_elem?-Any xs i x h)

-- What holds of all elements holds of one that occurs.
pub All-occurs :
    {A : Type 0} (P : A → Type 0) (xs : List A) (a : A) → All P xs → Any (λ x. x ≡ a) xs → P a
All-occurs P [] a h o = absurd o
All-occurs P (x ∷ xs) a (h, hs) (inl e) = subst P e h
All-occurs P (x ∷ xs) a (h, hs) (inr o) = All-occurs P xs a hs o
