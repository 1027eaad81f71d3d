-- ===== src/Prelude/Assoc.antt =====
-- A `HashMap` as an association list with one entry for each key.
use mathlib.Core.Path.{◌≡◌, refl, sym, ◌∙◌}
use mathlib.Core.Logic.{◌↔◌, inl, inr}
use mathlib.Core.Bool.{Bool, true, false}
use mathlib.Core.List.{List, [], ◌∷◌}
use mathlib.Core.Option.{Option, none, some}
use raft_craft.Prelude.Tests.{if◌then◌else◌, Bool-cases}

module _ {ℓ κ} {K : Type ℓ} {V : Type κ} (eq : K → K → Bool) where
  unfoldable pub lookup : K → List (K × V) → Option V
  lookup k [] = none
  lookup k ((j, v) ∷ m) = if eq j k then some v else lookup k m

  unfoldable pub remove : K → List (K × V) → List (K × V)
  remove k [] = []
  remove k ((j, v) ∷ m) = if eq j k then remove k m else (j, v) ∷ remove k m

  -- `HashMap::insert`: the new value replaces the old one.
  unfoldable pub put : K → V → List (K × V) → List (K × V)
  put k v m = (k, v) ∷ remove k m

-- A map whose test decides equality.
module _ {ℓ κ} {K : Type ℓ} {V : Type κ} (eq : K → K → Bool)
    (eq_iff : (a b : K) → (eq a b ≡ true) ↔ (a ≡ b)) where
  pub lookup-remove :
      (k j : K) (m : List (K × V))
      → lookup eq j (remove eq k m) ≡ (if eq k j then none else lookup eq j m)
  unfolding lookup remove
  lookup-remove k j [] = elim (Bool-cases (eq k j)) [ inl e ↦ rw e refl | inr e ↦ rw e refl ]
  lookup-remove k j ((i, v) ∷ m) =
      let ih = lookup-remove k j m in
      elim (Bool-cases (eq i k)) [
        | inl same ↦ elim (Bool-cases (eq k j)) [
          | inl e ↦ rw (same, e) (ih ∙ rw e refl)
          | inr e ↦ rw ((eq_iff i k).0 same, e, (eq_iff k k).1 refl) (ih ∙ rw e refl)
        ]
        | inr other ↦ elim (Bool-cases (eq i j)) [
          | inl e ↦
              let apart : eq k j ≡ false = elim (Bool-cases (eq k j)) [
                | inl f ↦ absurd (
                    let g : eq i k ≡ true =
                      (eq_iff i k).1 ((eq_iff i j).0 e ∙ sym ((eq_iff k j).0 f)) in
                    cc)
                | inr f ↦ f
              ] in
              rw (other, e, apart) refl
          | inr e ↦ rw (other, e) ih
        ]
      ]

  pub lookup-put :
      (k j : K) (v : V) (m : List (K × V))
      → lookup eq j (put eq k v m) ≡ (if eq k j then some v else lookup eq j m)
  unfolding put lookup
  lookup-put k j v m = elim (Bool-cases (eq k j)) [
    | inl e ↦ rw e refl
    | inr e ↦ rw e (lookup-remove k j m ∙ rw e refl)
  ]
