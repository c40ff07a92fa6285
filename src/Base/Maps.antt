-- ===== src/Base/Maps.antt =====
-- Go maps as lists of pairs, in which a key stands once.
use mathlib.Core.Path.{◌≡◌, refl, subst}
use mathlib.Core.Logic.{◌≢◌, ◌↔◌, inl, inr}
use mathlib.Core.Bool.{Bool, true, false}
use mathlib.Core.List.{List, [], ◌∷◌}
use mathlib.Core.Option.{Option, none, some}
use go_data_transfer.Base.Tests.{if◌then◌else◌, Bool-cases}

-- Keys with a test of equality.
pub record Key (K : Type 0) : Type 0 where
  pub same : K → K → Bool
  pub same_iff : (a b : K) → (same a b ≡ true) ↔ (a ≡ b)

module _ {K : Type 0} (key : Key K) where
  pub same_refl : (k : K) → key.same k k ≡ true
  same_refl k = (key.same_iff k k).1 refl

  pub same_not : (j k : K) → j ≢ k → key.same j k ≡ false
  same_not j k other = elim (Bool-cases (key.same j k)) [
    | inl hit ↦ absurd (other ((key.same_iff j k).0 hit))
    | inr miss ↦ miss
  ]

module _ {K V : Type 0} (key : Key K) where
  unfoldable pub find : List (K × V) → K → Option V
  find [] k = none
  find ((j, v) ∷ m) k = if key.same j k then some v else find m k

  -- `delete(m, k)`
  unfoldable pub remove : K → List (K × V) → List (K × V)
  remove k [] = []
  remove k ((j, v) ∷ m) = if key.same j k then remove k m else (j, v) ∷ remove k m

  -- `m[k] = v`
  unfoldable pub insert : K → V → List (K × V) → List (K × V)
  insert k v m = (k, v) ∷ remove k m

  pub find-remove : (k : K) (m : List (K × V)) → find (remove k m) k ≡ none
  unfolding find remove
  find-remove k [] = refl
  find-remove k ((j, v) ∷ m) = elim (Bool-cases (key.same j k)) [
    | inl hit ↦ rw hit (find-remove k m)
    | inr miss ↦ rw (miss, miss) (find-remove k m)
  ]

  pub find-remove_other : (k j : K) (m : List (K × V)) → k ≢ j → find (remove k m) j ≡ find m j
  unfolding find remove
  find-remove_other k j [] other = refl
  find-remove_other k j ((i, v) ∷ m) other =
      let rest = find-remove_other k j m other in
      elim (Bool-cases (key.same i k)) [
        | inl hit ↦
            let apart =
              same_not key i j (λ e. other (subst (λ x. x ≡ j) ((key.same_iff i k).0 hit) e)) in
            rw (hit, apart) rest
        | inr miss ↦ rw (miss, rest) refl
      ]

  pub find-insert : (k : K) (v : V) (m : List (K × V)) → find (insert k v m) k ≡ some v
  unfolding find insert
  find-insert k v m = rw (same_refl key k) refl

  pub find-insert_other :
      (k j : K) (v : V) (m : List (K × V)) → k ≢ j → find (insert k v m) j ≡ find m j
  unfolding find insert
  find-insert_other k j v m other = rw (same_not key k j other) (find-remove_other k j m other)
