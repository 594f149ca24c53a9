-- ===== src/Prelude/Keys.antt =====
-- The keys of a Go map: each once, whatever is written and deleted.
use mathlib.Core.Path.{◌≡◌, refl}
use mathlib.Core.Bool.{false, not, ◌&&◌, ◌||◌}
use mathlib.Core.Logic.{inl, inr}
use mathlib.Core.Option.{none}
use mathlib.Core.List.{[], ◌∷◌}
use native.Mathlib.Omega.{arith}
use maand.Prelude.Tests.{Bool-cases}
use maand.Prelude.Equality.{Comparable, ◌==◌, ==_iff}
use maand.Prelude.Sets.{contains, Distinct}
use maand.Prelude.Maps.{Map, lookup, put, delete, keys}

module _ {V : Type 0} {K : Type 0} ⦃c : Comparable K⦄ where
  pub contains-keys-put :
      (k j : K) (v : V) (m : Map K V)
      → contains j (keys (put k v m)) ≡ ((j == k) || contains j (keys m))
  unfolding put keys contains
  contains-keys-put k j v [] = refl
  contains-keys-put k j v ((i, w) ∷ m) =
      ground (arith, contains-keys-put k j v m, ==_iff k i, ==_iff j i, ==_iff j k)

  pub Distinct-keys-put :
      (k : K) (v : V) (m : Map K V) → Distinct (keys m) → Distinct (keys (put k v m))
  unfolding put keys contains
  Distinct-keys-put k v [] d = (refl, tt)
  Distinct-keys-put k v ((i, w) ∷ m) d = elim (Bool-cases (k == i)) [
    | inl same ↦ rw same d
    | inr other ↦ rw other (
      ground (arith, contains-keys-put k i v m, d.0, ==_iff i k, ==_iff k i),
      Distinct-keys-put k v m d.1,
    )
  ]

  pub contains-keys-delete :
      (k j : K) (m : Map K V)
      → contains j (keys (delete k m)) ≡ (not (j == k) && contains j (keys m))
  unfolding delete keys contains
  contains-keys-delete k j [] = ground arith
  contains-keys-delete k j ((i, w) ∷ m) =
      ground (arith, contains-keys-delete k j m, ==_iff k i, ==_iff j i, ==_iff j k)

  pub Distinct-keys-delete :
      (k : K) (m : Map K V) → Distinct (keys m) → Distinct (keys (delete k m))
  unfolding delete keys contains
  Distinct-keys-delete k [] d = d
  Distinct-keys-delete k ((i, w) ∷ m) d = elim (Bool-cases (k == i)) [
    | inl same ↦ rw same (Distinct-keys-delete k m d.1)
    | inr other ↦
        rw other (ground (arith, contains-keys-delete k i m, d.0), Distinct-keys-delete k m d.1)
  ]

  pub lookup_absent : (k : K) (m : Map K V) → contains k (keys m) ≡ false → lookup k m ≡ none
  unfolding lookup keys contains
  lookup_absent k [] h = refl
  lookup_absent k ((j, v) ∷ m) h = ground (arith, lookup_absent k m)
