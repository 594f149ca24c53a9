-- ===== src/Prelude/Sets.antt =====
-- Go's `map[K]struct{}`: a list without repetitions. The order of a set is not observable in the
-- program except where it ranges over one, and there the order is Go's choice.
use Prim.Native.Nat.{suc, ◌+◌}
use mathlib.Core.Path.{◌≡◌, refl, ap, ◌∙◌}
use mathlib.Core.Bool.{Bool, true, false, ◌||◌, not, ◌&&◌}
use mathlib.Core.List.{List, [], ◌∷◌, ◌++◌}
use native.Mathlib.Omega.{arith}
use maand.Prelude.Tests.{if◌then◌else◌}
use maand.Prelude.Equality.{Comparable, ◌==◌}
use maand.Prelude.Lists.{length}

module _ {ℓ} {A : Type ℓ} ⦃e : Comparable A⦄ where
  -- `_, ok := set[a]`
  unfoldable pub contains : A → List A → Bool
  contains a [] = false
  contains a (x ∷ xs) = (a == x) || contains a xs

  -- `set[a] = struct{}{}`
  unfoldable pub add : A → List A → List A
  unfolding contains
  add a xs = if contains a xs then xs else a ∷ xs

  -- `delete(set, a)`
  unfoldable pub remove : A → List A → List A
  remove a [] = []
  remove a (x ∷ xs) = let rest = remove a xs in if a == x then rest else x ∷ rest

  abbrev pub Distinct : List A → Type 0
  Distinct [] = Unit
  Distinct (x ∷ xs) = (contains x xs ≡ false) × Distinct xs

  pub contains-add : (a b : A) (xs : List A) → contains b (add a xs) ≡ ((b == a) || contains b xs)
  unfolding add
  contains-add a b xs = go (contains a xs) refl
    where
      here : (ys : List A) → a ≡ b → contains a ys ≡ contains b ys
      here ys p = ap (λ c. contains c ys) p

      go :
          (t : Bool)
          → contains a xs ≡ t
          → contains b (if t then xs else a ∷ xs) ≡ ((b == a) || contains b xs)
      go true h = ground (arith, e.same_iff b a, λ (p : a ≡ b). here xs p)
      go false h = refl

  pub contains-remove :
      (a b : A) (xs : List A) → contains b (remove a xs) ≡ (not (b == a) && contains b xs)
  unfolding contains remove
  contains-remove a b [] = ground arith
  contains-remove a b (x ∷ xs) =
      ground (arith, contains-remove a b xs, e.same_iff a x, e.same_iff b x, e.same_iff b a)

  pub contains-append :
      (a : A) (xs ys : List A) → contains a (xs ++ ys) ≡ (contains a xs || contains a ys)
  unfolding contains
  contains-append a [] ys = refl
  contains-append a (x ∷ xs) ys = ground (arith, contains-append a xs ys)

  pub Distinct-add : (a : A) (xs : List A) → Distinct xs → Distinct (add a xs)
  unfolding add
  Distinct-add a xs d = ground arith

  pub Distinct-snoc :
      (a : A) (xs : List A) → Distinct xs → contains a xs ≡ false → Distinct (xs ++ a ∷ [])
  unfolding contains
  Distinct-snoc a [] d h = (refl, tt)
  Distinct-snoc a (x ∷ xs) d h = (
    contains-append x xs (a ∷ []) ∙ ground (arith, d.0, h, e.same_iff a x, e.same_iff x a),
    Distinct-snoc a xs d.1 (ground (arith, h)),
  )

  pub Distinct-remove : (a : A) (xs : List A) → Distinct xs → Distinct (remove a xs)
  unfolding remove
  Distinct-remove a [] d = d
  Distinct-remove a (x ∷ xs) d = ground (arith, Distinct-remove a xs d.1, contains-remove a x xs)

  pub length-add :
      (a : A) (xs : List A)
      → length (add a xs) ≡ (if contains a xs then length xs else suc (length xs))
  unfolding add
  length-add a xs = ground arith

  pub remove_fresh : (a : A) (xs : List A) → contains a xs ≡ false → remove a xs ≡ xs
  unfolding contains remove
  remove_fresh a [] h = refl
  remove_fresh a (x ∷ xs) h = ground (arith, remove_fresh a xs)

  pub length-remove :
      (a : A) (xs : List A)
      → Distinct xs
      → length (remove a xs) + (if contains a xs then 1 else 0) ≡ length xs
  unfolding contains remove
  length-remove a [] d = refl
  length-remove a (x ∷ xs) d =
      ground (arith, length-remove a xs d.1, e.same_iff a x, remove_fresh a xs)
