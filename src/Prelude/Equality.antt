-- ===== src/Prelude/Equality.antt =====
-- `==` of Go's comparable types, as an interface with instances for numbers and texts.
use Prim.Native.Nat.{ℕ}
use Prim.Native.String.{String}
use mathlib.Core.Path.{◌≡◌, refl, ap}
use mathlib.Core.Logic.{◌↔◌}
use mathlib.Core.Bool.{Bool, true, ◌&&◌}
use native.Mathlib.Omega.{arith}
use text.Mathlib.Text
use text.Mathlib.TextEquality
use maand.Prelude.Tests.{nat_beq}
use maand.Prelude.Int.{ℤ, eq_ℤ, eq_ℤ_iff}

pub record Comparable {ℓ} (K : Type ℓ) : Type ℓ where
  pub same : K → K → Bool
  pub same_iff : (j k : K) → (same j k ≡ true) ↔ (j ≡ k)

module _ {ℓ} {K : Type ℓ} ⦃c : Comparable K⦄ where
  infix 50 ◌==◌
  abbrev pub ◌==◌ : K → K → Bool
  j == k = c.same j k

  pub ==_iff : (j k : K) → ((j == k) ≡ true) ↔ (j ≡ k)
  ==_iff = c.same_iff

  pub ==_refl : (k : K) → (k == k) ≡ true
  ==_refl k = (c.same_iff k k).1 refl

pub nat_beq_iff : (m n : ℕ) → (nat_beq m n ≡ true) ↔ (m ≡ n)
nat_beq_iff m n = ground arith

instance abbrev pub comparable_ℕ : Comparable ℕ
comparable_ℕ = record { same = nat_beq; same_iff = nat_beq_iff }

instance abbrev pub comparable_String : Comparable String
comparable_String = record { same = Text.◌==◌; same_iff = TextEquality.eq_iff }

instance abbrev pub comparable_ℤ : Comparable ℤ
comparable_ℤ = record { same = eq_ℤ; same_iff = eq_ℤ_iff }

-- Keys of two parts.
module _ {A B : Type 0} ⦃a : Comparable A⦄ ⦃b : Comparable B⦄ where
  abbrev pub same_pair : A × B → A × B → Bool
  same_pair p q = (p.0 == q.0) && (p.1 == q.1)

  pub same_pair_iff : (p q : A × B) → (same_pair p q ≡ true) ↔ (p ≡ q)
  same_pair_iff (x, y) (z, w) = (
    λ h.
        let e : x ≡ z = (a.same_iff x z).0 (ground (arith, h)) in
        let f : y ≡ w = (b.same_iff y w).0 (ground (arith, h)) in λ i. (e i, f i),
    λ h.
        let e = (a.same_iff x z).1 (ap (λ (p : A × B). p.0) h) in
        let f = (b.same_iff y w).1 (ap (λ (p : A × B). p.1) h) in ground (arith, e, f),
  )

  instance abbrev pub comparable_pair : Comparable (A × B)
  comparable_pair = record { same = same_pair; same_iff = same_pair_iff }
