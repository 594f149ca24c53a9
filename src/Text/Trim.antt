-- ===== src/Text/Trim.antt =====
-- Trimming twice is trimming once.
use Prim.Native.Char.{code}
use Prim.Native.String.{String, [], ◌∷◌}
use maand.Prelude.{Bool, true, not, ◌&&◌, ◌≡◌, refl, arith, Bool-cases, inl, inr}
use maand.Text.{is_space, is_empty, trim_left, trim_right, trim_space}

-- A text that does not begin with a space.
abbrev starts_clean : String → Bool
starts_clean [] = true
starts_clean (c ∷ s) = not (is_space (code c))

trim_left-clean : (s : String) → starts_clean (trim_left s) ≡ true
unfolding trim_left
trim_left-clean [] = refl
trim_left-clean (c ∷ s) = ground (arith, trim_left-clean s)

trim_left_fixed : (s : String) → starts_clean s ≡ true → trim_left s ≡ s
unfolding trim_left
trim_left_fixed [] h = refl
trim_left_fixed (c ∷ s) h = ground arith

trim_right-clean : (s : String) → starts_clean s ≡ true → starts_clean (trim_right s) ≡ true
unfolding trim_right
trim_right-clean [] h = refl
trim_right-clean (c ∷ s) h = ground arith

trim_right_idem : (s : String) → trim_right (trim_right s) ≡ trim_right s
unfolding trim_right
trim_right_idem [] = refl
trim_right_idem (c ∷ s) = elim (Bool-cases (is_space (code c) && is_empty (trim_right s))) [
  | inl gone ↦ rw (gone, trim_right) refl
  | inr stays ↦
      rw (stays, trim_right) (rw (trim_right_idem s, trim_right) (rw (stays, trim_right) refl))
]

pub trim_space_idem : (s : String) → trim_space (trim_space s) ≡ trim_space s
unfolding trim_space
trim_space_idem s =
    rw
      (trim_left_fixed (trim_right (trim_left s))
        (trim_right-clean (trim_left s) (trim_left-clean s)))
      (trim_right_idem (trim_left s))
