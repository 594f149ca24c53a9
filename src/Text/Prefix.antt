-- ===== src/Text/Prefix.antt =====
-- Prefixes: what is put before a text is found and taken off again.
use Prim.Native.String.{String, [], ◌∷◌}
use maand.Prelude.{◌+◌, true, ◌≡◌, refl, ap, arith, comparable_ℕ}
use maand.Text.{concat_text, length_text, take_text, drop_text, has_prefix, trim_prefix}

pub has_prefix-concat_text : (s t : String) → has_prefix (concat_text s t) s ≡ true
unfolding has_prefix concat_text
has_prefix-concat_text [] t = empty t
  where
    empty : (t : String) → has_prefix t [] ≡ true
    empty [] = refl
    empty (c ∷ t) = refl
has_prefix-concat_text (c ∷ s) t = ground (arith, has_prefix-concat_text s t)

pub drop_text-concat_text : (s t : String) → drop_text (length_text s) (concat_text s t) ≡ t
unfolding drop_text concat_text length_text
drop_text-concat_text [] t = refl
drop_text-concat_text (c ∷ s) t = drop_text-concat_text s t

pub take_text-concat_text : (s t : String) → take_text (length_text s) (concat_text s t) ≡ s
unfolding take_text concat_text length_text
take_text-concat_text [] t = refl
take_text-concat_text (c ∷ s) t = ap (λ rest. c ∷ rest) (take_text-concat_text s t)

pub trim_prefix-concat_text : (s t : String) → trim_prefix (concat_text s t) s ≡ t
unfolding trim_prefix
trim_prefix-concat_text s t = rw (has_prefix-concat_text s t) (drop_text-concat_text s t)

pub length-concat_text :
    (s t : String) → length_text (concat_text s t) ≡ length_text s + length_text t
unfolding concat_text length_text
length-concat_text [] t = omega arith
length-concat_text (c ∷ s) t = omega (arith, length-concat_text s t)

-- A prefix can be taken off both sides of an equation.
pub concat_text_cancel : (s t u : String) → concat_text s t ≡ concat_text s u → t ≡ u
concat_text_cancel s t u p =
    rw (drop_text-concat_text s t, drop_text-concat_text s u) at
      (ap (λ x. drop_text (length_text s) x) p)
