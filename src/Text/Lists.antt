-- ===== src/Text/Lists.antt =====
-- Comma-separated lists: what is joined is read again.
use Prim.Native.Char.{code}
use maand.Prelude.{
  Bool, true, false, String, List, [], ◌∷◌, ◌≡◌, refl, ap, ◌∙◌, nat_beq, All, if◌then◌else◌,
  Bool-cases, inl, inr,
}
use maand.Text.{
  is_empty, trim_space, concat_text, split_commas, join_after, join_commas, trim_parts,
}

unfoldable pub has_comma : String → Bool
has_comma String.[] = false
has_comma (String.◌∷◌ c s) = if nat_beq (code c) b',' then true else has_comma s

-- A name that a comma-separated list carries as it is.
pub record IsItem (s : String) : Type 0 where
  pub no_comma : has_comma s ≡ false
  pub trimmed : trim_space s ≡ s
  pub not_empty : is_empty s ≡ false

split_commas-item : (s : String) → has_comma s ≡ false → split_commas s ≡ (s ∷ [])
unfolding split_commas has_comma
split_commas-item String.[] h = refl
split_commas-item (String.◌∷◌ c s) h = elim (Bool-cases (nat_beq (code c) b',')) [
  | inl comma ↦ absurd (cc (rw comma at h))
  | inr other ↦ rw (other, split_commas) (rw (split_commas-item s (rw other at h)) refl)
]

split_commas-concat_text :
    (s t : String)
    → has_comma s ≡ false
    → split_commas (concat_text s (concat_text "," t)) ≡ (s ∷ split_commas t)
unfolding split_commas has_comma concat_text
split_commas-concat_text String.[] t h = refl
split_commas-concat_text (String.◌∷◌ c s) t h = elim (Bool-cases (nat_beq (code c) b',')) [
  | inl comma ↦ absurd (cc (rw comma at h))
  | inr other ↦ rw (other, split_commas) (rw (split_commas-concat_text s t (rw other at h)) refl)
]

split_commas-join_after :
    (part : String) (parts : List String)
    → IsItem part
    → All IsItem parts
    → split_commas (join_after part parts) ≡ (part ∷ parts)
unfolding join_after
split_commas-join_after part [] h hs = split_commas-item part h.no_comma
split_commas-join_after part (next ∷ parts) h hs =
    split_commas-concat_text part (join_after next parts) h.no_comma
    ∙ ap (λ ps. part ∷ ps) (split_commas-join_after next parts hs.0 hs.1)

pub trim_parts-items : (parts : List String) → All IsItem parts → trim_parts parts ≡ parts
unfolding trim_parts
trim_parts-items [] h = refl
trim_parts-items (part ∷ parts) h =
    rw h.0.trimmed (rw h.0.not_empty (ap (λ ps. part ∷ ps) (trim_parts-items parts h.1)))

pub trim_parts-join_commas :
    (parts : List String) → All IsItem parts → trim_parts (split_commas (join_commas parts)) ≡ parts
unfolding join_commas
trim_parts-join_commas [] h = unfold trim_parts split_commas trim_space in refl
trim_parts-join_commas (part ∷ parts) h =
    rw (split_commas-join_after part parts h.0 h.1) (trim_parts-items (part ∷ parts) h)
