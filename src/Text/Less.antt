-- ===== src/Text/Less.antt =====
-- The order of texts is a strict total order.
use Prim.Native.String.{String, [], ◌∷◌}
use text.Mathlib.TextEquality.{codes_equal}
use maand.Prelude.{true, false, ◌≡◌, refl, arith}
use maand.Text.{text_lt}

pub text_lt_irrefl : (s : String) → text_lt s s ≡ false
unfolding text_lt
text_lt_irrefl [] = refl
text_lt_irrefl (c ∷ s) = ground (arith, text_lt_irrefl s)

pub text_lt_trans : (s t u : String) → text_lt s t ≡ true → text_lt t u ≡ true → text_lt s u ≡ true
unfolding text_lt
text_lt_trans [] [] u h k = absurd (cc)
text_lt_trans [] (d ∷ t) [] h k = absurd (cc)
text_lt_trans [] (d ∷ t) (e ∷ u) h k = refl
text_lt_trans (c ∷ s) [] u h k = absurd (cc)
text_lt_trans (c ∷ s) (d ∷ t) [] h k = absurd (cc)
text_lt_trans (c ∷ s) (d ∷ t) (e ∷ u) h k = ground (arith, h, k, text_lt_trans s t u)

pub text_lt_total : (s t : String) → text_lt s t ≡ false → text_lt t s ≡ false → s ≡ t
unfolding text_lt
text_lt_total [] [] h k = refl
text_lt_total [] (d ∷ t) h k = absurd (cc)
text_lt_total (c ∷ s) [] h k = absurd (cc)
text_lt_total (c ∷ s) (d ∷ t) h k =
    let e : s ≡ t = ground (arith, h, k, text_lt_total s t) in
    let f : c ≡ d = codes_equal c d (ground (arith, h, k)) in λ i. f i ∷ e i
