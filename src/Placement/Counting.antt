-- ===== src/Placement/Counting.antt =====
-- Sets of texts compared by their sizes.
use maand.Prelude.{
  ◌≤◌, String, Bool, true, ◌&&◌, ◌||◌, List, [], ◌∷◌, ◌≡◌, refl, sym, ap, ◌∙◌, arith, ◌==◌, ==_iff,
  ==_refl, comparable_String, nat_beq, contains, remove, Distinct, contains-remove, Distinct-remove,
  length-remove, length, Bool-cases, inl, inr,
}
use maand.Utils.{unique, keep_if}
use maand.Utils.Members.{contains-unique, Distinct-unique, contains-keep_if}

abbrev pub Within : List String → List String → Type 0
Within xs ys = (x : String) → contains x xs ≡ true → contains x ys ≡ true

Within-length :
    (xs ys : List String) → Distinct xs → Distinct ys → Within xs ys → length xs ≤ length ys
unfolding contains
Within-length [] ys d e w = omega arith
Within-length (x ∷ xs) ys d e w =
    let own : contains x ys ≡ true = w x (ground (arith, ==_refl x)) in
    let rest : Within xs (remove x ys) = λ z there.
      contains-remove x z ys
      ∙ ground (
        arith,
        w z,
        there,
        d.0,
        ==_iff z x,
        λ (p : z ≡ x). ap (λ (y : String). contains y xs) p,
      ) in
    ground (
      arith,
      own,
      length-remove x ys e,
      Within-length xs (remove x ys) d.1 (Distinct-remove x ys e) rest,
    )

-- A set within another one that has no more members has all of them.
Within-back :
    (xs ys : List String)
    → Distinct xs
    → Distinct ys
    → Within xs ys
    → length ys ≡ length xs
    → Within ys xs
unfolding contains
Within-back xs ys d e w same y there = elim (Bool-cases (contains y xs)) [
  | inl own ↦ own
  | inr new ↦
      let more : Within (y ∷ xs) ys = λ z there'.
        let wz : contains z xs ≡ true → contains z ys ≡ true = w z in
        let here : ((z == y) || contains z xs) ≡ true = there' in
        ground (
          arith,
          here,
          wz,
          there,
          ==_iff z y,
          λ (p : z ≡ y). ap (λ (x : String). contains x ys) p,
        ) in
      absurd (ground (arith, Within-length (y ∷ xs) ys (new, d) e more, same))
]

-- Whether all of the first list's members are members of the second.
unfoldable pub all_in : List String → List String → Bool
all_in [] ys = true
all_in (x ∷ xs) ys = contains x ys && all_in xs ys

pub all_in-Within : (xs ys : List String) → all_in xs ys ≡ true → Within xs ys
unfolding all_in contains
all_in-Within [] ys h x there = absurd (cc)
all_in-Within (y ∷ xs) ys h x there =
    let later : all_in xs ys ≡ true → contains x xs ≡ true → contains x ys ≡ true =
      λ a b. all_in-Within xs ys a x b in
    let all : (contains y ys && all_in xs ys) ≡ true = h in
    let here : ((x == y) || contains x xs) ≡ true = there in
    ground
      (arith, all, here, later, ==_iff x y, λ (p : x ≡ y). ap (λ (z : String). contains z ys) p)

pub Within-all_in : (xs ys : List String) → Within xs ys → all_in xs ys ≡ true
unfolding all_in contains
Within-all_in [] ys w = refl
Within-all_in (x ∷ xs) ys w =
    let here : contains x ys ≡ true = w x (ground (arith, ==_refl x)) in
    let rest : all_in xs ys ≡ true = Within-all_in xs ys (λ z there. w z (ground (arith, there))) in
    ground (arith, here, rest)

-- As many distinct members of the second list are in the first as the first has, exactly when the
-- second list has them all.
pub count-all_in :
    (xs ys : List String)
    → nat_beq (length (unique xs)) (length (unique (keep_if true xs ys))) ≡ all_in xs ys
count-all_in xs ys = elim (Bool-cases (all_in xs ys)) [
  | inl all ↦
      let w = all_in-Within xs ys all in
      let a : length (unique xs) ≤ length (unique both) =
        Within-length (unique xs) (unique both) (Distinct-unique xs) (Distinct-unique both)
          (λ z there.
            let own : contains z xs ≡ true = sym (contains-unique z xs) ∙ there in
            contains-unique z both ∙ contains-keep_if z true xs ys ∙ rw (own, w z own) refl) in
      let b =
        Within-length (unique both) (unique xs) (Distinct-unique both) (Distinct-unique xs)
          inside in
      ground (arith, a, b, all)
  | inr lacks ↦ elim (Bool-cases (nat_beq (length (unique xs)) (length (unique both)))) [
    | inr fewer ↦ fewer ∙ sym lacks
    | inl same ↦
        let back =
          Within-back (unique both) (unique xs) (Distinct-unique both) (Distinct-unique xs) inside
            (ground (arith, same)) in
        let all = Within-all_in xs ys λ z there.
          let t : contains z both ≡ true =
            sym (contains-unique z both) ∙ back z (contains-unique z xs ∙ there) in
          ground (arith, t, contains-keep_if z true xs ys) in
        absurd (cc (rw all at lacks))
  ]
]
  where
    both : List String
    both = keep_if true xs ys

    inside : Within (unique both) (unique xs)
    inside z there =
        let t : contains z both ≡ true = sym (contains-unique z both) ∙ there in
        contains-unique z xs ∙ ground (arith, t, contains-keep_if z true xs ys)
