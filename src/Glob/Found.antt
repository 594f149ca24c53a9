-- ===== src/Glob/Found.antt =====
-- What MatchAny of utils/pathmatch/glob.go finds.
use maand.Prelude.{
  String, not, ◌&&◌, List, [], ◌∷◌, ◌≡◌, refl, ap, ◌∙◌, arith, ==_iff, ==_refl, comparable_String,
  contains, add, contains-add, Distinct, Bool-cases, inl, inr,
}
use maand.Glob.{matches_some, match_rels, match_any}

contains-match_rels :
    (patterns : List String) (x : String) (seen rels : List String)
    → contains x (match_rels patterns seen rels)
      ≡ ((contains x rels && matches_some patterns x) && not (contains x seen))
unfolding match_rels contains
contains-match_rels patterns x seen [] = refl
contains-match_rels patterns x seen (rel ∷ rels) =
    elim (Bool-cases (matches_some patterns rel && not (contains rel seen))) [
      | inl new ↦ rw new (
          ground (
            arith,
            new,
            contains-match_rels patterns x (add rel seen) rels,
            contains-add rel x seen,
            ==_iff x rel,
            λ (p : x ≡ rel). ap (λ (y : String). contains y seen) p,
            λ (p : x ≡ rel). ap (λ (y : String). matches_some patterns y) p,
          ))
      | inr old ↦ rw old (
          ground (
            arith,
            old,
            contains-match_rels patterns x seen rels,
            ==_iff x rel,
            λ (p : x ≡ rel). ap (λ (y : String). contains y seen) p,
            λ (p : x ≡ rel). ap (λ (y : String). matches_some patterns y) p,
          ))
    ]

Distinct-match_rels :
    (patterns : List String) (seen rels : List String) → Distinct (match_rels patterns seen rels)
unfolding match_rels
Distinct-match_rels patterns seen [] = tt
Distinct-match_rels patterns seen (rel ∷ rels) =
    elim (Bool-cases (matches_some patterns rel && not (contains rel seen))) [
      | inl new ↦ rw new (
        contains-match_rels patterns rel (add rel seen) rels
            ∙ ground (arith, contains-add rel rel seen, ==_refl rel),
        Distinct-match_rels patterns (add rel seen) rels,
      )
      | inr old ↦ rw old (Distinct-match_rels patterns seen rels)
    ]

-- MatchAny returns exactly the paths that match one of the patterns, each once.
pub match_any-matches :
    (patterns rels : List String)
    → Distinct (match_any patterns rels)
      × ((x : String)
          → contains x (match_any patterns rels) ≡ (contains x rels && matches_some patterns x))
unfolding match_any
match_any-matches [] rels = (tt, λ x. unfold contains matches_some in ground arith)
match_any-matches (p ∷ patterns) [] = (tt, λ x. unfold contains in refl)
match_any-matches (p ∷ patterns) (r ∷ rels) = (
  Distinct-match_rels (p ∷ patterns) [] (r ∷ rels),
  λ x. contains-match_rels (p ∷ patterns) x [] (r ∷ rels) ∙ unfold contains in ground arith,
)
