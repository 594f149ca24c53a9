-- ===== src/Rollout/Order.antt =====
-- defaultCatalogOrder and orderByList of deploy/ordering.go: orders of the candidates, each once.
use maand.Prelude.{
  String, ◌&&◌, ◌||◌, List, [], ◌∷◌, ◌++◌, ◌≡◌, ap, ◌∙◌, arith, ==_iff, comparable_String, contains,
  Distinct, Distinct-snoc, contains-append, Bool-cases, inl, inr,
}
use maand.Rollout.{order_by_list, append_missing, default_catalog_order}

-- A list with the same members, each once.
pub record Rearranges (ordered candidates : List String) : Type 0 where
  pub distinct : Distinct ordered
  pub members : (ip : String) → contains ip ordered ≡ contains ip candidates

pub contains-order_by_list :
    (ip : String) (candidates list : List String)
    → contains ip (order_by_list candidates list) ≡ (contains ip candidates && contains ip list)
unfolding order_by_list contains
contains-order_by_list ip candidates [] = ground arith
contains-order_by_list ip candidates (x ∷ list) = ground (
  arith,
  contains-order_by_list ip candidates list,
  ==_iff ip x,
  λ (p : ip ≡ x). ap (λ (y : String). contains y candidates) p,
)

Distinct-order_by_list :
    (candidates list : List String) → Distinct list → Distinct (order_by_list candidates list)
unfolding order_by_list
Distinct-order_by_list candidates [] d = tt
Distinct-order_by_list candidates (x ∷ list) d = ground (
  arith,
  Distinct-order_by_list candidates list d.1,
  contains-order_by_list x candidates list,
  d.0,
)

append_missing-members :
    (ip : String) (candidates ordered : List String)
    → contains ip (append_missing candidates ordered)
      ≡ (contains ip ordered || contains ip candidates)
unfolding append_missing contains
append_missing-members ip [] ordered = ground arith
append_missing-members ip (c ∷ candidates) ordered = elim (Bool-cases (contains c ordered)) [
  | inl there ↦ rw there (
      append_missing-members ip candidates ordered
      ∙ ground
          (arith, there, ==_iff ip c, λ (p : ip ≡ c). ap (λ (y : String). contains y ordered) p))
  | inr new ↦ rw new (
      append_missing-members ip candidates (ordered ++ c ∷ [])
      ∙ ground (arith, contains-append ip ordered (c ∷ [])))
]

append_missing-Distinct :
    (candidates ordered : List String)
    → Distinct ordered
    → Distinct (append_missing candidates ordered)
unfolding append_missing
append_missing-Distinct [] ordered d = d
append_missing-Distinct (c ∷ candidates) ordered d = elim (Bool-cases (contains c ordered)) [
  | inl there ↦ rw there (append_missing-Distinct candidates ordered d)
  | inr new ↦
      rw new
        (append_missing-Distinct candidates (ordered ++ c ∷ []) (Distinct-snoc c ordered d new))
]

pub default_catalog_order-Rearranges :
    (catalog candidates : List String)
    → Distinct catalog
    → Rearranges (default_catalog_order catalog candidates) candidates
unfolding default_catalog_order
default_catalog_order-Rearranges catalog candidates d = record {
  distinct =
      append_missing-Distinct candidates (order_by_list candidates catalog)
        (Distinct-order_by_list candidates catalog d);
  members = λ ip.
      append_missing-members ip candidates (order_by_list candidates catalog)
      ∙ ground (arith, contains-order_by_list ip candidates catalog);
}
