-- ===== src/Rollout/Resolved.antt =====
-- ResolveRolloutOrder of deploy/ordering.go.
use maand.Prelude.{
  String, true, Option, none, some, List, [], ◌∷◌, ◌≡◌, refl, sym, ap, ◌∙◌, arith, ==_refl,
  comparable_String, contains, Distinct, All, Result, ok, err,
}
use maand.Text.{join_commas}
use maand.Text.Lists.{IsItem, trim_parts-join_commas}
use maand.Kv.{Store}
use maand.Rollout.{
  ResolvedRolloutOrder, OrderFault, from_kv, validate_rollout_order_list, order_by_list,
  default_catalog_order, choose_order, order_from, parse_order_list, resolve_rollout_order,
  read_rollout_order_kv,
}
use maand.Rollout.Order.{Rearranges, default_catalog_order-Rearranges}
use maand.Rollout.Validated.{validate_rollout_order_list_iff}

order_by_list-all :
    (candidates list : List String)
    → ((ip : String) → contains ip list ≡ true → contains ip candidates ≡ true)
    → order_by_list candidates list ≡ list
unfolding order_by_list contains
order_by_list-all candidates [] h = refl
order_by_list-all candidates (x ∷ list) h =
    rw (h x (rw (==_refl x) refl)) (
      ap (λ r. x ∷ r)
        (order_by_list-all candidates list (λ ip there. h ip (ground (arith, there)))))

order_by_list-Rearranges :
    (candidates list : List String)
    → Rearranges list candidates
    → Rearranges (order_by_list candidates list) candidates
order_by_list-Rearranges candidates list r =
    rw (order_by_list-all candidates list (λ ip there. sym (r.members ip) ∙ there)) r

order_from-Rearranges :
    (candidates default_ordered : List String) (kv : Option String)
    → Rearranges default_ordered candidates
    → Rearranges (order_from candidates default_ordered kv).ordered candidates
unfolding order_from choose_order
order_from-Rearranges candidates default_ordered none d = d
order_from-Rearranges candidates default_ordered (some raw) d =
    split (validate_rollout_order_list (parse_order_list raw) candidates) refl
  where
    split :
        (v : Result OrderFault (Unit {0}))
        → validate_rollout_order_list (parse_order_list raw) candidates ≡ v
        → Rearranges (choose_order candidates default_ordered raw v).ordered candidates
    split (err reason) q = d
    split (ok tt) q =
        order_by_list-Rearranges candidates (parse_order_list raw)
          ((validate_rollout_order_list_iff (parse_order_list raw) candidates).0 q)

ok-eq :
    (r s : ResolvedRolloutOrder)
    → ◌≡◌ {A = Result String ResolvedRolloutOrder} (ok r) (ok s)
    → r ≡ s
ok-eq r s e = ground arith

-- Whatever the key-value store holds, and whatever the catalog lists without repetitions, an order
-- that ResolveRolloutOrder returns has exactly the candidates, each once.
pub resolve_rollout_order-Rearranges :
    (catalog : List String) (store : Option Store) (job : String) (candidates : List String)
    (r : ResolvedRolloutOrder)
    → Distinct catalog
    → resolve_rollout_order {E = String} (ok catalog) store job candidates ≡ ok r
    → Rearranges r.ordered candidates
unfolding resolve_rollout_order
resolve_rollout_order-Rearranges catalog store job [] r d h =
    rw (← ok-eq _ _ h) (record { distinct = tt; members = λ ip. refl })
resolve_rollout_order-Rearranges catalog store job (c ∷ candidates) r d h = rw (← ok-eq _ _ h) (
    order_from-Rearranges (c ∷ candidates) (default_catalog_order catalog (c ∷ candidates))
      (read_rollout_order_kv store job)
      (default_catalog_order-Rearranges catalog (c ∷ candidates) d))

-- An order of the key-value store that has exactly the candidates, each once, is the order that is
-- taken, as it is written there.
pub order_from_kv :
    (candidates default_ordered : List String) (raw : String)
    → Rearranges (parse_order_list raw) candidates
    → order_from candidates default_ordered (some raw)
      ≡ record { ordered = parse_order_list raw; full_order = raw; source = from_kv }
unfolding order_from choose_order
order_from_kv candidates default_ordered raw r =
    rw ((validate_rollout_order_list_iff (parse_order_list raw) candidates).1 r) (
      rw
        (order_by_list-all candidates (parse_order_list raw)
          (λ ip there. sym (r.members ip) ∙ there))
        refl)

-- The text that a batch hook gets for the default order, put into the key rollout_order, is read as
-- the same order, if each address is not empty, trimmed and without a comma.
pub default_order_again :
    (candidates default_ordered : List String)
    → All IsItem default_ordered
    → Rearranges default_ordered candidates
    → (order_from candidates default_ordered
        (some (order_from candidates default_ordered none).full_order)).ordered
      ≡ default_ordered
unfolding order_from join_commas
default_order_again candidates default_ordered items r =
    let q : parse_order_list (join_commas default_ordered) ≡ default_ordered =
      unfold parse_order_list in trim_parts-join_commas default_ordered items in
    ap ResolvedRolloutOrder.ordered
      (order_from_kv candidates default_ordered (join_commas default_ordered) (rw q r))
    ∙ q
