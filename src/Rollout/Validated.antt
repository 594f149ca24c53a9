-- ===== src/Rollout/Validated.antt =====
-- validateRolloutOrderList of deploy/ordering.go: which orders it accepts.
use maand.Prelude.{
  String, true, false, not, ◌&&◌, ◌||◌, List, [], ◌∷◌, ◌≡◌, refl, sym, ap, ◌∙◌, arith, ==_iff,
  ==_refl, comparable_String, contains, add, Distinct, ◌↔◌, contains-add, Bool-cases, inl, inr,
  Result, ok, err,
}
use maand.Rollout.{
  OrderFault, check_listed, check_active, check_seen, no_elements, validate_rollout_order_list,
}
use maand.Rollout.Order.{Rearranges}

-- The loop over the list accepts it: its addresses are new and active, each once.
check_listed-ok :
    (list active seen seen' : List String)
    → check_listed list active seen ≡ ok seen'
    → Distinct list
      × ((ip : String) → contains ip list ≡ true → contains ip seen ≡ false)
      × ((ip : String) → contains ip list ≡ true → contains ip active ≡ true)
      × ((ip : String) → contains ip seen' ≡ (contains ip seen || contains ip list))
unfolding check_listed contains
check_listed-ok [] active seen seen' h =
    (tt, λ ip there. absurd (cc), λ ip there. absurd (cc), λ ip. base ip)
  where
    base : (ip : String) → contains ip seen' ≡ (contains ip seen || false)
    base ip = let e : seen' ≡ seen = ground arith in rw e (ground arith)
check_listed-ok (x ∷ list) active seen seen' h = elim (Bool-cases (contains x seen)) [
  | inl dup ↦ absurd (cc (rw dup at h))
  | inr new ↦ elim (Bool-cases (contains x active)) [
    | inr unknown ↦ absurd (cc (rw (new, unknown) at h))
    | inl known ↦
        let t = check_listed-ok list active (add x seen) seen' (rw (new, known) at h) in
        (
          (ground (arith, t.1 x, contains-add x x seen, ==_refl x), t.0),
          λ ip there. ground (
            arith,
            there,
            new,
            t.1 ip,
            contains-add x ip seen,
            ==_iff ip x,
            λ (p : ip ≡ x). ap (λ (y : String). contains y seen) p,
          ),
          λ ip there. ground (
            arith,
            there,
            known,
            t.2 ip,
            ==_iff ip x,
            λ (p : ip ≡ x). ap (λ (y : String). contains y active) p,
          ),
          λ ip. t.3 ip ∙ ground (arith, contains-add x ip seen),
        )
  ]
]

check_active-ok :
    (active seen : List String)
    → check_active active seen ≡ ok tt
    → (ip : String) → contains ip active ≡ true
    → contains ip seen ≡ true
unfolding check_active contains
check_active-ok [] seen h ip there = absurd (cc)
check_active-ok (x ∷ active) seen h ip there = elim (Bool-cases (contains x seen)) [
  | inr missing ↦ absurd (cc (rw missing at h))
  | inl seen_x ↦ ground (
    arith,
    seen_x,
    there,
    check_active-ok active seen (rw seen_x at h) ip,
    ==_iff ip x,
    λ (p : ip ≡ x). ap (λ (y : String). contains y seen) p,
  )
]

validated :
    (list active : List String)
    → validate_rollout_order_list list active ≡ ok tt
    → (seen : List String) × (check_listed list active [] ≡ ok seen)
      × (check_active active seen ≡ ok tt)
unfolding validate_rollout_order_list
validated list active h = elim (Bool-cases (no_elements list && not (no_elements active))) [
  | inl empty ↦ absurd (cc (rw empty at h))
  | inr full ↦ split (check_listed list active []) refl (rw full at h)
]
  where
    split :
        (r : Result OrderFault (List String))
        → check_listed list active [] ≡ r
        → check_seen active r ≡ ok tt
        → (seen : List String) × (check_listed list active [] ≡ ok seen)
          × (check_active active seen ≡ ok tt)
    split (err e) q h = absurd (cc)
    split (ok seen) q h = (seen, q, h)

none_seen : (ip : String) → contains ip [] ≡ false
unfolding contains
none_seen ip = refl

validate_rollout_order_list-Rearranges :
    (list active : List String)
    → validate_rollout_order_list list active ≡ ok tt
    → Rearranges list active
validate_rollout_order_list-Rearranges list active h =
    let v = validated list active h in
    let t = check_listed-ok list active [] v.0 v.1 in
    record {
      distinct = t.0;
      members =
          λ ip. ground (arith, t.2 ip, t.3 ip, check_active-ok active v.0 v.2 ip, none_seen ip);
    }

check_listed-accepts :
    (list active seen : List String)
    → Distinct list
    → ((ip : String) → contains ip list ≡ true → contains ip seen ≡ false)
    → ((ip : String) → contains ip list ≡ true → contains ip active ≡ true)
    → (seen' : List String) × (check_listed list active seen ≡ ok seen')
unfolding check_listed contains
check_listed-accepts [] active seen d fresh known = (seen, refl)
check_listed-accepts (x ∷ list) active seen d fresh known =
    rw (fresh x (rw (==_refl x) refl), known x (rw (==_refl x) refl))
      (check_listed-accepts list active (add x seen) d.1
        (λ ip there.
          contains-add x ip seen
          ∙ ground (
            arith,
            there,
            d.0,
            fresh ip,
            ==_iff ip x,
            λ (p : ip ≡ x). ap (λ (y : String). contains y list) p,
          ))
        (λ ip there. known ip (ground (arith, there))))

check_active-accepts :
    (active seen : List String)
    → ((ip : String) → contains ip active ≡ true → contains ip seen ≡ true)
    → check_active active seen ≡ ok tt
unfolding check_active contains
check_active-accepts [] seen h = refl
check_active-accepts (x ∷ active) seen h =
    rw (h x (rw (==_refl x) refl))
      (check_active-accepts active seen (λ ip there. h ip (ground (arith, there))))

not_short :
    (list active : List String)
    → ((ip : String) → contains ip list ≡ contains ip active)
    → (no_elements list && not (no_elements active)) ≡ false
unfolding contains
not_short [] [] h = refl
not_short [] (x ∷ active) h = ground (arith, h x, ==_refl x)
not_short (x ∷ list) active h = refl

-- A rollout_order is accepted exactly if it is an order of the active allocations, each once.
pub validate_rollout_order_list_iff :
    (list active : List String)
    → (validate_rollout_order_list list active ≡ ok tt) ↔ Rearranges list active
unfolding validate_rollout_order_list
validate_rollout_order_list_iff list active = (
  λ h. validate_rollout_order_list-Rearranges list active h,
  λ r.
      let c =
        check_listed-accepts list active [] r.distinct (λ ip _. none_seen ip)
          (λ ip there. sym (r.members ip) ∙ there) in
      let t = check_listed-ok list active [] c.0 c.1 in
      rw (not_short list active r.members) (
        rw c.1 (
          check_active-accepts active c.0
            (λ ip there. t.3 ip ∙ ground (arith, there, r.members ip)))),
)
