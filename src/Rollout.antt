-- ===== src/Rollout.antt =====
-- deploy/ordering.go: the order in which a job's allocations are started or restarted, from the key
-- rollout_order of the key-value store or from the catalog. A Go set of addresses is a list without
-- repetitions, and a range over one visits it in the list's order.
pub mod Order
pub mod Validated
pub mod Resolved
pub mod Batches
pub mod Steps
pub mod Rolled
pub mod Started
mod Tests
use maand.Prelude.{
  String, Bool, true, false, not, ◌&&◌, Option, none, some, List, [], ◌∷◌, ◌++◌, ◌==◌,
  comparable_String, if◌then◌else◌, contains, add, Result, ok, err,
}
use maand.Text.{concat_text, trim_space, is_empty, split_commas, join_commas, trim_parts}
use maand.Kv.{Store, Entry, KvError, get}

pub data OrderSource : Type 0 where
  from_kv from_default no_source : OrderSource

pub record ResolvedRolloutOrder : Type 0 where
  pub ordered : List String
  pub full_order : String
  pub source : OrderSource

abbrev pub rollout_order_key : String
rollout_order_key = "rollout_order"

unfoldable pub job_catalog_namespace : String → String
unfolding concat_text
job_catalog_namespace job = concat_text "maand/job/" job

-- What readRolloutOrderKV makes of the result of its Get.
abbrev pub order_value : Result KvError Entry → Option String
order_value (err e) = none
order_value (ok item) =
    if is_empty (trim_space item.value) then none else some (trim_space item.value)

-- readRolloutOrderKV: none is its `"", false`. There may be no store.
unfoldable pub read_rollout_order_kv : Option Store → String → Option String
unfolding trim_space
read_rollout_order_kv none job = none
read_rollout_order_kv (some store) job =
    order_value (get (job_catalog_namespace job) rollout_order_key store)

unfoldable pub parse_order_list : String → List String
unfolding split_commas trim_parts
parse_order_list raw = trim_parts (split_commas raw)

pub data OrderFault : Type 0 where
  order_empty : OrderFault
  order_duplicate order_unknown order_missing : String → OrderFault

-- The loop over the list: the addresses seen, or the first fault.
unfoldable pub check_listed :
    List String → List String → List String → Result OrderFault (List String)
check_listed [] active seen = ok seen
check_listed (ip ∷ list) active seen =
    let rest = check_listed list active (add ip seen) in
    if contains ip seen
    then err (order_duplicate ip)
    else if not (contains ip active)
    then err (order_unknown ip)
    else rest

-- The loop over the active set.
unfoldable pub check_active : List String → List String → Result OrderFault (Unit {0})
check_active [] seen = ok tt
check_active (ip ∷ active) seen =
    let rest = check_active active seen in if contains ip seen then rest else err (order_missing ip)

abbrev pub check_seen : List String → Result OrderFault (List String) → Result OrderFault (Unit {0})
check_seen active (err e) = err e
check_seen active (ok seen) = check_active active seen

abbrev pub no_elements : List String → Bool
no_elements [] = true
no_elements (x ∷ xs) = false

unfoldable pub validate_rollout_order_list :
    List String → List String → Result OrderFault (Unit {0})
unfolding check_listed check_active
validate_rollout_order_list list active =
    if no_elements list && not (no_elements active)
    then err order_empty
    else check_seen active (check_listed list active [])

-- orderByList, and the first loop of defaultCatalogOrder: the addresses of the list that are
-- candidates, in the order of the list.
unfoldable pub order_by_list : List String → List String → List String
order_by_list candidates [] = []
order_by_list candidates (ip ∷ list) =
    let rest = order_by_list candidates list in if contains ip candidates then ip ∷ rest else rest

-- The second loop of defaultCatalogOrder.
unfoldable pub append_missing : List String → List String → List String
append_missing [] ordered = ordered
append_missing (ip ∷ candidates) ordered =
    append_missing candidates (if contains ip ordered then ordered else ordered ++ ip ∷ [])

-- defaultCatalogOrder, on the non-removed allocations of the job in catalog order.
unfoldable pub default_catalog_order : List String → List String → List String
unfolding order_by_list append_missing
default_catalog_order catalog candidates =
    append_missing candidates (order_by_list candidates catalog)

abbrev pub default_order : List String → ResolvedRolloutOrder
default_order ordered = record {
  ordered = ordered;
  full_order = join_commas ordered;
  source = from_default;
}

-- The branches on the order of the key-value store and on its validity.
unfoldable pub choose_order :
    List String → List String → String → Result OrderFault (Unit {0}) → ResolvedRolloutOrder
choose_order candidates default_ordered raw (err reason) = default_order default_ordered
choose_order candidates default_ordered raw (ok _) = record {
  ordered = order_by_list candidates (parse_order_list raw);
  full_order = raw;
  source = from_kv;
}

unfoldable pub order_from : List String → List String → Option String → ResolvedRolloutOrder
unfolding choose_order
order_from candidates default_ordered none = default_order default_ordered
order_from candidates default_ordered (some raw) =
    choose_order candidates default_ordered raw
      (validate_rollout_order_list (parse_order_list raw) candidates)

-- ResolveRolloutOrder. The query of the catalog may fail with an error of type E.
unfoldable pub resolve_rollout_order {ℓ} :
    {E : Type ℓ}
    → Result E (List String)
    → Option Store
    → String
    → List String
    → Result E ResolvedRolloutOrder
unfolding order_from
resolve_rollout_order catalog store job [] =
    ok (record { ordered = []; full_order = ""; source = no_source })
resolve_rollout_order (err e) store job (c ∷ candidates) = err e
resolve_rollout_order (ok catalog) store job (c ∷ candidates) = ok (
    order_from (c ∷ candidates) (default_catalog_order catalog (c ∷ candidates))
      (read_rollout_order_kv store job))
