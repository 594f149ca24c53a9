-- ===== src/Rollout/Tests.antt =====
-- A rollout of three workers, two at a time.
use maand.Prelude.{
  ℕ, suc, ◌≤◌, ◌+◌, String, Bool, true, false, Option, none, some, List, [], ◌∷◌, ◌≡◌, refl, ℤ, pos,
  arith, contains, comparable_String, comparable_ℕ, Distinct, lookup, put, All, ◌↔◌, Result, ok,
  err, length,
}
use maand.Text.{trim_space}
use maand.Text.Lists.{IsItem, has_comma}
use maand.Kv.{Store, new_store, put_text, put_value, get}
use maand.Rollout.{
  ResolvedRolloutOrder, from_kv, from_default, resolve_rollout_order, parse_order_list, order_from,
  read_rollout_order_kv, validate_rollout_order_list, job_catalog_namespace, rollout_order_key,
}
use maand.Rollout.Order.{Rearranges}
use maand.Rollout.Validated.{validate_rollout_order_list_iff}
use maand.Rollout.Resolved.{resolve_rollout_order-Rearranges}
use maand.Rollout.Steps.{
  Event, Outcome, finished, effect_failed, Queries, at_least_one, effective_batch_size,
  rollout_restart_batches, rollout_start_batches, phase_new, batch_count,
}
use maand.Rollout.Batches.{RolledOut, workers}
use maand.Rollout.Started.{rollout_start_batches-RolledOut, ends_checked}

abbrev catalog : List String
catalog = "10.0.0.1" ∷ "10.0.0.2" ∷ "10.0.0.3" ∷ []

abbrev wanted : List String
wanted = "10.0.0.3" ∷ "10.0.0.1" ∷ "10.0.0.2" ∷ []

catalog-Distinct : Distinct catalog
unfolding contains
catalog-Distinct = (refl, (refl, (refl, tt)))

abbrev store : Store
store =
    put_text (job_catalog_namespace "web") rollout_order_key "10.0.0.3, 10.0.0.1,,10.0.0.2 " (pos 0)
      new_store

from_store : read_rollout_order_kv (some store) "web" ≡ some "10.0.0.3, 10.0.0.1,,10.0.0.2"
unfolding read_rollout_order_kv get put_value lookup put trim_space job_catalog_namespace new_store
    maand.Kv.write_entry
from_store = refl

abbrev expected : ResolvedRolloutOrder
expected = record {
  ordered = catalog;
  full_order = "10.0.0.1,10.0.0.2,10.0.0.3";
  source = from_default;
}

from_catalog : resolve_rollout_order {E = String} (ok catalog) none "web" catalog ≡ ok expected
unfolding resolve_rollout_order maand.Rollout.read_rollout_order_kv
    maand.Rollout.default_catalog_order maand.Text.join_commas contains
from_catalog = refl

resolve_rollout_order-Rearranges_example : Rearranges catalog catalog
resolve_rollout_order-Rearranges_example =
    resolve_rollout_order-Rearranges catalog none "web" catalog expected catalog-Distinct
      from_catalog

abbrev raw : String
raw = "10.0.0.3, 10.0.0.1,,10.0.0.2 "

accepted : validate_rollout_order_list (parse_order_list raw) catalog ≡ ok tt
unfolding validate_rollout_order_list parse_order_list contains maand.Prelude.add
accepted = refl

raw-Rearranges : Rearranges (parse_order_list raw) catalog
raw-Rearranges = (validate_rollout_order_list_iff (parse_order_list raw) catalog).0 accepted

catalog-IsItem : All IsItem catalog
unfolding has_comma trim_space
catalog-IsItem = (
  record { no_comma = refl; trimmed = refl; not_empty = refl },
  (
    record { no_comma = refl; trimmed = refl; not_empty = refl },
    (record { no_comma = refl; trimmed = refl; not_empty = refl }, tt),
  ),
)

self-Rearranges : Rearranges catalog catalog
self-Rearranges = record { distinct = catalog-Distinct; members = λ ip. refl }

abbrev queries : Queries String
queries = record {
  active_workers = λ candidates. ok candidates;
  resolve_order = λ candidates. resolve_rollout_order (ok catalog) none "web" candidates;
  max_concurrent = ok (pos 2);
}

-- The third event fails: the health check behind the first batch.
abbrev third_fails : List Event → Bool
third_fails done = contains (length done) (1 ∷ 2 ∷ 4 ∷ 5 ∷ [])

restart_stops : (rollout_restart_batches third_fails queries "web" catalog).1 ≡ effect_failed
unfolding rollout_restart_batches maand.Rollout.Steps.restart_active
    maand.Rollout.Steps.restart_resolved maand.Rollout.Steps.restart_limited
    maand.Rollout.Steps.run_batches maand.Rollout.Steps.batch_at workers resolve_rollout_order
    maand.Rollout.read_rollout_order_kv maand.Rollout.default_catalog_order maand.Text.join_commas
    contains
restart_stops = refl

restart_reaches :
    workers (rollout_restart_batches third_fails queries "web" catalog).0
    ≡ ("10.0.0.1" ∷ "10.0.0.2" ∷ [])
unfolding rollout_restart_batches maand.Rollout.Steps.restart_active
    maand.Rollout.Steps.restart_resolved maand.Rollout.Steps.restart_limited
    maand.Rollout.Steps.run_batches maand.Rollout.Steps.batch_at workers resolve_rollout_order
    maand.Rollout.read_rollout_order_kv maand.Rollout.default_catalog_order maand.Text.join_commas
    contains
restart_reaches = refl

rollout_start_batches-RolledOut_example :
    RolledOut
      (λ _. true)
      false
      "web"
      phase_new
      expected
      2
      ends_checked
      (rollout_start_batches (λ _. true) queries "web" catalog)
unfolding effective_batch_size
rollout_start_batches-RolledOut_example =
    rollout_start_batches-RolledOut (λ _. true) queries "web" "10.0.0.1"
      ("10.0.0.2" ∷ "10.0.0.3" ∷ []) "10.0.0.1" ("10.0.0.2" ∷ "10.0.0.3" ∷ []) expected (pos 2) refl
      from_catalog refl (omega arith)
