-- ===== src/Kv/Saved.antt =====
-- What persist.go writes is what it loads.
use maand.Prelude.{
  String, Bool, true, ◌&&◌, Option, none, some, List, [], ◌∷◌, ◌≡◌, refl, ◌∙◌, arith, nat_beq,
  ==_iff, comparable_String, if◌then◌else◌, lookup, put,
}
use mathlib.Core.Path.{ap₂}
use maand.Kv.{Entry, Store, new_store, find, namespace_map}
use maand.Kv.Lookups.{find-write}
use maand.Kv.Table.{Row, at_key, max_version, entry_of_row, load_rows}
use maand.Kv.Sync.{row_with, latest_row, as_entry}

abbrev or_else : Option Entry → Option Entry → Option Entry
or_else none d = d
or_else (some e) d = some e

-- A row is loaded over what is there for its key where it has the greatest version.
find-load_rows :
    (all rows : List Row) (s : Store) (n k : String)
    → find n k (load_rows all rows s)
      ≡ or_else (as_entry (row_with (max_version n k all) n k rows)) (find n k s)
unfolding load_rows row_with
find-load_rows all [] s n k = refl
find-load_rows all (r ∷ rows) s n k =
    rw (find-load_rows all rows) (step (row_with (max_version n k all) n k rows))
  where
    top : Bool
    top = nat_beq r.version (max_version r.namespace r.key all)

    s' : Store
    s' = record s {
      namespaces =
          put r.namespace (put r.key (entry_of_row r) (namespace_map s r.namespace)) s.namespaces;
    }

    same_top :
        at_key n k r ≡ true
        → nat_beq r.version (max_version r.namespace r.key all)
          ≡ nat_beq r.version (max_version n k all)
    same_top h = ground (
      arith,
      ==_iff n r.namespace,
      ==_iff k r.key,
      λ (p : n ≡ r.namespace) (q : k ≡ r.key). ap₂ (λ (x y : String). max_version x y all) p q,
    )

    step :
        (o : Option Row)
        → or_else (as_entry o) (find n k (if top then s' else s))
          ≡ or_else
              (as_entry (elim o [
                | some x ↦ some x
                | none ↦
                    if at_key n k r && nat_beq r.version (max_version n k all) then some r else none
              ]))
              (find n k s)
    step (some x) = refl
    step none = ground (arith, same_top, find-write r.namespace r.key (entry_of_row r) s n k)

pub find-load :
    (rows : List Row) (n k : String)
    → find n k (load_rows rows rows new_store) ≡ as_entry (latest_row n k rows)
unfolding latest_row new_store
find-load rows n k = find-load_rows rows rows new_store n k ∙ nothing (latest_row n k rows)
  where
    nothing : (o : Option Row) → or_else (as_entry o) (find n k new_store) ≡ as_entry o
    nothing none = unfold find lookup in refl
    nothing (some r) = refl
