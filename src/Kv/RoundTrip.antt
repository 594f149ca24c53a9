-- ===== src/Kv/RoundTrip.antt =====
-- A command's life: it loads the key_value table (kv/persist.go), runs methods of kv/store.go, and
-- persists; the next command loads what the first one had.
use maand.Prelude.{
  ℕ, String, Bool, true, false, Option, none, some, List, [], ◌∷◌, ◌++◌, ◌≡◌, refl, sym, ap, ◌∙◌,
  arith, ℤ, ◌==◌, comparable_String, if◌then◌else◌, Map, lookup, Bool-cases, inl, inr, ok,
}
use maand.Kv.{
  Entry, Store, new_store, find, entry_in, put_value, delete_key, purge_namespace, any_changed,
  any_namespace_changed, has_pending_changes,
}
use maand.Kv.Table.{
  Row, max_version, load_rows, row_of, persist_entries, persist_namespaces, persist_to_transaction,
}
use maand.Kv.Sync.{
  row_with, latest_row, as_entry, SyncAt, InSync, put_value-InSync, delete_key-InSync,
  purge_namespace-InSync,
}
use maand.Kv.Saved.{find-load}
use maand.Kv.Namespaces.{IsMap, persist-InSync}
use maand.Kv.Shape.{
  put_value-IsMap, delete_key-IsMap, purge_namespace-IsMap, new_store-IsMap, load_rows-IsMap,
}

persist_entries-settled :
    (now : ℕ) (fails : Row → Bool) (n : String) (rows : List Row) (ns : Map String Entry)
    → let r = persist_entries now fails n rows ns in r.2 ≡ true → any_changed r.1 ≡ false
unfolding persist_entries any_changed
persist_entries-settled now fails n rows [] h = refl
persist_entries-settled now fails n rows ((k, e) ∷ ns) h = ground (
  arith,
  persist_entries-settled now fails n (if e.changed then rows ++ row_of n k now e ∷ [] else rows)
      ns,
)

persist_namespaces-settled :
    (now : ℕ) (fails : Row → Bool) (rows : List Row) (nss : Map String (Map String Entry))
    → let r = persist_namespaces now fails rows nss in
      r.2 ≡ true → any_namespace_changed r.1 ≡ false
unfolding persist_namespaces any_namespace_changed
persist_namespaces-settled now fails rows [] h = refl
persist_namespaces-settled now fails rows ((n, ns) ∷ rest) h = ground (
  arith,
  persist_entries-settled now fails n rows ns,
  persist_namespaces-settled now fails (persist_entries now fails n rows ns).0 rest,
)

-- After a successful persist nothing is pending.
pub persist-settled :
    (now : ℕ) (fails : Row → Bool) (rows : List Row) (s : Store)
    → let r = persist_to_transaction now fails rows s in
      r.2 ≡ ok tt → has_pending_changes r.1 ≡ false
unfolding persist_to_transaction has_pending_changes
persist-settled now fails rows s h =
    persist_namespaces-settled now fails rows s.namespaces (ground arith)

entry-settled :
    (k : String) (ns : Map String Entry) (e : Entry)
    → any_changed ns ≡ false
    → lookup k ns ≡ some e
    → e.changed ≡ false
unfolding any_changed lookup
entry-settled k [] e h f = absurd (cc)
entry-settled k ((j, x) ∷ ns) e h f = elim (Bool-cases (k == j)) [
  | inl same ↦ ground arith
  | inr other ↦ entry-settled k ns e (ground arith) (rw other at f)
]

find-settled :
    (n k : String) (nss : Map String (Map String Entry)) (e : Entry)
    → any_namespace_changed nss ≡ false
    → entry_in k (lookup n nss) ≡ some e
    → e.changed ≡ false
unfolding any_namespace_changed lookup
find-settled n k [] e h f = absurd (cc)
find-settled n k ((m, ns) ∷ rest) e h f = elim (Bool-cases (n == m)) [
  | inl same ↦ entry-settled k ns e (ground arith) (rw same at f)
  | inr other ↦ find-settled n k rest e (ground arith) (rw other at f)
]

-- A store in step with nothing pending is what its table loads.
settled-as_loaded :
    (rows : List Row) (s : Store) (n k : String)
    → InSync rows s
    → has_pending_changes s ≡ false
    → find n k (load_rows rows rows new_store) ≡ find n k s
settled-as_loaded rows s n k sync quiet = find-load rows n k ∙ split (find n k s) refl (sync.at n k)
  where
    split :
        (o : Option Entry)
        → find n k s ≡ o
        → SyncAt n k rows o
        → as_entry (latest_row n k rows) ≡ find n k s
    split none e h = ap as_entry h.0 ∙ sym e
    split (some x) e h =
        (h.unchanged (
          find-settled n k s.namespaces x (unfold has_pending_changes in quiet)
            (unfold find in e))).0
        ∙ sym e

row_with-version :
    (v : ℕ) (n k : String) (rows : List Row) (r : Row)
    → row_with v n k rows ≡ some r
    → r.version ≡ v
unfolding row_with
row_with-version v n k [] r h = absurd (cc)
row_with-version v n k (x ∷ rows) r h = ground (arith, row_with-version v n k rows r)

row_with-exists :
    (v : ℕ) (n k : String) (rows : List Row)
    → max_version n k rows ≡ v
    → row_with v n k rows ≡ none
    → v ≡ 0
unfolding row_with max_version
row_with-exists v n k [] h g = sym h
row_with-exists v n k (x ∷ rows) h g = ground (arith, row_with-exists v n k rows)

-- What a table loads is in step with it.
pub load-InSync : (rows : List Row) → InSync rows (load_rows rows rows new_store)
load-InSync rows = record {
  at = λ n k. rw (find-load rows n k) (split n k (latest_row n k rows) refl);
}
  where
    split : (n k : String) (o : Option Row) → latest_row n k rows ≡ o → SyncAt n k rows (as_entry o)
    split n k none e =
        (e, row_with-exists (max_version n k rows) n k rows refl (unfold latest_row in e))
    split n k (some r) e = record {
      unchanged = λ _. (
        ap as_entry e,
        sym (row_with-version (max_version n k rows) n k rows r (unfold latest_row in e)),
      );
      newer = λ c. absurd (cc);
    }

-- The calls that a command makes between loading and persisting.
pub data Change : Type 0 where
  putting : String → String → String → ℤ → Bool → Change
  deleting : String → String → Change
  purging : String → Change

abbrev pub change : Change → Store → Store
change (putting n k v ttl trim) s = put_value n k v ttl trim s
change (deleting n k) s = (delete_key n k s).0
change (purging n) s = purge_namespace n s

unfoldable pub changes : List Change → Store → Store
changes [] s = s
changes (c ∷ cs) s = changes cs (change c s)

change-InSync :
    (rows : List Row) (c : Change) (s : Store) → InSync rows s → InSync rows (change c s)
change-InSync rows (putting n k v ttl trim) s h = put_value-InSync rows s n k v ttl trim h
change-InSync rows (deleting n k) s h = delete_key-InSync rows s n k h
change-InSync rows (purging n) s h = purge_namespace-InSync rows s n h

change-IsMap : (c : Change) (s : Store) → IsMap s → IsMap (change c s)
change-IsMap (putting n k v ttl trim) s h = put_value-IsMap n k v ttl trim s h
change-IsMap (deleting n k) s h = delete_key-IsMap n k s h
change-IsMap (purging n) s h = purge_namespace-IsMap n s h

changes_keep :
    (rows : List Row) (cs : List Change) (s : Store)
    → InSync rows s
    → IsMap s
    → InSync rows (changes cs s) × IsMap (changes cs s)
unfolding changes
changes_keep rows [] s h m = (h, m)
changes_keep rows (c ∷ cs) s h m =
    changes_keep rows cs (change c s) (change-InSync rows c s h) (change-IsMap c s m)

abbrev pub loaded : List Row → Store
loaded rows = load_rows rows rows new_store

-- Whatever the table held, and whatever a command puts, deletes and purges after it has loaded it:
-- where every statement of its persist succeeds, the table then loads to a store with the same entry
-- for every namespace and key as the command's own store.
pub load-persist :
    (rows : List Row) (cs : List Change) (now : ℕ) (fails : Row → Bool)
    → let r = persist_to_transaction now fails rows (changes cs (loaded rows)) in
      r.2 ≡ ok tt → (n k : String) → find n k (loaded r.0) ≡ find n k r.1
load-persist rows cs now fails done n k =
    let start =
      changes_keep rows cs (loaded rows) (load-InSync rows)
        (load_rows-IsMap rows rows new_store new_store-IsMap) in
    settled-as_loaded _ _ n k
      (persist-InSync now fails rows (changes cs (loaded rows)) start.1 start.0)
      (persist-settled now fails rows (changes cs (loaded rows)) done)
