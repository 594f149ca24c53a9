-- ===== src/Kv/Table.antt =====
-- kv/persist.go: the key_value table, loading a store from it and writing changed entries to it.
-- The table is the list of its rows, in the order of insertion. Whether a statement fails is a
-- parameter: `readable` for the query, `fails` for the insertion of a row.
use maand.Prelude.{
  ℕ, String, Bool, true, false, ◌&&◌, List, [], ◌∷◌, ◌++◌, ℤ, ◌==◌, nat_beq, comparable_String,
  if◌then◌else◌, ltb, Map, put, Result, ok, err,
}
use maand.Kv.{Entry, Store, KvError, database_error, new_store, namespace_map, has_pending_changes}

pub record Row : Type 0 where
  pub namespace : String
  pub key : String
  pub value : String
  pub version : ℕ
  pub ttl : ℤ
  pub created_date : ℕ
  pub deleted : ℕ

abbrev pub at_key : String → String → Row → Bool
at_key namespace key r = namespace == r.namespace && key == r.key

-- `SELECT MAX(version) …` for a namespace and a key (0 where there is no row).
unfoldable pub max_version : String → String → List Row → ℕ
max_version namespace key [] = 0
max_version namespace key (r ∷ rows) =
    let rest = max_version namespace key rows in
    if at_key namespace key r && ltb rest r.version then r.version else rest

abbrev pub entry_of_row : Row → Entry
entry_of_row r = record {
  value = r.value;
  version = r.version;
  ttl = r.ttl;
  deleted = r.deleted;
  changed = false;
  last_modified_time = r.created_date;
}

-- The loop over the rows of loadLatestEntriesQuery: `all` is the table that the query reads.
unfoldable pub load_rows : List Row → List Row → Store → Store
unfolding namespace_map max_version
load_rows all [] s = s
load_rows all (r ∷ rows) s = load_rows all rows (
    if nat_beq r.version (max_version r.namespace r.key all)
    then record s {
      namespaces =
          put r.namespace (put r.key (entry_of_row r) (namespace_map s r.namespace)) s.namespaces;
    }
    else s)

unfoldable pub load_from_transaction : Bool → List Row → Result KvError Store
unfolding load_rows new_store
load_from_transaction readable rows =
    if readable then ok (load_rows rows rows new_store) else err database_error

abbrev pub row_of : String → String → ℕ → Entry → Row
row_of namespace key now e = record {
  namespace = namespace;
  key = key;
  value = e.value;
  version = e.version;
  ttl = e.ttl;
  created_date = now;
  deleted = e.deleted;
}

abbrev pub saved : ℕ → Entry → Entry
saved now e = record e { changed = false; last_modified_time = now }

-- The inner loop: the table, the namespace's entries, and whether every statement succeeded.
unfoldable pub persist_entries :
    ℕ → (Row → Bool) → String → List Row → Map String Entry → List Row × Map String Entry × Bool
persist_entries now fails namespace rows [] = (rows, [], true)
persist_entries now fails namespace rows ((key, e) ∷ ns) =
    let row = row_of namespace key now e in
    let rows' = if e.changed then rows ++ row ∷ [] else rows in
    let e' = if e.changed then saved now e else e in
    let (rows'', ns', done) = persist_entries now fails namespace rows' ns in
    if e.changed && fails row then (rows, (key, e) ∷ ns, false) else (rows'', (key, e') ∷ ns', done)

unfoldable pub persist_namespaces :
    ℕ
    → (Row → Bool)
    → List Row
    → Map String (Map String Entry)
    → List Row × Map String (Map String Entry) × Bool
unfolding persist_entries
persist_namespaces now fails rows [] = (rows, [], true)
persist_namespaces now fails rows ((namespace, ns) ∷ rest) =
    let (rows', ns', done) = persist_entries now fails namespace rows ns in
    let (rows'', rest', all_done) = persist_namespaces now fails rows' rest in
    if done
    then (rows'', (namespace, ns') ∷ rest', all_done)
    else (rows', (namespace, ns') ∷ rest, false)

unfoldable pub persist_to_transaction :
    ℕ → (Row → Bool) → List Row → Store → List Row × Store × Result KvError (Unit {0})
unfolding persist_namespaces
persist_to_transaction now fails rows s =
    let (rows', namespaces, done) = persist_namespaces now fails rows s.namespaces in
    (rows', record s { namespaces = namespaces }, if done then ok tt else err database_error)

-- PersistSession, on a session store: the table after the transaction has been committed or
-- rolled back, and the store in memory, which no rollback restores.
unfoldable pub persist_session :
    ℕ → (Row → Bool) → Bool → List Row → Store → List Row × Store × Result KvError (Unit {0})
unfolding persist_to_transaction has_pending_changes
persist_session now fails commits rows s =
    let (rows', s', r) = persist_to_transaction now fails rows s in
    if has_pending_changes s
    then elim r [
      | err e ↦ (rows, s', err e)
      | ok _ ↦ if commits then (rows', s', ok tt) else (rows, s', err database_error)
    ]
    else (rows, s, ok tt)
