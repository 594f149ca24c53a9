-- ===== src/Kv.antt =====
-- kv/store.go and kv/entry.go: the in-memory store of one command's transaction. A method returns
-- the new store; the lock is not modelled, since each method holds it from its first line to its last.
pub mod Table
pub mod Lookups
pub mod Sync
pub mod Saved
pub mod Persist
pub mod Namespaces
pub mod Shape
pub mod RoundTrip
pub mod Client
pub mod Failures
pub mod Purge
pub mod Secrets
mod Tests
use maand.Prelude.{
  ℕ, suc, ◌+◌, String, Bool, true, false, not, ◌||◌, Option, none, some, List, [], ◌∷◌, ◌++◌, ℤ,
  eq_ℤ, nat_beq, ◌==◌, comparable_String, if◌then◌else◌, Map, lookup, put, keys, Result, ok, err,
}
use maand.Text.{trim_space}

-- `deleted` is Go's int 0 or 1.
pub record Entry : Type 0 where
  pub value : String
  pub version : ℕ
  pub ttl : ℤ
  pub deleted : ℕ
  pub changed : Bool
  pub last_modified_time : ℕ

pub record Store : Type 0 where
  pub namespaces : Map String (Map String Entry)

pub data KvError : Type 0 where
  not_found namespace_not_found store_not_initialized database_error : KvError

unfoldable pub new_store : Store
new_store = record { namespaces = [] }

-- The namespace's map, made when it is missing.
abbrev pub entries_or_empty : Option (Map String Entry) → Map String Entry
entries_or_empty none = []
entries_or_empty (some ns) = ns

unfoldable pub namespace_map : Store → String → Map String Entry
namespace_map s namespace = entries_or_empty (lookup namespace s.namespaces)

-- The branch on a live entry: `changed` tells whether the ttl or the value differs.
unfoldable pub update_entry : Entry → String → ℤ → Entry
update_entry e value ttl =
    if not (eq_ℤ e.ttl ttl) || not (e.value == value)
    then record e { ttl = ttl; value = value; version = e.version + 1; changed = true }
    else e

unfoldable pub write_entry : Option Entry → String → ℤ → Entry
unfolding update_entry
write_entry none value ttl = record {
  value = value;
  version = 1;
  ttl = ttl;
  deleted = 0;
  changed = true;
  last_modified_time = 0;
}
write_entry (some e) value ttl =
    if nat_beq e.deleted 1
    then record e { value = value; ttl = ttl; deleted = 0; version = e.version + 1; changed = true }
    else update_entry e value ttl

unfoldable pub put_value : String → String → String → ℤ → Bool → Store → Store
unfolding namespace_map
put_value namespace key value ttl trim s =
    let text = if trim then trim_space value else value in
    let ns = namespace_map s namespace in
    record s {
      namespaces = put namespace (put key (write_entry (lookup key ns) text ttl) ns) s.namespaces;
    }

-- Put
abbrev pub put_text : String → String → String → ℤ → Store → Store
put_text namespace key value ttl = put_value namespace key value ttl true

abbrev pub mark_deleted : Entry → Entry
mark_deleted e = record e { deleted = 1; changed = true; version = e.version + 1 }

unfoldable pub delete_found :
    String → String → Store → Map String Entry → Option Entry → Store × Result KvError (Unit {0})
delete_found namespace key s ns none = (s, err not_found)
delete_found namespace key s ns (some e) =
    (record s { namespaces = put namespace (put key (mark_deleted e) ns) s.namespaces }, ok tt)

unfoldable pub delete_in :
    String → String → Store → Option (Map String Entry) → Store × Result KvError (Unit {0})
unfolding delete_found
delete_in namespace key s none = (s, err namespace_not_found)
delete_in namespace key s (some ns) = delete_found namespace key s ns (lookup key ns)

-- Delete
unfoldable pub delete_key : String → String → Store → Store × Result KvError (Unit {0})
unfolding delete_in
delete_key namespace key s = delete_in namespace key s (lookup namespace s.namespaces)

-- What the two lookups of Get find.
abbrev pub entry_in : String → Option (Map String Entry) → Option Entry
entry_in key none = none
entry_in key (some ns) = lookup key ns

unfoldable pub find : String → String → Store → Option Entry
find namespace key s = entry_in key (lookup namespace s.namespaces)

abbrev pub live_entry : Option Entry → Result KvError Entry
live_entry none = err not_found
live_entry (some e) = if nat_beq e.deleted 1 then err not_found else ok e

unfoldable pub get : String → String → Store → Result KvError Entry
unfolding find
get namespace key s = live_entry (find namespace key s)

unfoldable pub live_keys : Map String Entry → List String
live_keys [] = []
live_keys ((key, e) ∷ ns) =
    let rest = live_keys ns in if nat_beq e.deleted 1 then rest else key ∷ rest

unfoldable pub get_keys : String → Store → List String
unfolding namespace_map live_keys
get_keys namespace s = live_keys (namespace_map s namespace)

abbrev pub purge_entry : Entry → Entry
purge_entry e = if nat_beq e.deleted 1 then e else mark_deleted e

unfoldable pub purge_entries : Map String Entry → Map String Entry
purge_entries [] = []
purge_entries ((key, e) ∷ ns) = (key, purge_entry e) ∷ purge_entries ns

unfoldable pub purge_in : String → Store → Option (Map String Entry) → Store
unfolding purge_entries
purge_in namespace s none = s
purge_in namespace s (some ns) = record s {
  namespaces = put namespace (purge_entries ns) s.namespaces;
}

unfoldable pub purge_namespace : String → Store → Store
unfolding purge_in
purge_namespace namespace s = purge_in namespace s (lookup namespace s.namespaces)

unfoldable pub any_changed : Map String Entry → Bool
any_changed [] = false
any_changed ((key, e) ∷ ns) = e.changed || any_changed ns

unfoldable pub any_namespace_changed : Map String (Map String Entry) → Bool
unfolding any_changed
any_namespace_changed [] = false
any_namespace_changed ((namespace, ns) ∷ rest) = any_changed ns || any_namespace_changed rest

unfoldable pub has_pending_changes : Store → Bool
unfolding any_namespace_changed
has_pending_changes s = any_namespace_changed s.namespaces

unfoldable pub list_namespaces : Store → List String
list_namespaces s = keys s.namespaces
