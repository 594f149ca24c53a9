-- ===== src/Kv/Sync.antt =====
-- The store as a write-back cache of the table: what every method of kv/store.go keeps.
use maand.Prelude.{
  ℕ, ◌+◌, ◌≤◌, ◌<◌, String, Bool, true, false, ◌&&◌, ◌||◌, not, Option, none, some, List, [], ◌∷◌,
  ◌≡◌, refl, sym, arith, ℤ, eq_ℤ, nat_beq, ◌==◌, ==_iff, comparable_String, if◌then◌else◌,
  Bool-cases, inl, inr,
}
use mathlib.Core.Path.{subst₂}
use maand.Text.{trim_space}
use maand.Kv.{Entry, Store, write_entry, mark_deleted, put_value, delete_key, find, purge_namespace}
use maand.Kv.Lookups.{find-put_value, deleted_at, find-delete_key, purged_at, find-purge_namespace}
use maand.Kv.Table.{Row, at_key, max_version, entry_of_row}

-- The last row of a key that has a given version.
unfoldable pub row_with : ℕ → String → String → List Row → Option Row
row_with v n k [] = none
row_with v n k (r ∷ rows) = elim (row_with v n k rows) [
  | some x ↦ some x
  | none ↦ if at_key n k r && nat_beq r.version v then some r else none
]

unfoldable pub latest_row : String → String → List Row → Option Row
unfolding row_with
latest_row n k rows = row_with (max_version n k rows) n k rows

abbrev pub as_entry : Option Row → Option Entry
as_entry none = none
as_entry (some r) = some (entry_of_row r)

-- An entry that is not marked changed is the latest row of its key; one that is marked has a version
-- above every row of its key.
pub record EntrySync (n k : String) (rows : List Row) (e : Entry) : Type 0 where
  pub unchanged :
      e.changed ≡ false
      → (as_entry (latest_row n k rows) ≡ some e) × (max_version n k rows ≡ e.version)
  pub newer : e.changed ≡ true → max_version n k rows < e.version

abbrev pub SyncAt : String → String → List Row → Option Entry → Type 0
SyncAt n k rows none = (latest_row n k rows ≡ none) × (max_version n k rows ≡ 0)
SyncAt n k rows (some e) = EntrySync n k rows e

pub record InSync (rows : List Row) (s : Store) : Type 0 where
  pub at : (n k : String) → SyncAt n k rows (find n k s)

max_version-le :
    (n k : String) (rows : List Row) (e : Entry)
    → EntrySync n k rows e
    → max_version n k rows ≤ e.version
max_version-le n k rows e h = elim (Bool-cases e.changed) [
  | inl c ↦ omega (arith, h.newer c)
  | inr c ↦ omega (arith, (h.unchanged c).1)
]

bumped :
    (n k : String) (rows : List Row) (e e' : Entry)
    → EntrySync n k rows e
    → e'.version ≡ e.version + 1
    → e'.changed ≡ true
    → EntrySync n k rows e'
bumped n k rows e e' h v c = record {
  unchanged = λ u. absurd (cc);
  newer = λ _. omega (arith, max_version-le n k rows e h);
}

write_entry-SyncAt :
    (n k : String) (rows : List Row) (o : Option Entry) (v : String) (t : ℤ)
    → SyncAt n k rows o
    → SyncAt n k rows (some (write_entry o v t))
unfolding write_entry
write_entry-SyncAt n k rows none v t h = record {
  unchanged = λ u. absurd (cc);
  newer = λ _. omega (arith, h.1);
}
write_entry-SyncAt n k rows (some e) v t h = elim (Bool-cases (nat_beq e.deleted 1)) [
  | inl gone ↦ rw gone (bumped n k rows e _ h refl refl)
  | inr live ↦ rw live (elim (Bool-cases (not (eq_ℤ e.ttl t) || not (e.value == v))) [
    | inl differs ↦ rw differs (bumped n k rows e _ h refl refl)
    | inr same ↦ rw same h
  ])
]

mark_deleted-SyncAt :
    (n k : String) (rows : List Row) (e : Entry)
    → EntrySync n k rows e
    → EntrySync n k rows (mark_deleted e)
mark_deleted-SyncAt n k rows e h = bumped n k rows e (mark_deleted e) h refl refl

deleted_at-SyncAt :
    (n k : String) (rows : List Row) (o : Option Entry)
    → SyncAt n k rows o
    → SyncAt n k rows (deleted_at o)
deleted_at-SyncAt n k rows none h = h
deleted_at-SyncAt n k rows (some e) h = mark_deleted-SyncAt n k rows e h

purged_at-SyncAt :
    (n k : String) (rows : List Row) (o : Option Entry)
    → SyncAt n k rows o
    → SyncAt n k rows (purged_at o)
purged_at-SyncAt n k rows none h = h
purged_at-SyncAt n k rows (some e) h = elim (Bool-cases (nat_beq e.deleted 1)) [
  | inl gone ↦ rw (gone, purged_at) h
  | inr live ↦ rw (live, purged_at) (mark_deleted-SyncAt n k rows e h)
]

-- From an entry-wise rule to the whole store: a method that changes the lookups of some keys only.
InSync-of_change :
    (rows : List Row) (s u : Store) (touched : String → String → Bool)
    (f : String → String → Option Entry)
    → ((m j : String) → find m j u ≡ (if touched m j then f m j else find m j s))
    → ((m j : String) → touched m j ≡ true → SyncAt m j rows (f m j))
    → InSync rows s
    → InSync rows u
InSync-of_change rows s u touched f look new old = record {
  at = λ m j. rw look (elim (Bool-cases (touched m j)) [
    | inl hit ↦ rw hit (new m j hit)
    | inr miss ↦ rw miss (old.at m j)
  ]);
}

at_same :
    (rows : List Row) (n k m j : String) (o : Option Entry)
    → (m == n && j == k) ≡ true
    → SyncAt n k rows o
    → SyncAt m j rows o
at_same rows n k m j o h sync =
    let p : m ≡ n = ground (arith, ==_iff m n, ==_iff j k) in
    let q : j ≡ k = ground (arith, ==_iff m n, ==_iff j k) in
    subst₂ (λ (x y : String). SyncAt x y rows o) (sym p) (sym q) sync

pub put_value-InSync :
    (rows : List Row) (s : Store) (n k v : String) (ttl : ℤ) (trim : Bool)
    → InSync rows s
    → InSync rows (put_value n k v ttl trim s)
put_value-InSync rows s n k v ttl trim h =
    let text : String = if trim then trim_space v else v in
    let e : Option Entry = some (write_entry (find n k s) text ttl) in
    InSync-of_change rows s (put_value n k v ttl trim s) (λ m j. m == n && j == k) (λ m j. e)
      (find-put_value n k v ttl trim s)
      (λ m j hit.
        at_same rows n k m j e hit (write_entry-SyncAt n k rows (find n k s) text ttl (h.at n k)))
      h

pub delete_key-InSync :
    (rows : List Row) (s : Store) (n k : String) → InSync rows s → InSync rows (delete_key n k s).0
delete_key-InSync rows s n k h =
    InSync-of_change rows s (delete_key n k s).0 (λ m j. m == n && j == k)
      (λ m j. deleted_at (find n k s)) (find-delete_key n k s)
      (λ m j hit.
        at_same rows n k m j (deleted_at (find n k s)) hit
          (deleted_at-SyncAt n k rows (find n k s) (h.at n k)))
      h

pub purge_namespace-InSync :
    (rows : List Row) (s : Store) (n : String) → InSync rows s → InSync rows (purge_namespace n s)
purge_namespace-InSync rows s n h =
    InSync-of_change rows s (purge_namespace n s) (λ m j. m == n) (λ m j. purged_at (find m j s))
      (find-purge_namespace n s) (λ m j hit. purged_at-SyncAt m j rows (find m j s) (h.at m j)) h
