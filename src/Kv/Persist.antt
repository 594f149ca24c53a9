-- ===== src/Kv/Persist.antt =====
-- PersistToTransaction of kv/persist.go keeps the store and the table in step, row by row.
use mathlib.Core.Path.{subst}
use maand.Prelude.{
  ℕ, String, Bool, true, false, ◌&&◌, ◌||◌, Option, none, some, List, [], ◌∷◌, ◌++◌, ◌≡◌, refl, ap,
  ◌∙◌, arith, nat_beq, ◌==◌, ==_iff, ==_refl, comparable_String, if◌then◌else◌, ltb, Map, lookup,
  keys, contains, Distinct, lookup_absent, Bool-cases, inl, inr,
}
use maand.Kv.{Entry}
use maand.Kv.Table.{Row, at_key, max_version, row_of, saved, persist_entries}
use maand.Kv.Sync.{row_with, latest_row, as_entry, EntrySync, SyncAt}

max_version-insert :
    (n k : String) (rows : List Row) (r : Row)
    → max_version n k (rows ++ r ∷ []) ≡ (
        if at_key n k r && ltb (max_version n k rows) r.version
        then r.version
        else max_version n k rows)
unfolding max_version
max_version-insert n k [] r = refl
max_version-insert n k (x ∷ rows) r = ground (arith, max_version-insert n k rows r)

row_with-insert :
    (v : ℕ) (n k : String) (rows : List Row) (r : Row)
    → row_with v n k (rows ++ r ∷ [])
      ≡ (if at_key n k r && nat_beq r.version v then some r else row_with v n k rows)
unfolding row_with
row_with-insert v n k [] r = refl
row_with-insert v n k (x ∷ rows) r = ground (arith, row_with-insert v n k rows r)

-- The two tables agree on a key.
pub record SameAt (n k : String) (rows rows' : List Row) : Type 0 where
  pub same_row : latest_row n k rows' ≡ latest_row n k rows
  pub same_max : max_version n k rows' ≡ max_version n k rows

pub SameAt-refl : (n k : String) (rows : List Row) → SameAt n k rows rows
SameAt-refl n k rows = record { same_row = refl; same_max = refl }

pub SameAt-trans :
    {n k : String} {a b c : List Row} → SameAt n k a b → SameAt n k b c → SameAt n k a c
SameAt-trans p q = record { same_row = q.same_row ∙ p.same_row; same_max = q.same_max ∙ p.same_max }

SameAt-insert :
    (n k : String) (rows : List Row) (r : Row)
    → at_key n k r ≡ false
    → SameAt n k rows (rows ++ r ∷ [])
unfolding latest_row
SameAt-insert n k rows r h =
    let m : max_version n k (rows ++ r ∷ []) ≡ max_version n k rows =
      max_version-insert n k rows r ∙ rw h refl in
    record {
      same_row = rw m (row_with-insert (max_version n k rows) n k rows r ∙ rw h refl);
      same_max = m;
    }

pub SyncAt-SameAt :
    {n k : String} {rows rows' : List Row} (o : Option Entry)
    → SameAt n k rows rows'
    → SyncAt n k rows o
    → SyncAt n k rows' o
SyncAt-SameAt none p h = (p.same_row ∙ h.0, p.same_max ∙ h.1)
SyncAt-SameAt (some e) p h = record {
  unchanged = λ c. (ap as_entry p.same_row ∙ (h.unchanged c).0, p.same_max ∙ (h.unchanged c).1);
  newer = λ c. rw p.same_max (h.newer c);
}

-- The inserted row is the latest of its key, and the entry is in step with it.
insert-EntrySync :
    (n k : String) (rows : List Row) (now : ℕ) (e : Entry)
    → e.changed ≡ true
    → EntrySync n k rows e
    → EntrySync n k (rows ++ row_of n k now e ∷ []) (saved now e)
unfolding latest_row
insert-EntrySync n k rows now e c h =
    let r = row_of n k now e in
    let own : at_key n k r ≡ true = ground (arith, ==_refl n, ==_refl k) in
    let top : max_version n k (rows ++ r ∷ []) ≡ e.version =
      max_version-insert n k rows r ∙ rw own (ground (arith, h.newer c)) in
    record {
      unchanged = λ _. (
        rw top (ap as_entry (row_with-insert e.version n k rows r) ∙ rw own (ground arith)),
        top,
      );
      newer = λ u. absurd (cc);
    }

-- What one namespace's loop has done when it ends, by itself or at a failed statement.
pub record EntriesSynced (n : String) (rows rows' : List Row) (ns ns' : Map String Entry)
    : Type 0 where
  pub sync : (k : String) → contains k (keys ns) ≡ true → SyncAt n k rows' (lookup k ns')
  pub frame : (m k : String) → (m == n && contains k (keys ns)) ≡ false → SameAt m k rows rows'
  pub same_keys : keys ns' ≡ keys ns
  pub absent : (k : String) → contains k (keys ns) ≡ false → lookup k ns' ≡ none

abbrev after_entry : ℕ → String → String → Entry → List Row → List Row
after_entry now n k e rows = if e.changed then rows ++ row_of n k now e ∷ [] else rows

abbrev entry_after : ℕ → Entry → Entry
entry_after now e = if e.changed then saved now e else e

after_entry-sync :
    (now : ℕ) (n k : String) (e : Entry) (rows : List Row)
    → EntrySync n k rows e
    → EntrySync n k (after_entry now n k e rows) (entry_after now e)
after_entry-sync now n k e rows h = split e.changed refl
  where
    split :
        (c : Bool)
        → e.changed ≡ c
        → EntrySync n k
            (if c then rows ++ row_of n k now e ∷ [] else rows)
            (if c then saved now e else e)
    split true c = insert-EntrySync n k rows now e c h
    split false c = h

after_entry-same :
    (now : ℕ) (n k : String) (e : Entry) (rows : List Row) (m j : String)
    → (m == n && j == k) ≡ false
    → SameAt m j rows (after_entry now n k e rows)
after_entry-same now n k e rows m j h = elim (Bool-cases e.changed) [
  | inl c ↦ rw c (SameAt-insert m j rows (row_of n k now e) h)
  | inr c ↦ rw c (SameAt-refl m j rows)
]

EntriesSynced-stop :
    (n : String) (rows : List Row) (ns : Map String Entry)
    → ((j : String) → contains j (keys ns) ≡ true → SyncAt n j rows (lookup j ns))
    → EntriesSynced n rows rows ns ns
EntriesSynced-stop n rows ns h = record {
  sync = h;
  frame = λ m j _. SameAt-refl m j rows;
  same_keys = refl;
  absent = λ j a. lookup_absent j ns a;
}

module _ (now : ℕ) (n k : String) (e : Entry) (rows rows' : List Row) (ns ns' : Map String Entry)
    (fresh : contains k (keys ns) ≡ false) (head : EntrySync n k rows e)
    (rest : EntriesSynced n (after_entry now n k e rows) rows' ns ns') where
  cons_frame :
      (m j : String) → (m == n && (j == k || contains j (keys ns))) ≡ false → SameAt m j rows rows'
  cons_frame m j h =
      SameAt-trans (after_entry-same now n k e rows m j (ground arith))
        (rest.frame m j (ground arith))

  EntriesSynced-cons : EntriesSynced n rows rows' ((k, e) ∷ ns) ((k, entry_after now e) ∷ ns')
  unfolding lookup keys contains
  EntriesSynced-cons = record {
    sync = λ j h. elim (Bool-cases (j == k)) [
      | inl same ↦ rw ((==_iff j k).0 same) (
          rw (==_refl k) (
            SyncAt-SameAt (some (entry_after now e)) (rest.frame n k (rw fresh (ground arith)))
              (after_entry-sync now n k e rows head)))
      | inr other ↦ rw other (rest.sync j (ground arith))
    ];
    frame = cons_frame;
    same_keys = ap (λ (ks : List String). k ∷ ks) rest.same_keys;
    absent = λ j h. ground (arith, rest.absent j);
  }

pub lookup-head :
    (k : String) (e : Entry) (ns : Map String Entry)
    → (contains k (keys ((k, e) ∷ ns)) ≡ true) × (lookup k ((k, e) ∷ ns) ≡ some e)
unfolding lookup keys contains
lookup-head k e ns = (rw (==_refl k) refl, rw (==_refl k) refl)

lookup-tail :
    (j k : String) (e : Entry) (ns : Map String Entry)
    → contains k (keys ns) ≡ false
    → contains j (keys ns) ≡ true
    → ((j == k) ≡ false)
      × (contains j (keys ((k, e) ∷ ns)) ≡ true)
      × (lookup j ((k, e) ∷ ns) ≡ lookup j ns)
unfolding lookup keys contains
lookup-tail j k e ns fresh h =
    let other : (j == k) ≡ false =
      ground (arith, ==_iff j k, λ (p : j ≡ k). ap (λ (x : String). contains x (keys ns)) p) in
    (other, rw other h, rw other refl)

pub persist_entries-EntriesSynced :
    (now : ℕ) (fails : Row → Bool) (n : String) (rows : List Row) (ns : Map String Entry)
    → Distinct (keys ns)
    → ((j : String) → contains j (keys ns) ≡ true → SyncAt n j rows (lookup j ns))
    → let r = persist_entries now fails n rows ns in EntriesSynced n rows r.0 ns r.1
unfolding persist_entries keys
persist_entries-EntriesSynced now fails n rows [] d h = EntriesSynced-stop n rows [] h
persist_entries-EntriesSynced now fails n rows ((k, e) ∷ ns) d h =
    elim (Bool-cases (e.changed && fails (row_of n k now e))) [
      | inl stops ↦ rw (stops, persist_entries) (EntriesSynced-stop n rows ((k, e) ∷ ns) h)
      | inr goes ↦
          rw (goes, persist_entries)
            (EntriesSynced-cons now n k e rows _ ns _ d.0 here
              (persist_entries-EntriesSynced now fails n (after_entry now n k e rows) ns d.1 later))
    ]
  where
    here : EntrySync n k rows e
    here =
        let t = lookup-head k e ns in subst (λ (o : Option Entry). SyncAt n k rows o) t.1 (h k t.0)

    later :
        (j : String)
        → contains j (keys ns) ≡ true
        → SyncAt n j (after_entry now n k e rows) (lookup j ns)
    later j c =
        let t = lookup-tail j k e ns d.0 c in
        SyncAt-SameAt (lookup j ns) (after_entry-same now n k e rows n j (rw t.0 (ground arith)))
          (subst (λ (o : Option Entry). SyncAt n j rows o) t.2 (h j t.1))
