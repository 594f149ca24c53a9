-- ===== src/Kv/Purge.antt =====
-- kv/purge.go: the deletion of old rows of the table key_value. The query reads the table before it
-- deletes, and the time to keep rows is cut at 0. The other columns of a MAX(version) are those of one row
-- with that version: here the first one, where SQLite leaves the choice open. The column created_date has
-- the type TEXT, so the comparison of a date with the number of seconds that the query computes is
-- SQLite's, and a parameter.
use maand.Prelude.{
  ℕ, ◌+◌, ◌*◌, ◌≤◌, String, Bool, true, false, ◌&&◌, ◌||◌, Option, none, some, List, [], ◌∷◌, ◌≡◌,
  refl, sym, ap, ◌∙◌, arith, ℤ, pos, negsuc, sub_ℕ, nat_beq, ltb, ==_iff, comparable_String,
  if◌then◌else◌, Bool-cases, Option-cases, inl, inr,
}
use maand.Kv.{new_store, get, live_entry}
use maand.Kv.Table.{Row, at_key, max_version, load_rows}
use maand.Kv.Sync.{row_with, latest_row, as_entry}
use maand.Kv.Saved.{find-load}

abbrev pub max_versions_to_keep : ℕ
max_versions_to_keep = 7

unfoldable pub first_with : ℕ → String → String → List Row → Option Row
first_with v n k [] = none
first_with v n k (r ∷ rows) =
    let rest = first_with v n k rows in if at_key n k r && nat_beq r.version v then some r else rest

-- The row of a key in the subquery with GROUP BY.
unfoldable pub grouped : String → String → List Row → Option Row
unfolding first_with
grouped n k rows = first_with (max_version n k rows) n k rows

-- No two rows of a key have the same version.
unfoldable pub OneRowEach : List Row → Type 0
OneRowEach [] = Unit
OneRowEach (r ∷ rows) = (row_with r.version r.namespace r.key rows ≡ none) × OneRowEach rows

module _ (earlier : ℕ → ℤ → Bool) where
  abbrev pub is_stale : ℤ → Row → Option Row → Bool
  is_stale cutoff r none = false
  is_stale cutoff r (some latest) =
      (ltb (r.version + max_versions_to_keep) latest.version || nat_beq latest.deleted 1)
      && earlier latest.created_date cutoff

  -- The WHERE of purgeStaleVersionsQuery, on the table `all`.
  unfoldable pub stale_in : ℤ → List Row → Row → Bool
  unfolding grouped
  stale_in cutoff all r = is_stale cutoff r (grouped r.namespace r.key all)

unfoldable pub delete_where : (Row → Bool) → List Row → List Row
delete_where p [] = []
delete_where p (r ∷ rows) = let rest = delete_where p rows in if p r then rest else r ∷ rest

abbrev pub days_or_zero : ℤ → ℕ
days_or_zero (pos days) = days
days_or_zero (negsuc n) = 0

-- `strftime('%s', 'now') - ? * 24 * 60 * 60`
abbrev pub cutoff_at : ℕ → ℤ → ℤ
cutoff_at now retain_days = sub_ℕ now (days_or_zero retain_days * 86400)

unfoldable pub purge_stale_versions : (ℕ → ℤ → Bool) → ℕ → ℤ → List Row → List Row
purge_stale_versions earlier now retain_days rows =
    delete_where (stale_in earlier (cutoff_at now retain_days) rows) rows

first_with-row_with :
    (v : ℕ) (n k : String) (rows : List Row)
    → OneRowEach rows
    → first_with v n k rows ≡ row_with v n k rows
unfolding first_with row_with OneRowEach
first_with-row_with v n k [] one = refl
first_with-row_with v n k (r ∷ rows) one =
    let test = at_key n k r && nat_beq r.version v in
    ap (λ o. if test then some r else o) (first_with-row_with v n k rows one.1)
    ∙ step test (row_with v n k rows) (λ here. alone here one.0)
  where
    alone :
        (at_key n k r && nat_beq r.version v) ≡ true
        → row_with r.version r.namespace r.key rows ≡ none
        → row_with v n k rows ≡ none
    alone here others =
        let p : n ≡ r.namespace = ground (arith, here, ==_iff n r.namespace) in
        let q : k ≡ r.key = ground (arith, here, ==_iff k r.key) in
        let u : v ≡ r.version = ground (arith, here) in rw p (rw q (rw u others))

    step :
        (b : Bool) (o : Option Row)
        → (b ≡ true → o ≡ none)
        → (if b then some r else o) ≡ elim o [ some x ↦ some x | none ↦ if b then some r else none ]
    step true o h = let t = h refl in rw t refl
    step false none h = refl
    step false (some x) h = refl

module _ (n k : String) (p : Row → Bool) where
  max_version-kept :
      (rows : List Row)
      → ((r : Row) → at_key n k r ≡ true → p r ≡ false)
      → max_version n k (delete_where p rows) ≡ max_version n k rows
  unfolding max_version delete_where
  max_version-kept [] h = refl
  max_version-kept (r ∷ rows) h = ground (arith, h r, max_version-kept rows h)

  row_with-kept :
      (v : ℕ) (rows : List Row)
      → ((r : Row) → at_key n k r ≡ true → nat_beq r.version v ≡ true → p r ≡ false)
      → row_with v n k (delete_where p rows) ≡ row_with v n k rows
  unfolding row_with delete_where
  row_with-kept v [] h = refl
  row_with-kept v (r ∷ rows) h = ground (arith, h r, row_with-kept v rows h)

  row_with-deleted :
      (v : ℕ) (rows : List Row)
      → ((r : Row) → at_key n k r ≡ true → p r ≡ true)
      → row_with v n k (delete_where p rows) ≡ none
  unfolding row_with delete_where
  row_with-deleted v [] h = refl
  row_with-deleted v (r ∷ rows) h = ground (arith, h r, row_with-deleted v rows h)

  max_version_less :
      (rows : List Row) → max_version n k (delete_where p rows) ≤ max_version n k rows
  unfolding max_version delete_where
  max_version_less [] = omega arith
  max_version_less (r ∷ rows) = ground (arith, max_version_less rows)

row_with-version :
    (v : ℕ) (n k : String) (rows : List Row) (x : Row)
    → row_with v n k rows ≡ some x
    → (x.version ≡ v) × (v ≤ max_version n k rows)
unfolding row_with max_version
row_with-version v n k [] x h = absurd (cc)
row_with-version v n k (r ∷ rows) x h = elim (Option-cases (row_with v n k rows)) [
  | inr (y, there) ↦
      let t = row_with-version v n k rows y there in
      let e : y ≡ x = ground (arith, rw there at h) in (rw (← e) t.0, ground (arith, t.1))
  | inl missing ↦ elim (Bool-cases (at_key n k r && nat_beq r.version v)) [
    | inr other ↦ absurd (cc (rw other at (rw missing at h)))
    | inl here ↦
        let e : r ≡ x = ground (arith, rw here at (rw missing at h)) in
        (rw (← e) (ground (arith, here)), ground (arith, here))
  ]
]

stale_in-at :
    (earlier : ℕ → ℤ → Bool) (cutoff : ℤ) (all : List Row) (n k : String) (r : Row)
    → OneRowEach all
    → at_key n k r ≡ true
    → stale_in earlier cutoff all r ≡ is_stale earlier cutoff r (latest_row n k all)
unfolding stale_in grouped latest_row
stale_in-at earlier cutoff all n k r one here =
    let p : n ≡ r.namespace = ground (arith, here, ==_iff n r.namespace) in
    let q : k ≡ r.key = ground (arith, here, ==_iff k r.key) in
    rw p (
      rw q (
        ap (is_stale earlier cutoff r)
          (first_with-row_with (max_version r.namespace r.key all) r.namespace r.key all one)))

-- Either a key's rows are all deleted, and then it was deleted, or its latest row stays.
latest_row-purged :
    (earlier : ℕ → ℤ → Bool) (cutoff : ℤ) (all : List Row) (n k : String)
    → OneRowEach all
    → live_entry (as_entry (latest_row n k (delete_where (stale_in earlier cutoff all) all)))
      ≡ live_entry (as_entry (latest_row n k all))
unfolding latest_row
latest_row-purged earlier cutoff all n k one = split (latest_row n k all) refl
  where
    max : ℕ
    max = max_version n k all

    kept : List Row
    kept = delete_where (stale_in earlier cutoff all) all

    stale :
        (o : Option Row)
        → latest_row n k all ≡ o
        → (r : Row) → at_key n k r ≡ true
        → stale_in earlier cutoff all r ≡ is_stale earlier cutoff r o
    stale o q r here =
        stale_in-at earlier cutoff all n k r one here ∙ ap (λ x. is_stale earlier cutoff r x) q

    split :
        (o : Option Row)
        → latest_row n k all ≡ o
        → live_entry (as_entry (row_with (max_version n k kept) n k kept)) ≡ live_entry (as_entry o)
    split none q =
        let h : (r : Row) → at_key n k r ≡ true → stale_in earlier cutoff all r ≡ false =
          λ r here. stale none q r here in
        rw (max_version-kept n k (stale_in earlier cutoff all) all h) (
          rw (row_with-kept n k (stale_in earlier cutoff all) max all (λ r here _. h r here))
            (rw q refl))
    split (some l) q = elim (Bool-cases (nat_beq l.deleted 1 && earlier l.created_date cutoff)) [
      | inl gone ↦
          rw
            (row_with-deleted n k (stale_in earlier cutoff all) (max_version n k kept) all
              (λ r here. stale (some l) q r here ∙ ground (arith, gone)))
            (ground (arith, gone))
      | inr stays ↦
          let t = row_with-version max n k all l q in
          let w : row_with max n k kept ≡ some l =
            row_with-kept n k (stale_in earlier cutoff all) max all
              (λ r here last. stale (some l) q r here ∙ ground (arith, stays, t.0, last))
            ∙ q in
          let u = row_with-version max n k kept l w in
          let e : max_version n k kept ≡ max =
            omega (arith, u.1, max_version_less n k (stale_in earlier cutoff all) all) in
          rw e (rw w refl)
    ]

-- Where no two rows of a key have the same version, and however SQLite compares the dates: a purge
-- of old rows changes nothing that Get finds in a store loaded from the table.
pub get-purge_stale_versions :
    (earlier : ℕ → ℤ → Bool) (now : ℕ) (retain_days : ℤ) (rows : List Row) (n k : String)
    → OneRowEach rows
    → let purged = purge_stale_versions earlier now retain_days rows in
      get n k (load_rows purged purged new_store) ≡ get n k (load_rows rows rows new_store)
unfolding purge_stale_versions get
get-purge_stale_versions earlier now retain_days rows n k one =
    let cutoff = cutoff_at now retain_days in
    ap live_entry (find-load (delete_where (stale_in earlier cutoff rows) rows) n k)
    ∙ latest_row-purged earlier cutoff rows n k one
    ∙ ap live_entry (sym (find-load rows n k))
