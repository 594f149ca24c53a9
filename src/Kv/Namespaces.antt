-- ===== src/Kv/Namespaces.antt =====
-- The outer loop of PersistToTransaction (kv/persist.go), over the namespaces of a store.
use mathlib.Core.Path.{subst}
use maand.Prelude.{
  ℕ, String, Bool, true, false, Option, none, some, List, [], ◌∷◌, ◌≡◌, refl, ap, arith, ◌==◌,
  ==_iff, ==_refl, comparable_String, if◌then◌else◌, Map, lookup, keys, contains, Distinct,
  lookup_absent, Bool-cases, inl, inr,
}
use maand.Kv.{Entry, Store, find, entry_in}
use maand.Kv.Table.{Row, persist_entries, persist_namespaces, persist_to_transaction}
use maand.Kv.Sync.{SyncAt, InSync}
use maand.Kv.Persist.{
  SameAt, SameAt-refl, SameAt-trans, SyncAt-SameAt, EntriesSynced, persist_entries-EntriesSynced,
}

abbrev Namespaces : Type 0
Namespaces = Map String (Map String Entry)

abbrev pub AllDistinct : Namespaces → Type 0
AllDistinct [] = Unit
AllDistinct ((n, ns) ∷ rest) = Distinct (keys ns) × AllDistinct rest

-- A Go map has each key once.
pub record IsMap (s : Store) : Type 0 where
  pub namespaces_distinct : Distinct (keys s.namespaces)
  pub keys_distinct : AllDistinct s.namespaces

record NamespacesSynced (rows rows' : List Row) (nss nss' : Namespaces) : Type 0 where
  sync :
      (m j : String) → contains m (keys nss) ≡ true → SyncAt m j rows' (entry_in j (lookup m nss'))
  frame : (m j : String) → contains m (keys nss) ≡ false → SameAt m j rows rows'
  absent : (m : String) → contains m (keys nss) ≡ false → lookup m nss' ≡ none

NamespacesSynced-stop :
    (rows : List Row) (nss : Namespaces)
    → ((m j : String) → contains m (keys nss) ≡ true → SyncAt m j rows (entry_in j (lookup m nss)))
    → NamespacesSynced rows rows nss nss
NamespacesSynced-stop rows nss h = record {
  sync = h;
  frame = λ m j _. SameAt-refl m j rows;
  absent = λ m a. lookup_absent m nss a;
}

-- One namespace, in step for every key, whether it has an entry or not.
entries_in_step :
    (n : String) (rows rows' : List Row) (ns ns' : Map String Entry)
    → EntriesSynced n rows rows' ns ns'
    → ((j : String) → SyncAt n j rows (lookup j ns))
    → (j : String) → SyncAt n j rows' (lookup j ns')
entries_in_step n rows rows' ns ns' e h j = elim (Bool-cases (contains j (keys ns))) [
  | inl here ↦ e.sync j here
  | inr gone ↦ rw (e.absent j gone) (
      SyncAt-SameAt none (e.frame n j (rw (==_refl n) gone))
        (subst (λ (o : Option Entry). SyncAt n j rows o) (lookup_absent j ns gone) (h j)))
]

module _ (n : String) (rows rows' rows'' : List Row) (ns ns' : Map String Entry)
    (rest rest' : Namespaces) (fresh : contains n (keys rest) ≡ false)
    (own : (j : String) → SyncAt n j rows' (lookup j ns'))
    (others : (m j : String) → (m == n) ≡ false → SameAt m j rows rows')
    (tail : NamespacesSynced rows' rows'' rest rest') where
  NamespacesSynced-cons : NamespacesSynced rows rows'' ((n, ns) ∷ rest) ((n, ns') ∷ rest')
  unfolding lookup keys contains
  NamespacesSynced-cons = record {
    sync = λ m j h. elim (Bool-cases (m == n)) [
      | inl same ↦
          rw ((==_iff m n).0 same)
            (rw (==_refl n) (SyncAt-SameAt (lookup j ns') (tail.frame n j fresh) (own j)))
      | inr other ↦ rw other (tail.sync m j (ground arith))
    ];
    frame = λ m j h. SameAt-trans (others m j (ground arith)) (tail.frame m j (ground arith));
    absent = λ m h. ground (arith, tail.absent m);
  }

own_entries :
    (n : String) (ns : Map String Entry) (rest : Namespaces) (rows : List Row)
    → ((m j : String)
        → contains m (keys ((n, ns) ∷ rest)) ≡ true
        → SyncAt m j rows (entry_in j (lookup m ((n, ns) ∷ rest))))
    → (j : String) → SyncAt n j rows (lookup j ns)
unfolding lookup keys contains
own_entries n ns rest rows h j =
    let t : (if n == n then some ns else lookup n rest) ≡ some ns = rw (==_refl n) refl in
    subst (λ (o : Option (Map String Entry)). SyncAt n j rows (entry_in j o)) t
      (h n j (rw (==_refl n) refl))

rest_entries :
    (n : String) (ns : Map String Entry) (rest : Namespaces) (rows : List Row)
    → contains n (keys rest) ≡ false
    → ((m j : String)
        → contains m (keys ((n, ns) ∷ rest)) ≡ true
        → SyncAt m j rows (entry_in j (lookup m ((n, ns) ∷ rest))))
    → (m j : String) → contains m (keys rest) ≡ true
    → ((m == n) ≡ false) × SyncAt m j rows (entry_in j (lookup m rest))
unfolding lookup keys contains
rest_entries n ns rest rows fresh h m j c =
    let other : (m == n) ≡ false =
      ground (arith, ==_iff m n, λ (p : m ≡ n). ap (λ (x : String). contains x (keys rest)) p) in
    let t : (if m == n then some ns else lookup m rest) ≡ lookup m rest = rw other refl in
    (
      other,
      subst (λ (o : Option (Map String Entry)). SyncAt m j rows (entry_in j o)) t
          (h m j (rw other c)),
    )

persist_namespaces-Synced :
    (now : ℕ) (fails : Row → Bool) (rows : List Row) (nss : Namespaces)
    → Distinct (keys nss)
    → AllDistinct nss
    → ((m j : String) → contains m (keys nss) ≡ true → SyncAt m j rows (entry_in j (lookup m nss)))
    → let r = persist_namespaces now fails rows nss in NamespacesSynced rows r.0 nss r.1
unfolding persist_namespaces keys
persist_namespaces-Synced now fails rows [] d ad h = NamespacesSynced-stop rows [] h
persist_namespaces-Synced now fails rows ((n, ns) ∷ rest) d ad h =
    elim (Bool-cases (persist_entries now fails n rows ns).2) [
      | inl done ↦
          rw (done, persist_namespaces)
            (NamespacesSynced-cons n rows _ _ ns _ rest _ d.0 own others (
              persist_namespaces-Synced now fails (persist_entries now fails n rows ns).0 rest d.1
                ad.1 later))
      | inr stops ↦
          rw (stops, persist_namespaces)
            (NamespacesSynced-cons n rows _ _ ns _ rest _ d.0 own others
              (NamespacesSynced-stop (persist_entries now fails n rows ns).0 rest later))
    ]
  where
    synced : let r = persist_entries now fails n rows ns in EntriesSynced n rows r.0 ns r.1
    synced =
        persist_entries-EntriesSynced now fails n rows ns ad.0 λ j _. own_entries n ns rest rows h j

    own :
        (j : String)
        → SyncAt n j
            (persist_entries now fails n rows ns).0
            (lookup j (persist_entries now fails n rows ns).1)
    own = entries_in_step n rows _ ns _ synced (own_entries n ns rest rows h)

    others :
        (m j : String) → (m == n) ≡ false → SameAt m j rows (persist_entries now fails n rows ns).0
    others m j o = synced.frame m j (rw o refl)

    later :
        (m j : String)
        → contains m (keys rest) ≡ true
        → SyncAt m j (persist_entries now fails n rows ns).0 (entry_in j (lookup m rest))
    later m j c =
        let t = rest_entries n ns rest rows d.0 h m j c in
        SyncAt-SameAt (entry_in j (lookup m rest)) (others m j t.0) t.1

-- Writing the changed entries keeps the store in step with the table, also where a statement fails
-- half way: then the entries before it are written and unmarked, and the others are as they were.
pub persist-InSync :
    (now : ℕ) (fails : Row → Bool) (rows : List Row) (s : Store)
    → IsMap s
    → InSync rows s
    → let r = persist_to_transaction now fails rows s in InSync r.0 r.1
unfolding persist_to_transaction find
persist-InSync now fails rows s d h =
    let p =
      persist_namespaces-Synced now fails rows s.namespaces d.namespaces_distinct d.keys_distinct
        (λ m j _. h.at m j) in
    record {
      at = λ m j. elim (Bool-cases (contains m (keys s.namespaces))) [
        | inl here ↦ p.sync m j here
        | inr gone ↦ rw (p.absent m gone) (
            SyncAt-SameAt none (p.frame m j gone) (
              subst (λ (o : Option (Map String Entry)). SyncAt m j rows (entry_in j o))
                (lookup_absent m s.namespaces gone) (h.at m j)))
      ];
    }
