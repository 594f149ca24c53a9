-- ===== src/Kv/Failures.antt =====
-- PersistSession of kv/persist.go where the transaction does not commit.
use maand.Prelude.{ℕ, Bool, true, false, List, ◌≡◌, refl, ok, err}
use maand.Kv.{Store, has_pending_changes, database_error}
use maand.Kv.Table.{Row, persist_to_transaction, persist_session}
use maand.Kv.RoundTrip.{persist-settled}

-- With nothing pending, PersistSession changes neither the table nor the store.
persist_session_quiet :
    (now : ℕ) (fails : Row → Bool) (commits : Bool) (rows : List Row) (s : Store)
    → has_pending_changes s ≡ false
    → persist_session now fails commits rows s ≡ (rows, s, ok tt)
unfolding persist_session
persist_session_quiet now fails commits rows s h = rw (h, persist_session) refl

failed_commit :
    (now : ℕ) (fails : Row → Bool) (rows : List Row) (s : Store)
    → has_pending_changes s ≡ true
    → (persist_to_transaction now fails rows s).2 ≡ ok tt
    → persist_session now fails false rows s
      ≡ (rows, (persist_to_transaction now fails rows s).1, err database_error)
unfolding persist_session
failed_commit now fails rows s pending done =
    rw (pending, persist_session) (rw (done, persist_session) refl)

-- Where a store has pending changes, every insertion succeeds and the commit fails, PersistSession
-- returns an error and the table is as before, but the store counts as saved: a second call succeeds
-- whatever the database does, and writes nothing.
pub failed_commit_loses_changes :
    (now later : ℕ) (fails fails' : Row → Bool) (commits : Bool) (rows : List Row) (s : Store)
    → has_pending_changes s ≡ true
    → (persist_to_transaction now fails rows s).2 ≡ ok tt
    → let r = persist_session now fails false rows s in
      (r.0 ≡ rows)
      × (r.2 ≡ err database_error)
      × (persist_session later fails' commits rows r.1 ≡ (rows, r.1, ok tt))
failed_commit_loses_changes now later fails fails' commits rows s pending done =
    rw (failed_commit now fails rows s pending done) (
      refl,
      refl,
      persist_session_quiet later fails' commits rows _ (persist-settled now fails rows s done),
    )
