-- ===== src/Runtime/Guards.antt =====
-- Chains of guards, as the handlers of jobcommand/runtime_handlers.go have them.
use maand.Prelude.{Bool, false, ◌≡◌, refl, arith, Result, ok, err, ◌>>=◌}
use maand.Kv.{Store, KvError, not_found, namespace_not_found, store_not_initialized, database_error}
use maand.Runtime.{ApiError, Response, failed, done, refuse_if}
use maand.Runtime.Handlers.{reply, reply_done, deleted}

-- What holds of the answer where a guard fails, and of what follows it where it does not, holds of
-- both.
pub reply_done-bind {ℓ} :
    {A : Type ℓ} (P : Response × Store → Type 0) (s : Store) (x : Result ApiError A)
    (f : A → Result ApiError Store)
    → ((e : ApiError) → P (failed e, s))
    → ((a : A) → x ≡ ok a → P (reply_done s (f a)))
    → P (reply_done s (x >>= f))
reply_done-bind P s (err e) f base step = base e
reply_done-bind P s (ok a) f base step = step a refl

pub reply-bind {ℓ} :
    {A : Type ℓ} (P : Response → Type 0) (x : Result ApiError A) (f : A → Result ApiError Response)
    → ((e : ApiError) → P (failed e))
    → ((a : A) → x ≡ ok a → P (reply (f a)))
    → P (reply (x >>= f))
reply-bind P (err e) f base step = base e
reply-bind P (ok a) f base step = step a refl

pub refuse_if-ok : (e : ApiError) (b : Bool) → refuse_if e b ≡ ok tt → b ≡ false
refuse_if-ok e b h = ground (arith, h)

-- A Delete that succeeds answers with the new store, any other with an error.
pub reply_done-deleted :
    (P : Response × Store → Type 0) (s : Store) (r : Store × Result KvError (Unit {0}))
    → ((e : ApiError) → P (failed e, s))
    → (r.1 ≡ ok tt → P (done, r.0))
    → P (reply_done s (deleted r))
reply_done-deleted P s (s', ok tt) base step = step refl
reply_done-deleted P s (s', err not_found) base step = base _
reply_done-deleted P s (s', err namespace_not_found) base step = base _
reply_done-deleted P s (s', err store_not_initialized) base step = base _
reply_done-deleted P s (s', err database_error) base step = base _
