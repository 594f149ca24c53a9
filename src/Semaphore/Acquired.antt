-- ===== src/Semaphore/Acquired.antt =====
-- What acquire of jobcommand/runtime_semaphore.go has done when it returns at once.
use maand.Prelude.{
  ℕ, String, true, Option, none, some, [], ◌≡◌, refl, ◌∙◌, ℤ, ltb, ◌==◌, ==_iff, ==_refl,
  comparable_ℕ, comparable_String, contains, add, contains-add, lookup, put, lookup-put_self,
  length, ok, Bool-cases, inl, inr,
}
use maand.Semaphore.{
  JobSemaphore, SemaphoreCoordinator, max_semaphore_capacity, admit, register_found, register_wait,
  clamp_capacity, acquired, acquire_reply, acquire,
}

-- An allocation holds a slot of a semaphore that has a capacity.
abbrev pub Holds : String → String → ℕ → SemaphoreCoordinator → Type 0
Holds scope_key allocation_id capacity c =
    (sem : JobSemaphore) × (lookup scope_key c.semaphores ≡ some sem)
    × (contains allocation_id sem.holders ≡ true)
    × (sem.capacity ≡ capacity)

admit-Holds :
    (k a : String) (sem : JobSemaphore) (c : SemaphoreCoordinator)
    → lookup k c.semaphores ≡ some sem
    → (admit k a sem c).1 ≡ none
    → Holds k a sem.capacity (admit k a sem c).0
unfolding admit
admit-Holds k a sem c there h = elim (Bool-cases (contains a sem.holders)) [
  | inl held ↦ rw (held, admit) (sem, there, held, refl)
  | inr new ↦ elim (Bool-cases (ltb (length sem.holders) sem.capacity)) [
    | inr full ↦ absurd (cc (rw (new, full) at h))
    | inl free ↦
        rw (new, free)
          (
            record sem { holders = add a sem.holders },
            lookup-put_self k _ c.semaphores,
            contains-add a a sem.holders ∙ rw (==_refl a) refl,
            refl,
          )
  ]
]

at_once : (o : Option ℕ) → acquire_reply (ok o) ≡ acquired → o ≡ none
at_once none h = refl
at_once (some ch) h = absurd (cc)

-- A call of acquire that returns without an error and without waiting has made its allocation a holder,
-- in a semaphore of the capacity that was asked for.
pub acquire-Holds :
    (k a : String) (n : ℤ) (c : SemaphoreCoordinator)
    → (acquire k a n c).1 ≡ acquired
    → Holds k a (clamp_capacity n) (acquire k a n c).0
unfolding acquire register_wait
acquire-Holds k a n c h = elim (Bool-cases (ltb max_semaphore_capacity (clamp_capacity n))) [
  | inl large ↦ absurd (cc (rw large at h))
  | inr fits ↦ rw fits (found (lookup k c.semaphores) refl (rw fits at h))
]
  where
    found :
        (o : Option JobSemaphore)
        → lookup k c.semaphores ≡ o
        → acquire_reply (register_found k a (clamp_capacity n) c o).1 ≡ acquired
        → Holds k a (clamp_capacity n) (register_found k a (clamp_capacity n) c o).0
    found none e g =
        let sem : JobSemaphore = record {
          capacity = clamp_capacity n;
          holders = [];
          waiters = [];
        } in
        admit-Holds k a sem (record c { semaphores = put k sem c.semaphores })
          (lookup-put_self k sem c.semaphores) (at_once _ g)
    found (some sem) e g = elim (Bool-cases (sem.capacity == clamp_capacity n)) [
      | inr mismatch ↦ absurd (cc (rw mismatch at g))
      | inl same ↦
          let t = admit-Holds k a sem c e (at_once _ (rw same at g)) in
          rw same (t.0, t.1, t.2, t.3 ∙ (==_iff sem.capacity (clamp_capacity n)).0 same)
    ]
