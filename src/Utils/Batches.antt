-- ===== src/Utils/Batches.antt =====
-- NewBatchIterator of utils/batch.go: its batches are the whole slice, cut.
use maand.Prelude.{
  append_nil, append_assoc, ℕ, zero, suc, ◌+◌, ◌-◌, ◌≤◌, ◌<◌, String, true, false, none, some, List,
  [], ◌∷◌, ◌++◌, ◌≡◌, refl, sym, ap, ◌∙◌, arith, ltb, if◌then◌else◌, length, take, Bool-cases, inl,
  inr, All, ℤ, pos, negsuc,
}
use maand.Rollout.Steps.{batch_at}
use maand.Rollout.Batches.{take-batch_at, take_long, batch_at-Sized}
use maand.Utils.{batch_size_or_one, next_batch, drain}

-- The batches joined.
unfoldable pub joined : List (List String) → List String
joined [] = []
joined (batch ∷ batches) = batch ++ joined batches

abbrev pub IsBatch : ℕ → List String → Type 0
IsBatch size batch = (1 ≤ length batch) × (length batch ≤ size)

next_batch-end :
    (items : List String) (size index : ℕ)
    → ltb index (length items) ≡ false
    → next_batch items size index ≡ (none, index)
unfolding next_batch
next_batch-end items size index over = rw over refl

abbrev end_of : List String → ℕ → ℕ → ℕ
end_of items size index = if ltb (length items) (index + size) then length items else index + size

next_batch-more :
    (items : List String) (size index : ℕ)
    → ltb index (length items) ≡ true
    → next_batch items size index ≡ (some (batch_at index size items), end_of items size index)
unfolding next_batch batch_at
next_batch-more items size index more = rw more refl

take-end_of :
    (items : List String) (size index : ℕ)
    → take (index + size) items ≡ take (end_of items size index) items
take-end_of items size index = elim (Bool-cases (ltb (length items) (index + size))) [
  | inl beyond ↦ rw beyond (
      take_long (index + size) items (ground arith)
      ∙ sym (take_long (length items) items (omega arith)))
  | inr within ↦ rw within refl
]

drain-joined :
    (items : List String) (size calls index : ℕ)
    → 1 ≤ size
    → index ≤ length items
    → length items - index < calls
    → ((take index items ++ joined (drain items size calls index)) ≡ items)
      × All (IsBatch size) (drain items size calls index)
unfolding drain joined
drain-joined items size zero index s h enough = absurd (omega (arith, enough))
drain-joined items size (suc calls) index s h enough =
    elim (Bool-cases (ltb index (length items))) [
      | inr over ↦
          rw (next_batch-end items size index over)
            (append_nil (take index items) ∙ take_long index items (ground arith), tt)
      | inl more ↦
          let end = end_of items size index in
          let ih = drain-joined items size calls end s (ground arith) (ground (arith, enough)) in
          rw (next_batch-more items size index more) (
            sym (
                  append_assoc (take index items) (batch_at index size items)
                    (joined (drain items size calls end)))
                ∙ ap (λ xs. xs ++ joined (drain items size calls end))
                    (take-batch_at index size items h ∙ take-end_of items size index)
                ∙ ih.0,
            (batch_at-Sized index size items (ground arith) s, ih.1),
          )
    ]

batch_size_or_one_lem : (requested : ℤ) → 1 ≤ batch_size_or_one requested
batch_size_or_one_lem (pos n) = ground arith
batch_size_or_one_lem (negsuc n) = omega arith

-- Whatever batch size is requested: in as many calls of the iterator as the slice has items and one
-- more, the batches, joined, are the slice, and each has at least one item and at most the batch size
-- (1 for a size below 1).
pub drain-cuts :
    (items : List String) (requested : ℤ)
    → (joined (drain items (batch_size_or_one requested) (suc (length items)) 0) ≡ items)
      × All
          (IsBatch (batch_size_or_one requested))
          (drain items (batch_size_or_one requested) (suc (length items)) 0)
drain-cuts items requested =
    drain-joined items (batch_size_or_one requested) (suc (length items)) 0
      (batch_size_or_one_lem requested) (omega arith) (omega arith)
