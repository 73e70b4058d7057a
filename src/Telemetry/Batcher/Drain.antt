-- ===== src/Telemetry/Batcher/Drain.antt =====
-- Flushing until the queue is empty.
use ti_cli.Common.{
  concat, ℕ, zero, suc, ◌≤◌, ◌<◌, Bool, true, false, List, [], ◌∷◌, ◌++◌, map, length, ◌==◌, ◌≡◌,
  inl, inr, refl, sym, ap, ◌∙◌, arith, length-append, Bool-cases, length-zero,
}
use mathlib.Core.List.{map-append}
use ti_cli.Common.Text.{Text}
use ti_cli.Telemetry.Batcher.{
  QueuedEvent, Batcher, cut, take_batch, write_batch, flush_next, threshold_reached,
}
use ti_cli.Telemetry.Batcher.Batches.{cut-append, cut_progress}

-- `for Pending() > 0` of `flushAll` while its context lives, on fuel; each round has its outcomes.
unfoldable pub flush_all :
    {A : Type 0} → ℕ → Batcher A → List (Text × Bool) → Batcher A × List (List A)
flush_all zero b outcomes = (b, [])
flush_all (suc n) b outcomes = elim (length b.queue == 0) [
  | true ↦ (b, [])
  | false ↦
      let (b', batch) = flush_next b outcomes in
      let (b'', batches) = flush_all n b' outcomes in (b'', batch ∷ batches)
]

-- The inner loop of `loop` after a wake, on fuel.
unfoldable pub flush_while_full : {A : Type 0} → ℕ → Batcher A → List (Text × Bool) → Batcher A
flush_while_full zero b outcomes = b
flush_while_full (suc n) b outcomes = elim (threshold_reached b) [
  | true ↦ flush_while_full n (flush_next b outcomes).0 outcomes
  | false ↦ b
]

abbrev pub events : {A : Type 0} → List (QueuedEvent A) → List A
events = map (λ q. q.event)

module _ {A : Type 0} where
  pub flush_next-queue :
      (b : Batcher A) (outcomes : List (Text × Bool))
      → ((flush_next b outcomes).0.queue ≡ (cut b.config 0 0 b.queue).rest)
        × ((flush_next b outcomes).1 ≡ events (cut b.config 0 0 b.queue).taken)
        × ((flush_next b outcomes).0.config ≡ b.config)
  unfolding flush_next write_batch
  flush_next-queue b outcomes = elim (Bool-cases (length (take_batch b).1 == 0)) [
    | inl e ↦ rw (e, flush_next, write_batch) (refl, refl, refl)
    | inr e ↦ rw (e, flush_next, write_batch) (refl, refl, refl)
  ]

  -- Events leave in the order in which they stand in the queue.
  flush_next-events :
      (b : Batcher A) (outcomes : List (Text × Bool))
      → (flush_next b outcomes).1 ++ events (flush_next b outcomes).0.queue ≡ events b.queue
  flush_next-events b outcomes =
      let (q, e, c) = flush_next-queue b outcomes in
      rw (
        q,
        e,
        sym (
            map-append (λ q. q.event) (cut b.config 0 0 b.queue).taken
              (cut b.config 0 0 b.queue).rest),
        cut-append b.config 0 0 b.queue,
      )

  pub flush_next_shrinks :
      (b : Batcher A) (outcomes : List (Text × Bool))
      → 0 < b.config.flush_max_events
      → 0 < length b.queue
      → length (flush_next b outcomes).0.queue < length b.queue
  flush_next_shrinks b outcomes h k =
      let (q, e, c) = flush_next-queue b outcomes in rw q (rest_shorter b.queue k)
    where
      rest_shorter :
          (qs : List (QueuedEvent A))
          → 0 < length qs
          → length (cut b.config 0 0 qs).rest < length qs
      rest_shorter [] k = elim k [ ]
      rest_shorter (q ∷ qs) k =
          let whole = ap length (cut-append b.config 0 0 (q ∷ qs)) in
          omega (
            arith,
            whole,
            length-append (cut b.config 0 0 (q ∷ qs)).taken (cut b.config 0 0 (q ∷ qs)).rest,
            cut_progress b.config q qs h,
          )

  -- With a positive limit of events in a batch, as many rounds as there are events are enough:
  -- the queue is empty afterwards, and the batches together are the queue, in its order.
  pub flush_all_drains :
      (n : ℕ) (b : Batcher A) (outcomes : List (Text × Bool))
      → 0 < b.config.flush_max_events
      → length b.queue ≤ n
      → ((flush_all n b outcomes).0.queue ≡ [])
        × (concat (flush_all n b outcomes).1 ≡ events b.queue)
  unfolding flush_all
  flush_all_drains zero b outcomes h k = let empty = length-zero b.queue k in (empty, rw empty)
  flush_all_drains (suc n) b outcomes h k = elim (Bool-cases (length b.queue == 0)) [
    | inl e ↦ let empty = length-zero b.queue (ground arith) in rw (flush_all, e) (empty, rw empty)
    | inr e ↦
        let (q, _, c) = flush_next-queue b outcomes in
        let (drained, sent) =
          flush_all_drains n (flush_next b outcomes).0 outcomes (rw c h)
            (let s = flush_next_shrinks b outcomes h (ground arith) in omega (arith, s)) in
        rw (flush_all, e)
          (drained, ap (λ l. (flush_next b outcomes).1 ++ l) sent ∙ flush_next-events b outcomes)
  ]
