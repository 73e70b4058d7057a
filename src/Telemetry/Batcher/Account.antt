-- ===== src/Telemetry/Batcher/Account.antt =====
-- What the operations of the batcher (internal/telemetrybackend/batcher.go) do to its counters: an
-- event that was offered is flushed, dropped, in the queue, or with a call that is not done.
use ti_cli.Common.{
  ℕ, suc, ◌+◌, ◌≤◌, Bool, ◌||◌, List, [], ◌∷◌, map, ltb, length, ◌==◌, ◌≡◌, inl, inr, refl, ap, ◌∙◌,
  arith, length-append, Bool-cases, length-zero,
}
use ti_cli.Common.Text.{Text}
use ti_cli.Telemetry.Batcher.{
  Metrics, QueuedEvent, Batcher, Call, refused, accepted, sum_bytes, cut, take_batch,
  record_results, record_sink_result, count_flushed, write_batch, flush_next, finish_drain,
  discard_pending, drop_events, lock_enqueue, append_events, report, queued, close,
}
use ti_cli.Telemetry.Batcher.Batches.{cut-append, sum_bytes-append, length-map-queued}

-- `out` events are with calls that are not done.
pub record Inv {A : Type 0} (offered out : ℕ) (b : Batcher A) : Type 0 where
  pub bytes : b.pending_bytes ≡ sum_bytes b.queue
  pub room : length b.queue ≤ b.config.buffer_max_events
  pub account : offered ≡ b.metrics.flushed_events + b.metrics.dropped_events + length b.queue + out

unfoldable pub refused_events : Call → ℕ
refused_events (refused n) = n
refused_events (accepted n should_wake) = 0

record_sink_result-counters :
    (m : Metrics) (name : Text) (success : Bool)
    → ((record_sink_result m name success).flushed_events ≡ m.flushed_events)
      × ((record_sink_result m name success).dropped_events ≡ m.dropped_events)
unfolding record_sink_result
record_sink_result-counters m name success = ground arith

record_results-counters :
    (m : Metrics) (rs : List (Text × Bool))
    → ((record_results m rs).flushed_events ≡ m.flushed_events)
      × ((record_results m rs).dropped_events ≡ m.dropped_events)
unfolding record_results
record_results-counters m [] = (refl, refl)
record_results-counters m ((name, success) ∷ rs) =
    let (f, d) = record_results-counters (record_sink_result m name success) rs in
    let (f', d') = record_sink_result-counters m name success in (f ∙ f', d ∙ d')

module _ {A : Type 0} where
  length-map_event : (qs : List (QueuedEvent A)) → length (map (λ q. q.event) qs) ≡ length qs
  length-map_event [] = refl
  length-map_event (q ∷ qs) = ap suc (length-map_event qs)

  take_batch-bytes :
      (b : Batcher A)
      → b.pending_bytes ≡ sum_bytes b.queue
      → (take_batch b).0.pending_bytes ≡ sum_bytes (take_batch b).0.queue
  unfolding take_batch
  take_batch-bytes b h =
      let c = cut b.config 0 0 b.queue in
      let whole = ap sum_bytes (cut-append b.config 0 0 b.queue) in
      omega (arith, h, whole, sum_bytes-append c.taken c.rest)

  pub take_batch-Inv :
      (offered out : ℕ) (b : Batcher A)
      → Inv offered out b
      → Inv offered (out + length (take_batch b).1) (take_batch b).0
  take_batch-Inv offered out b inv =
      let c = cut b.config 0 0 b.queue in
      let count = ap length (cut-append b.config 0 0 b.queue) in
      let long = length-append c.taken c.rest in
      let taken = length-map_event c.taken in
      record {
        bytes = take_batch-bytes b inv.bytes;
        room = unfold take_batch in omega (arith, inv.room, count, long);
        account = unfold take_batch in omega (arith, inv.account, count, long, taken);
      }

  -- The batch is counted when the sinks have had it.
  pub write_batch-Inv :
      (offered out : ℕ) (b : Batcher A) (outcomes : List (Text × Bool)) (batch : List A)
      → Inv offered (out + length batch) b
      → Inv offered out (write_batch b outcomes batch)
  unfolding write_batch count_flushed
  write_batch-Inv offered out b outcomes batch inv =
      let (f, d) = record_results-counters b.metrics outcomes in
      elim (Bool-cases (length batch == 0)) [
        | inl e ↦
            rw e
              (record { bytes = inv.bytes; room = inv.room; account = ground (arith, inv.account) })
        | inr e ↦ rw e (record {
          bytes = inv.bytes;
          room = inv.room;
          account = omega (arith, inv.account, f, d);
        })
      ]

  pub flush_next-bytes :
      (b : Batcher A) (outcomes : List (Text × Bool))
      → b.pending_bytes ≡ sum_bytes b.queue
      → (flush_next b outcomes).0.pending_bytes ≡ sum_bytes (flush_next b outcomes).0.queue
  unfolding flush_next write_batch count_flushed
  flush_next-bytes b outcomes h = elim (Bool-cases (length (take_batch b).1 == 0)) [
    | inl e ↦ rw e (take_batch-bytes b h)
    | inr e ↦ rw e (take_batch-bytes b h)
  ]

  pub finish_drain-Inv :
      (offered out : ℕ) (b : Batcher A)
      → Inv offered out b
      → Inv offered out (finish_drain b) × ((finish_drain b).queue ≡ [])
  unfolding finish_drain discard_pending drop_events sum_bytes
  finish_drain-Inv offered out b inv = elim (Bool-cases (ltb 0 (length b.queue))) [
    | inl e ↦
        rw e
          (record { bytes = refl; room = omega arith; account = omega (arith, inv.account) }, refl)
    | inr e ↦ rw e (inv, length-zero b.queue (ground arith))
  ]

  pub close-Inv : (offered out : ℕ) (b : Batcher A) → Inv offered out b → Inv offered out (close b)
  unfolding close
  close-Inv offered out b inv = elim (Bool-cases b.started) [
    | inl e ↦ elim (Bool-cases b.closed) [
      | inl f ↦ rw (e, f) (record { bytes = inv.bytes; room = inv.room; account = inv.account })
      | inr f ↦ rw (e, f) (record { bytes = inv.bytes; room = inv.room; account = inv.account })
    ]
    | inr e ↦ rw e (record { bytes = inv.bytes; room = inv.room; account = inv.account })
  ]

  -- A refused call counts its events as dropped when it reports.
  pub report-Inv :
      (offered out : ℕ) (b : Batcher A) (c : Call)
      → Inv offered (out + refused_events c) b
      → Inv offered out (report c b)
  unfolding report drop_events refused_events
  report-Inv offered out b (refused n) inv = record {
    bytes = inv.bytes;
    room = inv.room;
    account = omega (arith, inv.account);
  }
  report-Inv offered out b (accepted n should_wake) inv = record {
    bytes = inv.bytes;
    room = inv.room;
    account = omega (arith, inv.account);
  }

module _ {A : Type 0} (size : A → ℕ) where
  pub lock_enqueue-Inv :
      (offered out : ℕ) (b : Batcher A) (es : List A)
      → Inv offered out b
      → Inv
          (offered + length es)
          (out + refused_events (lock_enqueue size b es).1)
          (lock_enqueue size b es).0
  unfolding lock_enqueue append_events refused_events
  lock_enqueue-Inv offered out b es inv =
      let more = map (queued size) es in
      let counted = length-map-queued size es in
      let long = length-append b.queue more in
      elim (Bool-cases (b.closed || ltb b.config.buffer_max_events (length b.queue + length es))) [
        | inl f ↦
            rw f
              (record { bytes = inv.bytes; room = inv.room; account = omega (arith, inv.account) })
        | inr f ↦ rw f (record {
          bytes = omega (arith, inv.bytes, sum_bytes-append b.queue more);
          room = ground (arith, inv.room, long, counted, f);
          account = omega (arith, inv.account, long, counted);
        })
      ]
