-- ===== src/Telemetry/Batcher/Settles.antt =====
-- The inner loop of `loop` after a wake (internal/telemetrybackend/batcher.go) comes to an end.
use ti_cli.Common.{
  ℕ, zero, suc, ◌≤◌, ◌<◌, Bool, true, false, ltb, List, [], length, ◌≡◌, refl, ap, ◌∙◌, arith,
  Bool-cases, inl, inr, length-zero,
}
use ti_cli.Common.Text.{Text}
use ti_cli.Telemetry.Batcher.{Batcher, sum_bytes, flush_next, threshold_reached, over_threshold}
use ti_cli.Telemetry.Batcher.Account.{flush_next-bytes}
use ti_cli.Telemetry.Batcher.Drain.{flush_while_full, flush_next_shrinks, flush_next-queue}

module _ {A : Type 0} where
  empty_settled :
      (b : Batcher A)
      → 0 < b.config.flush_max_events
      → 0 < b.config.flush_max_bytes
      → b.pending_bytes ≡ sum_bytes b.queue
      → b.queue ≡ []
      → threshold_reached b ≡ false
  unfolding threshold_reached over_threshold
  empty_settled b h k counted empty =
      let none_left : b.pending_bytes ≡ 0 =
        counted ∙ ap sum_bytes empty ∙ (unfold sum_bytes in refl) in
      let no_events : length b.queue ≡ 0 = ap length empty in ground arith

  full_has_event :
      (b : Batcher A)
      → 0 < b.config.flush_max_events
      → 0 < b.config.flush_max_bytes
      → b.pending_bytes ≡ sum_bytes b.queue
      → threshold_reached b ≡ true
      → 0 < length b.queue
  full_has_event b h k counted full = elim (Bool-cases (ltb 0 (length b.queue))) [
    | inl e ↦ ground (arith, e)
    | inr e ↦
        let settled = empty_settled b h k counted (length-zero b.queue (ground (arith, e))) in
        absurd (cc)
  ]

  below_thresholds :
      (n : ℕ) (b : Batcher A) (outcomes : List (Text × Bool))
      → 0 < b.config.flush_max_events
      → 0 < b.config.flush_max_bytes
      → b.pending_bytes ≡ sum_bytes b.queue
      → length b.queue ≤ n
      → let b' = flush_while_full n b outcomes in
        (threshold_reached b' ≡ false) × (b'.config ≡ b.config)
  unfolding flush_while_full
  below_thresholds zero b outcomes h k counted short =
      (empty_settled b h k counted (length-zero b.queue short), refl)
  below_thresholds (suc n) b outcomes h k counted short = elim (Bool-cases (threshold_reached b)) [
    | inr below ↦ rw (flush_while_full, below) (below, refl)
    | inl full ↦
        let (_, _, c) = flush_next-queue b outcomes in
        let some_left : 0 < length b.queue = full_has_event b h k counted full in
        let shorter = flush_next_shrinks b outcomes h some_left in
        let (below, same) =
          below_thresholds n (flush_next b outcomes).0 outcomes (rw c h) (rw c k)
            (flush_next-bytes b outcomes counted) (omega (arith, shorter, short)) in
        rw (flush_while_full, full) (below, same ∙ c)
  ]

  -- With positive thresholds and a right count of bytes, and while nothing is enqueued, as many rounds
  -- as there are events bring the queue below the number of events and of bytes of a flush.
  pub flush_while_full_settles :
      (n : ℕ) (b : Batcher A) (outcomes : List (Text × Bool))
      → 0 < b.config.flush_max_events
      → 0 < b.config.flush_max_bytes
      → b.pending_bytes ≡ sum_bytes b.queue
      → length b.queue ≤ n
      → let b' = flush_while_full n b outcomes in
        (length b'.queue < b.config.flush_max_events)
        × (b'.pending_bytes < b.config.flush_max_bytes)
  flush_while_full_settles n b outcomes h k counted short =
      let (below, same) = below_thresholds n b outcomes h k counted short in
      let events = ap (λ c. c.flush_max_events) same in
      let bytes = ap (λ c. c.flush_max_bytes) same in
      unfold threshold_reached over_threshold in (ground arith, ground arith)
