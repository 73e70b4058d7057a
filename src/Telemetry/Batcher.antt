-- ===== src/Telemetry/Batcher.antt =====
-- The bounded queue of the telemetry backend (internal/telemetrybackend/batcher.go). What `Enqueue`
-- and `flushNext` do with the lock and what they do after it are functions of their own, so that
-- Lifecycle can run other calls between them; `enqueue` and `flush_next` run them in one go. The
-- outcomes of the sinks are arguments. Logging is left out, counters do not reach 2^64, and the JSON
-- size of an event is a parameter.
pub mod Account
pub mod Batches
pub mod Drain
pub mod Lifecycle
pub mod Settles
use ti_cli.Common.{
  ℕ, zero, suc, ◌+◌, ◌-◌, ◌≤◌, ◌<◌, Bool, true, false, not, ◌&&◌, ◌||◌, List, [], ◌∷◌, ◌++◌, map,
  ltb, leb, if◌then◌else◌, length, ◌==◌,
}
use ti_cli.Common.Text.{Text, eqb, codes}

pub record Config : Type 0 where
  pub buffer_max_events : ℕ
  pub flush_max_events : ℕ
  pub flush_max_bytes : ℕ

pub record Metrics : Type 0 where
  pub accepted_events : ℕ
  pub dropped_events : ℕ
  pub flushed_events : ℕ
  pub tidb_successes : ℕ
  pub tidb_failures : ℕ

pub record QueuedEvent (A : Type 0) : Type 0 where
  pub event : A
  pub bytes : ℕ

-- `wake` is the channel of one place; `stop` and `done` say that their channels are closed.
pub record Batcher (A : Type 0) : Type 0 where
  pub config : Config
  pub metrics : Metrics
  pub queue : List (QueuedEvent A)
  pub pending_bytes : ℕ
  pub closed : Bool
  pub started : Bool
  pub wake : Bool
  pub stop : Bool
  pub done : Bool

unfoldable pub new_batcher : {A : Type 0} → Config → Batcher A
new_batcher config = record {
  config = config;
  metrics = record {
    accepted_events = 0;
    dropped_events = 0;
    flushed_events = 0;
    tidb_successes = 0;
    tidb_failures = 0;
  };
  queue = [];
  pending_bytes = 0;
  closed = false;
  started = false;
  wake = false;
  stop = false;
  done = false;
}

unfoldable pub sum_bytes : {A : Type 0} → List (QueuedEvent A) → ℕ
sum_bytes [] = 0
sum_bytes (q ∷ qs) = q.bytes + sum_bytes qs

unfoldable pub drop_events : {A : Type 0} → ℕ → Batcher A → Batcher A
drop_events n b = record b {
  metrics = record b.metrics { dropped_events = b.metrics.dropped_events + n };
}

unfoldable pub over_threshold : {A : Type 0} → Config → List (QueuedEvent A) → ℕ → Bool
over_threshold config queue bytes =
    leb config.flush_max_events (length queue) || leb config.flush_max_bytes bytes

unfoldable pub threshold_reached : {A : Type 0} → Batcher A → Bool
unfolding over_threshold
threshold_reached b = over_threshold b.config b.queue b.pending_bytes

-- A call of `Enqueue` that has left the lock: how many events it was refused, or how many it has put
-- into the queue and whether it is to wake the loop.
pub data Call : Type 0 where
  refused : ℕ → Call
  accepted : ℕ → Bool → Call

abbrev is_accepted : Call → Bool
is_accepted (refused n) = false
is_accepted (accepted n should_wake) = true

-- The rest of the call: it counts its events, and `signal` leaves a full channel as it is.
unfoldable pub report : {A : Type 0} → Call → Batcher A → Batcher A
unfolding drop_events
report (refused n) b = drop_events n b
report (accepted n should_wake) b = record b {
  metrics = record b.metrics { accepted_events = b.metrics.accepted_events + n };
  wake = b.wake || should_wake;
}

module _ {A : Type 0} (size : A → ℕ) where
  unfoldable pub queued : A → QueuedEvent A
  queued a = record { event = a; bytes = size a }

  unfoldable pub append_events : Batcher A → List A → Batcher A
  unfolding queued sum_bytes
  append_events b events = record b {
    queue = b.queue ++ map queued events;
    pending_bytes = b.pending_bytes + sum_bytes (map queued events);
  }

  -- What `Enqueue` of some events does with the lock, and how the call goes on.
  unfoldable pub lock_enqueue : Batcher A → List A → Batcher A × Call
  unfolding append_events threshold_reached
  lock_enqueue b events =
      if b.closed || ltb b.config.buffer_max_events (length b.queue + length events)
      then (b, refused (length events))
      else let b' = append_events b events in (b', accepted (length events) (threshold_reached b'))

  unfoldable pub enqueue : Batcher A → List A → Batcher A × Bool
  unfolding lock_enqueue report
  enqueue b [] = (b, false)
  enqueue b (e ∷ events) = let (b', c) = lock_enqueue b (e ∷ events) in (report c b', is_accepted c)

pub record Cut (A : Type 0) : Type 0 where
  pub taken : List (QueuedEvent A)
  pub rest : List (QueuedEvent A)

-- The loop of `takeBatch`, with the events and bytes that are taken already.
unfoldable pub cut : {A : Type 0} → Config → ℕ → ℕ → List (QueuedEvent A) → Cut A
cut config count bytes [] = record { taken = []; rest = [] }
cut config count bytes (q ∷ qs) =
    let more = cut config (count + 1) (bytes + q.bytes) qs in
    if ltb count config.flush_max_events
      && not (ltb 0 count && ltb config.flush_max_bytes (bytes + q.bytes))
    then record { taken = q ∷ more.taken; rest = more.rest }
    else record { taken = []; rest = q ∷ qs }

unfoldable pub take_batch : {A : Type 0} → Batcher A → Batcher A × List A
unfolding cut sum_bytes
take_batch b =
    let c = cut b.config 0 0 b.queue in
    (
      record b { queue = c.rest; pending_bytes = b.pending_bytes - sum_bytes c.taken },
      map (λ q. q.event) c.taken,
    )

unfoldable pub record_sink_result : Metrics → Text → Bool → Metrics
record_sink_result m name success =
    if eqb name (codes "tidb")
    then if success
      then record m { tidb_successes = m.tidb_successes + 1 }
      else record m { tidb_failures = m.tidb_failures + 1 }
    else m

-- The sinks in turn, each with whether its write succeeded.
unfoldable pub record_results : Metrics → List (Text × Bool) → Metrics
unfolding record_sink_result
record_results m [] = m
record_results m ((name, success) ∷ rs) = record_results (record_sink_result m name success) rs

unfoldable pub count_flushed : {A : Type 0} → Batcher A → List (Text × Bool) → ℕ → Batcher A
unfolding record_results
count_flushed b outcomes n =
    let m = record_results b.metrics outcomes in
    record b { metrics = record m { flushed_events = m.flushed_events + n } }

-- What `flushNext` does with its batch, without the lock.
unfoldable pub write_batch : {A : Type 0} → Batcher A → List (Text × Bool) → List A → Batcher A
unfolding count_flushed
write_batch b outcomes batch =
    if length batch == 0 then b else count_flushed b outcomes (length batch)

-- The batch is what every sink is given.
unfoldable pub flush_next : {A : Type 0} → Batcher A → List (Text × Bool) → Batcher A × List A
unfolding take_batch write_batch
flush_next b outcomes = let (b', batch) = take_batch b in (write_batch b' outcomes batch, batch)

unfoldable pub discard_pending : {A : Type 0} → Batcher A → Batcher A
discard_pending b = record b { queue = []; pending_bytes = 0 }

-- The end of `flushAll`: what a timed out drain has left is counted and dropped.
unfoldable pub finish_drain : {A : Type 0} → Batcher A → Batcher A
unfolding discard_pending drop_events
finish_drain b =
    if ltb 0 (length b.queue) then discard_pending (drop_events (length b.queue) b) else b

-- Whether it was not started before, so that the loop is run.
unfoldable pub start : {A : Type 0} → Batcher A → Batcher A × Bool
start b = if b.started then (b, false) else (record b { started = true }, true)

-- The state changes of `Close`; waiting for `done` changes nothing.
unfoldable pub close : {A : Type 0} → Batcher A → Batcher A
close b =
    if not b.started
    then record b { closed = true; started = true; done = true }
    else if not b.closed
    then record b { closed = true; stop = true }
    else b
