-- ===== src/Telemetry/Tests.antt =====
-- A batcher of numbers, whose size is the number itself.
use ti_cli.Common.{
  concat, ℕ, ◌+◌, ◌≤◌, ◌<◌, ◌⊎◌, inl, Bool, true, List, [], ◌∷◌, ◌≡◌, refl, arith, length,
}
use ti_cli.Common.Text.{Text, codes}
use ti_cli.Telemetry.Batcher.{
  Config, Batcher, Call, accepted, new_batcher, enqueue, lock_enqueue, report, append_events,
  queued, sum_bytes, take_batch, write_batch, finish_drain, close, start, threshold_reached,
  over_threshold,
}
use ti_cli.Telemetry.Batcher.Drain.{flush_all, events, flush_all_drains}
use ti_cli.Telemetry.Batcher.Drain.{flush_while_full}
use ti_cli.Telemetry.Batcher.Settles.{flush_while_full_settles}
use ti_cli.Telemetry.Batcher.Lifecycle.{
  on_drain, selecting, writing, finished, after, Begins, new_system, uncounted, some_wakes, Step,
  Reachable,
}
use ti_cli.Telemetry.Batcher.Lifecycle.Good.{in_flight}
use ti_cli.Telemetry.Batcher.Lifecycle.Conservation.{Reachable-account, finished_account}
use ti_cli.Telemetry.Batcher.Lifecycle.Wake.{no_lost_wake}

abbrev small : Config
small = record { buffer_max_events = 4; flush_max_events = 2; flush_max_bytes = 100 }

abbrev size : ℕ → ℕ
size n = n

abbrev three : List ℕ
three = 10 ∷ 20 ∷ 30 ∷ []

abbrev filled : Batcher ℕ
filled = (enqueue size (new_batcher small) three).0

abbrev fine : List (Text × Bool)
fine = (codes "tidb", true) ∷ []

flush_all_drains_example :
    ((flush_all 3 filled fine).0.queue ≡ [])
    × (concat (flush_all 3 filled fine).1 ≡ events filled.queue)
unfolding enqueue lock_enqueue append_events report new_batcher
flush_all_drains_example = flush_all_drains 3 filled fine (omega arith) (omega arith)

abbrev started_batcher : Batcher ℕ
started_batcher = (start (new_batcher small)).0

-- The call that put in the three events has still to count and to signal.
abbrev locked : Batcher ℕ
locked = (lock_enqueue size started_batcher three).0

abbrev calls : List Call
calls = accepted 3 true ∷ []

locked-Reachable :
    Reachable size small
      (record { phase = selecting; batcher = locked; offered = 3; calls = calls })
unfolding start new_batcher new_system lock_enqueue append_events threshold_reached over_threshold
    queued sum_bytes
locked-Reachable =
    Reachable.next (Reachable.next Reachable.initial (Step.started refl))
      (Step.locked three (omega arith))

abbrev loaded : Batcher ℕ
loaded = report (accepted 3 true) locked

filled-Reachable :
    Reachable size small (record { phase = selecting; batcher = loaded; offered = 3; calls = [] })
filled-Reachable = Reachable.next locked-Reachable (Step.reported [] (accepted 3 true) [])

-- Closed with three events; the drain gives two to the sinks, and then runs out of time.
abbrev writing_two : Batcher ℕ
writing_two = (take_batch (close loaded)).0

writing-Reachable : Reachable size small (record {
  phase = writing on_drain (take_batch (close loaded)).1;
  batcher = writing_two;
  offered = 3;
  calls = [];
})
unfolding close start new_batcher lock_enqueue append_events report after Begins
writing-Reachable =
    Reachable.next
      (Reachable.next (Reachable.next filled-Reachable Step.closed) (Step.stopped refl))
      (Step.begun on_drain (omega arith))

Reachable-account_example :
    (writing_two.pending_bytes ≡ sum_bytes writing_two.queue)
    × (length writing_two.queue ≤ small.buffer_max_events)
    × (3
        ≡ writing_two.metrics.flushed_events
          + writing_two.metrics.dropped_events
          + length writing_two.queue
          + in_flight (writing on_drain (take_batch (close loaded)).1)
          + uncounted [])
Reachable-account_example =
    Reachable-account size small
      (record {
        phase = writing on_drain (take_batch (close loaded)).1;
        batcher = writing_two;
        offered = 3;
        calls = [];
      })
      writing-Reachable

no_lost_wake_example : (locked.wake ≡ true) ⊎ (some_wakes calls ≡ true)
unfolding start new_batcher lock_enqueue append_events queued sum_bytes
no_lost_wake_example =
    no_lost_wake size small locked 3 calls (omega arith) (omega arith) locked-Reachable
      (inl (omega arith))

abbrev ended : Batcher ℕ
ended = record (finish_drain (write_batch writing_two fine (take_batch (close loaded)).1)) {
  done = true;
}

ended-Reachable :
    Reachable size small (record { phase = finished; batcher = ended; offered = 3; calls = [] })
unfolding after
ended-Reachable =
    Reachable.next
      (Reachable.next writing-Reachable (Step.written on_drain (take_batch (close loaded)).1 fine))
      Step.returned

finished_account_example :
    (ended.closed ≡ true)
    × (ended.queue ≡ [])
    × (3 ≡ ended.metrics.flushed_events + ended.metrics.dropped_events + uncounted [])
finished_account_example = finished_account size small ended 3 [] ended-Reachable

flush_while_full_settles_example :
    (length (flush_while_full 3 filled fine).queue < filled.config.flush_max_events)
    × ((flush_while_full 3 filled fine).pending_bytes < filled.config.flush_max_bytes)
unfolding enqueue lock_enqueue append_events report new_batcher queued sum_bytes
flush_while_full_settles_example =
    flush_while_full_settles 3 filled fine (omega arith) (omega arith) refl (omega arith)
