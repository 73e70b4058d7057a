-- ===== src/Telemetry/Batcher/Lifecycle/Conservation.antt =====
-- In every run of the batcher (internal/telemetrybackend/batcher.go) no event is lost uncounted.
use ti_cli.Common.{
  ℕ, ◌+◌, ◌≤◌, true, ◌||◌, List, [], ◌++◌, ltb, length, ◌≡◌, ◌≢◌, inl, inr, refl, sym, ap, ◌∙◌,
  arith, Bool-cases,
}
use ti_cli.Telemetry.Batcher.{
  Config, Batcher, Call, sum_bytes, append_events, lock_enqueue, report, close, start, new_batcher,
}
use ti_cli.Telemetry.Batcher.Account.{lock_enqueue-Inv, report-Inv, finish_drain-Inv, close-Inv}
use ti_cli.Telemetry.Batcher.Lifecycle.{
  finished, System, new_system, uncounted, uncounted-append, Step, Reachable,
}
use ti_cli.Telemetry.Batcher.Lifecycle.Good.{
  in_flight, Ending, Good, Keeps, Keeps-Good, finish_drain-flags, close-Keeps, report-Keeps,
  re_count, begun-Good, written-Good,
}

module _ {A : Type 0} (size : A → ℕ) where
  lock_enqueue-Keeps : (b : Batcher A) (es : List A) → Keeps b (lock_enqueue size b es).0
  unfolding lock_enqueue append_events
  lock_enqueue-Keeps b es =
      elim (Bool-cases (b.closed || ltb b.config.buffer_max_events (length b.queue + length es))) [
        | inl f ↦ rw f (refl, λ h. h, λ h q. q, λ s. s)
        | inr f ↦ rw f (refl, λ h. h, λ h q. absurd (ground arith), λ s. s)
      ]

  start-again : (b : Batcher A) → b.started ≡ true → (start b).1 ≢ true
  unfolding start
  start-again b e h = ground arith

  step-Good : (config : Config) (s t : System A) → Step size s t → Good config s → Good config t
  unfolding Ending in_flight uncounted start
  step-Good config _ _ (Step.started {b} h) g = elim (Bool-cases b.started) [
    | inl e ↦ absurd (start-again b e h)
    | inr e ↦
        rw (start, e)
          (record {
            same = g.same;
            inv = record { bytes = g.inv.bytes; room = g.inv.room; account = g.inv.account };
            stop_closed = g.stop_closed;
            ending = tt;
          })
  ]
  step-Good config _ _ (Step.locked {p} {b} {n} {cs} es some_event) g =
      Keeps-Good config p b _ n _ cs _ (lock_enqueue-Keeps b es)
        (re_count (omega arith) (lock_enqueue-Inv size n (in_flight p + uncounted cs) b es g.inv)) g
  step-Good config _ _ (Step.reported {p} {b} {n} cs c ds) g =
      Keeps-Good config p b (report c b) n n _ _ (report-Keeps b c)
        (report-Inv n (in_flight p + uncounted (cs ++ ds)) b c
          (re_count (let split = uncounted-append cs c ds in omega (arith, split)) g.inv))
        g
  step-Good config _ _ (Step.closed {p} {b} {n} {cs}) g =
      Keeps-Good config p b (close b) n n cs cs (close-Keeps b) (close-Inv n _ b g.inv) g
  step-Good config _ _ (Step.woken h) g = record {
    same = g.same;
    inv = record { bytes = g.inv.bytes; room = g.inv.room; account = g.inv.account };
    stop_closed = g.stop_closed;
    ending = tt;
  }
  step-Good config _ _ (Step.begun {b} {n} {cs} r test) g = begun-Good config b n cs r g
  step-Good config _ _ (Step.written {b} {n} {cs} r batch outcomes) g =
      written-Good config b n cs r batch outcomes g
  step-Good config _ _ (Step.settled h) g = record {
    same = g.same;
    inv = g.inv;
    stop_closed = g.stop_closed;
    ending = tt;
  }
  step-Good config _ _ (Step.stopped h) g = record {
    same = g.same;
    inv = g.inv;
    stop_closed = g.stop_closed;
    ending = g.stop_closed h;
  }
  step-Good config _ _ (Step.returned {b} {n}) g =
      let (inv, empty) = finish_drain-Inv n _ b g.inv in
      let (c, closed, stop) = finish_drain-flags b in
      record {
        same = c ∙ g.same;
        inv = record { bytes = inv.bytes; room = inv.room; account = inv.account };
        stop_closed = λ s. closed ∙ g.stop_closed (sym stop ∙ s);
        ending = (closed ∙ g.ending, empty);
      }

  Reachable-Good : (config : Config) (s : System A) → Reachable size config s → Good config s
  unfolding new_system new_batcher Ending sum_bytes in_flight uncounted
  Reachable-Good config _ Reachable.initial = record {
    same = refl;
    inv = record { bytes = refl; room = omega arith; account = refl };
    stop_closed = λ h. h;
    ending = tt;
  }
  Reachable-Good config _ (Reachable.next {s} {t} before step) =
      step-Good config s t step (Reachable-Good config s before)

  pub Reachable-config :
      (config : Config) (s : System A) → Reachable size config s → s.batcher.config ≡ config
  Reachable-config config s r = let g = Reachable-Good config s r in g.same

  -- In every reachable state the pending bytes are those of the queue, the queue is within its
  -- configured limit, and every event that was offered is flushed, counted as dropped, queued, with
  -- the sinks, or of a refused call that has still to count it.
  pub Reachable-account :
      (config : Config) (s : System A)
      → Reachable size config s
      → let b = s.batcher in
        (b.pending_bytes ≡ sum_bytes b.queue)
        × (length b.queue ≤ config.buffer_max_events)
        × (s.offered
            ≡ b.metrics.flushed_events
              + b.metrics.dropped_events
              + length b.queue
              + in_flight s.phase
              + uncounted s.calls)
  Reachable-account config s r =
      let g = Reachable-Good config s r in
      (g.inv.bytes, let room = g.inv.room in rw⁻¹ g.same room, omega (arith, g.inv.account))

  -- Once the loop has returned the batcher is closed and its queue empty, so that every event that
  -- was offered is flushed or counted as dropped, or of a refused call that has still to count it.
  pub finished_account :
      (config : Config) (b : Batcher A) (offered : ℕ) (calls : List Call)
      → Reachable size config
          (record { phase = finished; batcher = b; offered = offered; calls = calls })
      → (b.closed ≡ true)
        × (b.queue ≡ [])
        × (offered ≡ b.metrics.flushed_events + b.metrics.dropped_events + uncounted calls)
  unfolding Ending in_flight
  finished_account config b offered calls r =
      let g = Reachable-Good config _ r in
      let (closed, empty) = g.ending in
      (closed, empty, omega (arith, g.inv.account, ap length empty))
