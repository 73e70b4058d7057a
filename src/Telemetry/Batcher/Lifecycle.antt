-- ===== src/Telemetry/Batcher/Lifecycle.antt =====
-- The goroutine that flushes (`loop` and `flushAll` of internal/telemetrybackend/batcher.go) as
-- steps among the calls of other goroutines. A call of `Enqueue` is two steps, the one with the lock
-- and the one after it, and so is a flush, whose batch is with the sinks in between; any other steps
-- may come between the two. That a call after its lock first counts and then signals is one step.
pub mod Good
pub mod Conservation
pub mod Wake
use ti_cli.Common.{
  ℕ, ◌+◌, ◌<◌, Bool, true, false, ◌||◌, List, [], ◌∷◌, ◌++◌, length, ◌≡◌, refl, ap, ◌∙◌, arith,
}
use ti_cli.Common.Text.{Text}
use ti_cli.Telemetry.Batcher.{
  Config, Batcher, Call, refused, accepted, take_batch, write_batch, threshold_reached,
  finish_drain, lock_enqueue, report, close, start, new_batcher,
}
use ti_cli.Telemetry.Batcher.Account.{refused_events}

-- Who asked for a flush: the inner loop after a wake, the ticker, or `flushAll`.
pub data Round : Type 0 where
  on_wake on_tick on_drain : Round

-- Where the loop is: not run yet, in its select, at the test of the inner loop after a wake, at that
-- of `flushAll`, giving a batch to the sinks, or returned.
pub data Phase (A : Type 0) : Type 0 where
  idle : Phase A
  selecting : Phase A
  flushing : Phase A
  draining : Phase A
  writing : Round → List A → Phase A
  finished : Phase A

unfoldable pub after : {A : Type 0} → Round → Phase A
after on_wake = flushing
after on_tick = selecting
after on_drain = draining

-- The test before a flush.
unfoldable pub Begins : {A : Type 0} → Round → Batcher A → Type 0
Begins on_wake b = threshold_reached b ≡ true
Begins on_tick b = Unit
Begins on_drain b = 0 < length b.queue

-- `offered` counts the events that were given to `Enqueue`; `calls` are those that have left the lock
-- and not returned.
pub record System (A : Type 0) : Type 0 where
  pub phase : Phase A
  pub batcher : Batcher A
  pub offered : ℕ
  pub calls : List Call

unfoldable pub new_system : {A : Type 0} → Config → System A
unfolding new_batcher
new_system config = record { phase = idle; batcher = new_batcher config; offered = 0; calls = [] }

-- The events of refused calls that have still to count them.
unfoldable pub uncounted : List Call → ℕ
unfolding refused_events
uncounted [] = 0
uncounted (c ∷ cs) = refused_events c + uncounted cs

-- Whether one of the calls has still to wake the loop.
unfoldable pub wakes : Call → Bool
wakes (refused n) = false
wakes (accepted n should_wake) = should_wake

unfoldable pub some_wakes : List Call → Bool
unfolding wakes
some_wakes [] = false
some_wakes (c ∷ cs) = wakes c || some_wakes cs

pub uncounted-append :
    (cs : List Call) (c : Call) (ds : List Call)
    → uncounted (cs ++ c ∷ ds) ≡ uncounted (cs ++ ds) + refused_events c
unfolding uncounted
uncounted-append [] c ds = omega arith
uncounted-append (b ∷ cs) c ds = omega (arith, uncounted-append cs c ds)

pub some_wakes-append :
    (cs : List Call) (c : Call) (ds : List Call)
    → some_wakes (cs ++ c ∷ ds) ≡ (wakes c || some_wakes (cs ++ ds))
unfolding some_wakes
some_wakes-append [] c ds = refl
some_wakes-append (b ∷ cs) c ds = ground (arith, some_wakes-append cs c ds)

module _ {A : Type 0} (size : A → ℕ) where
  -- A step of the loop is guarded by the channel it receives from or by its loop's test; the drain
  -- ends when the queue is empty or when its context has run out.
  pub data Step : System A → System A → Type 0 where
    started :
        {b : Batcher A} {n : ℕ} {cs : List Call}
        → (start b).1 ≡ true
        → Step
            (record { phase = idle; batcher = b; offered = n; calls = cs })
            (record { phase = selecting; batcher = (start b).0; offered = n; calls = cs })
    locked :
        {p : Phase A} {b : Batcher A} {n : ℕ} {cs : List Call} (es : List A)
        → 0 < length es
        → Step
            (record { phase = p; batcher = b; offered = n; calls = cs })
            (record {
              phase = p;
              batcher = (lock_enqueue size b es).0;
              offered = n + length es;
              calls = (lock_enqueue size b es).1 ∷ cs;
            })
    reported :
        {p : Phase A} {b : Batcher A} {n : ℕ} (cs : List Call) (c : Call) (ds : List Call)
        → Step
            (record { phase = p; batcher = b; offered = n; calls = cs ++ c ∷ ds })
            (record { phase = p; batcher = report c b; offered = n; calls = cs ++ ds })
    closed :
        {p : Phase A} {b : Batcher A} {n : ℕ} {cs : List Call}
        → Step
            (record { phase = p; batcher = b; offered = n; calls = cs })
            (record { phase = p; batcher = close b; offered = n; calls = cs })
    woken :
        {b : Batcher A} {n : ℕ} {cs : List Call}
        → b.wake ≡ true
        → Step
            (record { phase = selecting; batcher = b; offered = n; calls = cs })
            (record {
              phase = flushing;
              batcher = record b { wake = false };
              offered = n;
              calls = cs;
            })
    -- A flush begins: `takeBatch`.
    begun :
        {b : Batcher A} {n : ℕ} {cs : List Call} (r : Round)
        → Begins r b
        → Step
            (record { phase = after r; batcher = b; offered = n; calls = cs })
            (record {
              phase = writing r (take_batch b).1;
              batcher = (take_batch b).0;
              offered = n;
              calls = cs;
            })
    -- The sinks have had the batch.
    written :
        {b : Batcher A} {n : ℕ} {cs : List Call} (r : Round) (batch : List A)
        (outcomes : List (Text × Bool))
        → Step
            (record { phase = writing r batch; batcher = b; offered = n; calls = cs })
            (record {
              phase = after r;
              batcher = write_batch b outcomes batch;
              offered = n;
              calls = cs;
            })
    settled :
        {b : Batcher A} {n : ℕ} {cs : List Call}
        → threshold_reached b ≡ false
        → Step
            (record { phase = flushing; batcher = b; offered = n; calls = cs })
            (record { phase = selecting; batcher = b; offered = n; calls = cs })
    stopped :
        {b : Batcher A} {n : ℕ} {cs : List Call}
        → b.stop ≡ true
        → Step
            (record { phase = selecting; batcher = b; offered = n; calls = cs })
            (record { phase = draining; batcher = b; offered = n; calls = cs })
    returned :
        {b : Batcher A} {n : ℕ} {cs : List Call}
        → Step
            (record { phase = draining; batcher = b; offered = n; calls = cs })
            (record {
              phase = finished;
              batcher = record (finish_drain b) { done = true };
              offered = n;
              calls = cs;
            })

  pub data Reachable (config : Config) : System A → Type 0 where
    initial : Reachable config (new_system config)
    next : {s t : System A} → Reachable config s → Step s t → Reachable config t
