-- ===== src/Telemetry/Batcher/Lifecycle/Wake.antt =====
-- No wake-up of the flush loop (internal/telemetrybackend/batcher.go) is lost: while the loop waits,
-- a queue past a flush threshold has its signal in the channel or on its way there.
use ti_cli.Common.{
  ℕ, ◌+◌, ◌≤◌, ◌<◌, Bool, true, false, ◌||◌, List, ◌∷◌, ◌++◌, ltb, length, ◌≡◌, ◌⊎◌, inl, inr, refl,
  sym, ap, ◌∙◌, arith, Bool-cases, length-append,
}
use ti_cli.Common.Text.{Text}
use ti_cli.Telemetry.Batcher.{
  Config, Batcher, Call, refused, accepted, cut, take_batch, write_batch, threshold_reached,
  over_threshold, lock_enqueue, report, drop_events, close, start, new_batcher,
}
use ti_cli.Telemetry.Batcher.Batches.{cut-append}
use ti_cli.Telemetry.Batcher.Lifecycle.{
  Round, on_wake, on_tick, on_drain, Phase, idle, selecting, flushing, draining, writing, finished,
  after, System, new_system, wakes, some_wakes, some_wakes-append, Step, Reachable,
}
use ti_cli.Telemetry.Batcher.Lifecycle.Good.{take_batch-flags, write_batch-flags}
use ti_cli.Telemetry.Batcher.Lifecycle.Conservation.{Reachable-config}

module _ {A : Type 0} where
  -- Past a threshold the signal is in the channel, or a call has still to send it.
  abbrev Signalled : Batcher A → List Call → Type 0
  Signalled b cs = threshold_reached b ≡ true → (b.wake || some_wakes cs) ≡ true

  Awake : Phase A → Batcher A → List Call → Type 0
  Awake idle b cs = Signalled b cs
  Awake selecting b cs = Signalled b cs
  Awake (writing on_tick batch) b cs = Signalled b cs
  Awake _ b cs = Unit

  Awake-map :
      (p : Phase A) (b b' : Batcher A) (cs cs' : List Call)
      → (Signalled b cs → Signalled b' cs')
      → Awake p b cs
      → Awake p b' cs'
  unfolding Awake
  Awake-map idle b b' cs cs' f = f
  Awake-map selecting b b' cs cs' f = f
  Awake-map (writing on_tick batch) b b' cs cs' f = f
  Awake-map (writing on_wake batch) b b' cs cs' f = λ e. tt
  Awake-map (writing on_drain batch) b b' cs cs' f = λ e. tt
  Awake-map flushing b b' cs cs' f = λ e. tt
  Awake-map draining b b' cs cs' f = λ e. tt
  Awake-map finished b b' cs cs' f = λ e. tt

  take_batch-smaller :
      (b : Batcher A)
      → let b' = (take_batch b).0 in
        (length b'.queue ≤ length b.queue) × (b'.pending_bytes ≤ b.pending_bytes)
  unfolding take_batch
  take_batch-smaller b =
      let c = cut b.config 0 0 b.queue in
      let count = ap length (cut-append b.config 0 0 b.queue) in
      let long = length-append c.taken c.rest in (omega (arith, count, long), omega arith)

  -- A flush does not bring the queue past a threshold.
  take_batch-Signalled :
      (b : Batcher A) (cs : List Call) → Signalled b cs → Signalled (take_batch b).0 cs
  take_batch-Signalled b cs f h =
      let (events, bytes) = take_batch-smaller b in
      let (same, _, _, wake) = take_batch-flags b in
      let max_events = ap (λ c. c.flush_max_events) same in
      let max_bytes = ap (λ c. c.flush_max_bytes) same in
      let before : threshold_reached b ≡ true =
        unfold threshold_reached over_threshold in ground arith in
      ap (λ w. w || some_wakes cs) wake ∙ f before

  write_batch-Signalled :
      (b : Batcher A) (cs : List Call) (outcomes : List (Text × Bool)) (batch : List A)
      → Signalled b cs
      → Signalled (write_batch b outcomes batch) cs
  write_batch-Signalled b cs outcomes batch f h =
      let (same, _, _, wake, queue, bytes) = write_batch-flags b outcomes batch in
      let unchanged : threshold_reached (write_batch b outcomes batch) ≡ threshold_reached b =
        unfold threshold_reached in λ i. over_threshold (same i) (queue i) (bytes i) in
      let reached = sym unchanged ∙ h in ap (λ w. w || some_wakes cs) wake ∙ f reached

  close-wake :
      (b : Batcher A)
      → ((close b).wake ≡ b.wake) × (threshold_reached (close b) ≡ threshold_reached b)
  unfolding close threshold_reached
  close-wake b = elim (Bool-cases b.started) [
    | inl e ↦ elim (Bool-cases b.closed) [
      | inl f ↦ rw (e, f) (refl, refl)
      | inr f ↦ rw (e, f) (refl, refl)
    ]
    | inr e ↦ rw e (refl, refl)
  ]

  close-Signalled : (b : Batcher A) (cs : List Call) → Signalled b cs → Signalled (close b) cs
  close-Signalled b cs f h =
      let (w, t) = close-wake b in ap (λ w. w || some_wakes cs) w ∙ f (sym t ∙ h)

  start-Signalled : (b : Batcher A) (cs : List Call) → Signalled b cs → Signalled (start b).0 cs
  unfolding start threshold_reached
  start-Signalled b cs f = elim (Bool-cases b.started) [ inl e ↦ rw e f | inr e ↦ rw e f ]

  -- The call that sends its signal no longer has to.
  report-Signalled :
      (b : Batcher A) (cs : List Call) (c : Call) (ds : List Call)
      → Signalled b (cs ++ c ∷ ds)
      → Signalled (report c b) (cs ++ ds)
  unfolding report drop_events threshold_reached wakes
  report-Signalled b cs (refused n) ds f h =
      let split = some_wakes-append cs (refused n) ds in let before = f h in ground arith
  report-Signalled b cs (accepted n should_wake) ds f h =
      let split = some_wakes-append cs (accepted n should_wake) ds in
      let before = f h in ground arith

  begun-Awake :
      (r : Round) (b : Batcher A) (cs : List Call)
      → Awake (after r) b cs
      → Awake (writing r (take_batch b).1) (take_batch b).0 cs
  unfolding Awake after
  begun-Awake on_wake b cs f = tt
  begun-Awake on_tick b cs f = take_batch-Signalled b cs f
  begun-Awake on_drain b cs f = tt

  written-Awake :
      (r : Round) (b : Batcher A) (cs : List Call) (outcomes : List (Text × Bool)) (batch : List A)
      → Awake (writing r batch) b cs
      → Awake (after r) (write_batch b outcomes batch) cs
  unfolding Awake after
  written-Awake on_wake b cs outcomes batch f = tt
  written-Awake on_tick b cs outcomes batch f = write_batch-Signalled b cs outcomes batch f
  written-Awake on_drain b cs outcomes batch f = tt

or_sound : (a b : Bool) → (a || b) ≡ true → (a ≡ true) ⊎ (b ≡ true)
or_sound true b h = inl refl
or_sound false b h = inr h

past_threshold :
    {A : Type 0} (config : Config) (b : Batcher A)
    → b.config ≡ config
    → (config.flush_max_events ≤ length b.queue) ⊎ (config.flush_max_bytes ≤ b.pending_bytes)
    → threshold_reached b ≡ true
past_threshold config b same past =
    let events = ap (λ c. c.flush_max_events) same in
    let bytes = ap (λ c. c.flush_max_bytes) same in
    unfold threshold_reached over_threshold in
    elim past [ inl many ↦ ground arith | inr big ↦ ground arith ]

module _ {A : Type 0} (size : A → ℕ) where
  lock_enqueue-Signalled :
      (b : Batcher A) (cs : List Call) (es : List A)
      → Signalled b cs
      → Signalled (lock_enqueue size b es).0 ((lock_enqueue size b es).1 ∷ cs)
  unfolding lock_enqueue some_wakes wakes
  lock_enqueue-Signalled b cs es f =
      elim (Bool-cases (b.closed || ltb b.config.buffer_max_events (length b.queue + length es))) [
        | inl g ↦ rw g f
        | inr g ↦ rw g λ h. ground (arith, h)
      ]

  step-Awake :
      (s t : System A)
      → Step size s t
      → Awake s.phase s.batcher s.calls
      → Awake t.phase t.batcher t.calls
  unfolding Awake
  step-Awake _ _ (Step.started {b} {n} {cs} h) f = start-Signalled b cs f
  step-Awake _ _ (Step.locked {p} {b} {n} {cs} es some_event) f =
      Awake-map p b _ cs _ (lock_enqueue-Signalled b cs es) f
  step-Awake _ _ (Step.reported {p} {b} cs c ds) f =
      Awake-map p b _ _ _ (report-Signalled b cs c ds) f
  step-Awake _ _ (Step.closed {p} {b} {n} {cs}) f = Awake-map p b _ cs cs (close-Signalled b cs) f
  step-Awake _ _ (Step.woken h) f = tt
  step-Awake _ _ (Step.begun {b} {n} {cs} r test) f = begun-Awake r b cs f
  step-Awake _ _ (Step.written {b} {n} {cs} r batch outcomes) f =
      written-Awake r b cs outcomes batch f
  step-Awake _ _ (Step.settled h) f = λ k. absurd (ground arith)
  step-Awake _ _ (Step.stopped h) f = tt
  step-Awake _ _ Step.returned f = tt

  Reachable-Awake :
      (config : Config) (s : System A)
      → 0 < config.flush_max_events
      → 0 < config.flush_max_bytes
      → Reachable size config s
      → Awake s.phase s.batcher s.calls
  unfolding Awake new_system new_batcher threshold_reached over_threshold
  Reachable-Awake config _ h k Reachable.initial = λ t. absurd (ground arith)
  Reachable-Awake config _ h k (Reachable.next {s} {t} before step) =
      step-Awake s t step (Reachable-Awake config s h k before)

  -- With positive thresholds: whenever the loop waits in its select and the queue has the events or
  -- the bytes of a flush, the wake-up signal is in the channel, or a call that put events into the
  -- queue has still to send it.
  pub no_lost_wake :
      (config : Config) (b : Batcher A) (offered : ℕ) (calls : List Call)
      → 0 < config.flush_max_events
      → 0 < config.flush_max_bytes
      → Reachable size config
          (record { phase = selecting; batcher = b; offered = offered; calls = calls })
      → (config.flush_max_events ≤ length b.queue) ⊎ (config.flush_max_bytes ≤ b.pending_bytes)
      → (b.wake ≡ true) ⊎ (some_wakes calls ≡ true)
  unfolding Awake
  no_lost_wake config b offered calls h k r past =
      let signalled = Reachable-Awake config _ h k r in
      or_sound b.wake (some_wakes calls)
        (signalled (past_threshold config b (Reachable-config size config _ r) past))
