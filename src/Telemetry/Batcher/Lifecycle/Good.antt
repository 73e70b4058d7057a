-- ===== src/Telemetry/Batcher/Lifecycle/Good.antt =====
-- What a state of the batcher (internal/telemetrybackend/batcher.go) has in every run, and that its
-- operations keep it.
use ti_cli.Common.{
  ℕ, ◌+◌, Bool, true, List, [], ltb, length, ◌==◌, ◌≡◌, inl, inr, refl, sym, ◌∙◌, arith, Bool-cases,
  subst,
}
use ti_cli.Common.Text.{Text}
use ti_cli.Telemetry.Batcher.{
  Config, Batcher, Call, refused, accepted, take_batch, write_batch, count_flushed, finish_drain,
  drop_events, discard_pending, report, close,
}
use ti_cli.Telemetry.Batcher.Account.{Inv, take_batch-Inv, write_batch-Inv}
use ti_cli.Telemetry.Batcher.Lifecycle.{
  Round, on_wake, on_tick, on_drain, Phase, idle, selecting, flushing, draining, writing, finished,
  after, System, uncounted,
}

-- How many events are with the sinks.
unfoldable pub in_flight : {A : Type 0} → Phase A → ℕ
in_flight (writing r batch) = length batch
in_flight p = 0

in_flight-after : (A : Type 0) (r : Round) → in_flight {A = A} (after r) ≡ 0
unfolding in_flight after
in_flight-after A on_wake = refl
in_flight-after A on_tick = refl
in_flight-after A on_drain = refl

module _ {A : Type 0} where
  -- From the drain on the batcher is closed, and after it the queue is empty.
  unfoldable pub Ending : Phase A → Batcher A → Type 0
  Ending draining b = b.closed ≡ true
  Ending (writing on_drain batch) b = b.closed ≡ true
  Ending finished b = (b.closed ≡ true) × (b.queue ≡ [])
  Ending _ b = Unit

  pub record Good (config : Config) (s : System A) : Type 0 where
    pub same : s.batcher.config ≡ config
    pub inv : Inv s.offered (in_flight s.phase + uncounted s.calls) s.batcher
    pub stop_closed : s.batcher.stop ≡ true → s.batcher.closed ≡ true
    pub ending : Ending s.phase s.batcher

  -- Closed and empty stay so, and so do the configuration and what follows from the stop.
  abbrev pub Keeps : Batcher A → Batcher A → Type 0
  Keeps b b' =
      (b'.config ≡ b.config)
      × (b.closed ≡ true → b'.closed ≡ true)
      × (b.closed ≡ true → b.queue ≡ [] → b'.queue ≡ [])
      × ((b.stop ≡ true → b.closed ≡ true) → b'.stop ≡ true → b'.closed ≡ true)

  Keeps-Ending : (p : Phase A) (b b' : Batcher A) → Keeps b b' → Ending p b → Ending p b'
  unfolding Ending
  Keeps-Ending draining b b' (_, c, _, _) e = c e
  Keeps-Ending (writing on_drain batch) b b' (_, c, _, _) e = c e
  Keeps-Ending finished b b' (_, c, q, _) (closed, empty) = (c closed, q closed empty)
  Keeps-Ending idle b b' k e = e
  Keeps-Ending selecting b b' k e = e
  Keeps-Ending flushing b b' k e = e
  Keeps-Ending (writing on_wake batch) b b' k e = e
  Keeps-Ending (writing on_tick batch) b b' k e = e

  pub Keeps-Good :
      (config : Config) (p : Phase A) (b b' : Batcher A) (n n' : ℕ) (cs cs' : List Call)
      → Keeps b b'
      → Inv n' (in_flight p + uncounted cs') b'
      → Good config (record { phase = p; batcher = b; offered = n; calls = cs })
      → Good config (record { phase = p; batcher = b'; offered = n'; calls = cs' })
  Keeps-Good config p b b' n n' cs cs' k inv g =
      let (same, _, _, stop) = k in
      record {
        same = same ∙ g.same;
        inv = inv;
        stop_closed = stop g.stop_closed;
        ending = Keeps-Ending p b b' k g.ending;
      }

  -- What a flush leaves alone.
  pub take_batch-flags :
      (b : Batcher A)
      → let b' = (take_batch b).0 in
        (b'.config ≡ b.config) × (b'.closed ≡ b.closed) × (b'.stop ≡ b.stop) × (b'.wake ≡ b.wake)
  unfolding take_batch
  take_batch-flags b = (refl, refl, refl, refl)

  pub write_batch-flags :
      (b : Batcher A) (outcomes : List (Text × Bool)) (batch : List A)
      → let b' = write_batch b outcomes batch in
        (b'.config ≡ b.config)
        × (b'.closed ≡ b.closed)
        × (b'.stop ≡ b.stop)
        × (b'.wake ≡ b.wake)
        × (b'.queue ≡ b.queue)
        × (b'.pending_bytes ≡ b.pending_bytes)
  unfolding write_batch count_flushed
  write_batch-flags b outcomes batch = elim (Bool-cases (length batch == 0)) [
    | inl e ↦ rw e (refl, refl, refl, refl, refl, refl)
    | inr e ↦ rw e (refl, refl, refl, refl, refl, refl)
  ]

  pub finish_drain-flags :
      (b : Batcher A)
      → ((finish_drain b).config ≡ b.config)
        × ((finish_drain b).closed ≡ b.closed)
        × ((finish_drain b).stop ≡ b.stop)
  unfolding finish_drain discard_pending drop_events
  finish_drain-flags b = elim (Bool-cases (ltb 0 (length b.queue))) [
    | inl e ↦ rw e (refl, refl, refl)
    | inr e ↦ rw e (refl, refl, refl)
  ]

  close-flags :
      (b : Batcher A)
      → ((close b).config ≡ b.config) × ((close b).closed ≡ true) × ((close b).queue ≡ b.queue)
  unfolding close
  close-flags b = elim (Bool-cases b.started) [
    | inl e ↦ elim (Bool-cases b.closed) [
      | inl f ↦ rw (e, f) (refl, refl, refl)
      | inr f ↦ rw (e, f) (refl, refl, refl)
    ]
    | inr e ↦ rw e (refl, refl, refl)
  ]

  pub close-Keeps : (b : Batcher A) → Keeps b (close b)
  close-Keeps b =
      let (c, closed, q) = close-flags b in (c, λ h. closed, λ h e. q ∙ e, λ s t. closed)

  pub report-Keeps : (b : Batcher A) (c : Call) → Keeps b (report c b)
  unfolding report drop_events
  report-Keeps b (refused n) = (refl, λ h. h, λ h q. q, λ s. s)
  report-Keeps b (accepted n should_wake) = (refl, λ h. h, λ h q. q, λ s. s)

  pub re_count : {b : Batcher A} {n x y : ℕ} → x ≡ y → Inv n x b → Inv n y b
  re_count {b} {n} e inv = subst (λ z. Inv n z b) e inv

  -- Between the batch's being taken and its being counted, its events are with the sinks.
  pub begun-Good :
      (config : Config) (b : Batcher A) (n : ℕ) (cs : List Call) (r : Round)
      → Good config (record { phase = after r; batcher = b; offered = n; calls = cs })
      → Good config (record {
        phase = writing r (take_batch b).1;
        batcher = (take_batch b).0;
        offered = n;
        calls = cs;
      })
  begun-Good config b n cs r g =
      let (same, closed, stop, _) = take_batch-flags b in
      let idle_before = in_flight-after A r in
      record {
        same = same ∙ g.same;
        inv =
            unfold in_flight in
            re_count (omega (arith, idle_before))
              (take_batch-Inv n (in_flight {A = A} (after r) + uncounted cs) b g.inv);
        stop_closed = λ s. closed ∙ g.stop_closed (sym stop ∙ s);
        ending = ends r g.ending;
      }
    where
      ends : (r : Round) → Ending (after r) b → Ending (writing r (take_batch b).1) (take_batch b).0
      ends on_wake e = unfold Ending in tt
      ends on_tick e = unfold Ending in tt
      ends on_drain e = unfold Ending after take_batch in e

  pub written-Good :
      (config : Config) (b : Batcher A) (n : ℕ) (cs : List Call) (r : Round) (batch : List A)
      (outcomes : List (Text × Bool))
      → Good config (record { phase = writing r batch; batcher = b; offered = n; calls = cs })
      → Good config (record {
        phase = after r;
        batcher = write_batch b outcomes batch;
        offered = n;
        calls = cs;
      })
  written-Good config b n cs r batch outcomes g =
      let (same, closed, stop, _, _, _) = write_batch-flags b outcomes batch in
      let idle_after = in_flight-after A r in
      let inv : Inv n (uncounted cs + length batch) b =
        re_count {x = length batch + uncounted cs} (omega arith) (unfold in_flight in g.inv) in
      record {
        same = same ∙ g.same;
        inv =
            re_count (omega (arith, idle_after))
              (write_batch-Inv n (uncounted cs) b outcomes batch inv);
        stop_closed = λ s. closed ∙ g.stop_closed (sym stop ∙ s);
        ending = ends r closed g.ending;
      }
    where
      ends :
          (r : Round)
          → (write_batch b outcomes batch).closed ≡ b.closed
          → Ending (writing r batch) b
          → Ending (after r) (write_batch b outcomes batch)
      ends on_wake c e = unfold Ending after in tt
      ends on_tick c e = unfold Ending after in tt
      ends on_drain c e = unfold Ending after in c ∙ e
