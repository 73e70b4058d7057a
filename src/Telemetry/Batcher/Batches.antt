-- ===== src/Telemetry/Batcher/Batches.antt =====
-- What one batch takes from the queue, and what `Enqueue` does to it.
use ti_cli.Common.{
  ℕ, suc, ◌+◌, ◌≤◌, ◌<◌, not, ◌&&◌, List, [], ◌∷◌, ◌++◌, map, ltb, leb, if◌then◌else◌, length, ◌≡◌,
  ◌⊎◌, inl, refl, ap, arith,
}
use ti_cli.Telemetry.Batcher.{
  Config, QueuedEvent, Batcher, sum_bytes, queued, enqueue, lock_enqueue, append_events, report,
  drop_events, cut, take_batch,
}

module _ {A : Type 0} where
  pub cut-append :
      (config : Config) (count bytes : ℕ) (qs : List (QueuedEvent A))
      → (cut config count bytes qs).taken ++ (cut config count bytes qs).rest ≡ qs
  unfolding cut
  cut-append config count bytes [] = refl
  cut-append config count bytes (q ∷ qs) =
      ground (arith, cut-append config (count + 1) (bytes + q.bytes) qs)

  cut_count :
      (config : Config) (count bytes : ℕ) (qs : List (QueuedEvent A))
      → count ≤ config.flush_max_events
      → count + length (cut config count bytes qs).taken ≤ config.flush_max_events
  unfolding cut
  cut_count config count bytes [] h = omega arith
  cut_count config count bytes (q ∷ qs) h =
      ground (arith, cut_count config (count + 1) (bytes + q.bytes) qs)

  cut_bytes :
      (config : Config) (count bytes : ℕ) (qs : List (QueuedEvent A))
      → 0 < count
      → bytes ≤ config.flush_max_bytes
      → bytes + sum_bytes (cut config count bytes qs).taken ≤ config.flush_max_bytes
  unfolding cut sum_bytes
  cut_bytes config count bytes [] h k = omega arith
  cut_bytes config count bytes (q ∷ qs) h k =
      ground (arith, cut_bytes config (count + 1) (bytes + q.bytes) qs)

  -- Past the byte limit no further event is taken.
  cut_full :
      (config : Config) (count bytes : ℕ) (qs : List (QueuedEvent A))
      → 0 < count
      → config.flush_max_bytes < bytes
      → (cut config count bytes qs).taken ≡ []
  unfolding cut
  cut_full config count bytes [] h k = refl
  cut_full config count bytes (q ∷ qs) h k = ground arith

  cut_first_bytes :
      (config : Config) (qs : List (QueuedEvent A))
      → (length (cut config 0 0 qs).taken ≤ 1)
        ⊎ (sum_bytes (cut config 0 0 qs).taken ≤ config.flush_max_bytes)
  unfolding cut sum_bytes
  cut_first_bytes config [] = inl (omega arith)
  cut_first_bytes config (q ∷ qs) =
      ground (arith, cut_bytes config 1 q.bytes qs, cut_full config 1 q.bytes qs)

  pub cut_progress :
      (config : Config) (q : QueuedEvent A) (qs : List (QueuedEvent A))
      → 0 < config.flush_max_events
      → 0 < length (cut config 0 0 (q ∷ qs)).taken
  unfolding cut
  cut_progress config q qs h = ground arith

  pub sum_bytes-append :
      (xs ys : List (QueuedEvent A)) → sum_bytes (xs ++ ys) ≡ sum_bytes xs + sum_bytes ys
  unfolding sum_bytes
  sum_bytes-append [] ys = omega arith
  sum_bytes-append (x ∷ xs) ys = omega (arith, sum_bytes-append xs ys)

  -- A batch is the front of the queue, which keeps the rest; it has at most the configured number
  -- of events, and more bytes than configured only if it is a single event.
  pub take_batch_lem :
      (b : Batcher A)
      → let c = cut b.config 0 0 b.queue in
        ((take_batch b).1 ≡ map (λ q. q.event) c.taken)
        × (c.taken ++ (take_batch b).0.queue ≡ b.queue)
        × (length c.taken ≤ b.config.flush_max_events)
        × ((length c.taken ≤ 1) ⊎ (sum_bytes c.taken ≤ b.config.flush_max_bytes))
  unfolding take_batch
  take_batch_lem b = (
    refl,
    cut-append b.config 0 0 b.queue,
    omega (arith, cut_count b.config 0 0 b.queue (omega arith)),
    cut_first_bytes b.config b.queue,
  )

module _ {A : Type 0} (size : A → ℕ) where
  pub length-map-queued : (es : List A) → length (map (queued size) es) ≡ length es
  length-map-queued [] = refl
  length-map-queued (e ∷ es) = ap suc (length-map-queued es)

  -- All events of a request are queued in order, or none is.
  pub enqueue_atomic :
      (b : Batcher A) (es : List A)
      → let (b', accepted) = enqueue size b es in
        b'.queue ≡ (if accepted then b.queue ++ map (queued size) es else b.queue)
  unfolding enqueue lock_enqueue report drop_events append_events
  enqueue_atomic b [] = refl
  enqueue_atomic b (e ∷ es) = ground arith

  -- A request is accepted exactly if it has an event, the batcher is open and the queue has room.
  pub enqueue_accepts :
      (b : Batcher A) (es : List A)
      → (enqueue size b es).1 ≡ (
          ltb 0 (length es)
          && (not b.closed && leb (length b.queue + length es) b.config.buffer_max_events))
  unfolding enqueue lock_enqueue
  enqueue_accepts b [] = refl
  enqueue_accepts b (e ∷ es) = ground arith
