-- ===== src/Audit/Drain.antt =====
-- The bounds of the recorder's two buffers, and the end of its writer after `Close`
-- (backend/internal/service/audit.go).
use vaultly.Prelude.{
  ℕ, zero, suc, ◌≡◌, refl, sym, ap, subst, ◌∙◌, true, List, [], ◌∷◌, ◌++◌, length, ltb, leb, ◌<◌,
  ◌≤◌, Bool-cases, inl, inr, length-append, arith,
}
use mathlib.Core.List.{append_assoc}
use vaultly.World.{World, Event, Recorder, enqueue}
use vaultly.Audit.Defs.{Codec}
use vaultly.Audit.Recorder.{
  flush, Writer, take_event, take_from, receive, tick, Step, recording, closing, receiving, ticking,
  working, Steps, here, next,
}
use vaultly.Audit.Queue.{flush-audit}

-- The queue within its capacity, and the batch below the size at which it is flushed.
pub record IsBounded (n : ℕ) (s : Writer) : Type 0 where
  pub queue : length s.world.audit.events ≤ s.world.audit.capacity
  pub batch : length s.batch < n

module _ (c : Codec) (n : ℕ) where
  -- A flush, which empties the batch, and leaves the queue.
  flushed-IsBounded :
      (b : List Event) (w : World) (s : Writer)
      → 0 < n
      → length w.audit.events ≤ w.audit.capacity
      → s.batch ≡ []
      → s.world ≡ flush c b w
      → IsBounded n s
  flushed-IsBounded b w s pos_ h empty same = record {
    queue =
        subst (λ (r : Recorder). length r.events ≤ r.capacity)
          (sym (ap (λ w. w.audit) same ∙ flush-audit c b w)) h;
    batch = subst (λ l. length l < n) (sym empty) pos_;
  }

  take_event-IsBounded :
      (e : Event) (rest : List Event) (s : Writer)
      → 0 < n
      → suc (length rest) ≤ s.world.audit.capacity
      → IsBounded n (take_event c n e rest s)
  take_event-IsBounded e rest s pos_ h = elim (Bool-cases (leb n (length (s.batch ++ e ∷ [])))) [
    | inl full ↦ rw full (
        flushed-IsBounded (s.batch ++ e ∷ [])
          (record s.world { audit = record s.world.audit { events = rest } }) _ pos_ (omega arith)
          refl refl)
    | inr space ↦ rw space (record { queue = omega arith; batch = ground arith })
  ]

  take_from-IsBounded :
      (q : List Event) (s : Writer)
      → 0 < n
      → s.world.audit.events ≡ q
      → IsBounded n s
      → IsBounded n (take_from c n q s)
  take_from-IsBounded [] s pos_ h b = elim (Bool-cases s.closed) [
    | inl shut ↦ rw shut (record {
      queue =
          subst (λ (r : Recorder). length r.events ≤ r.capacity)
            (sym (flush-audit c s.batch s.world)) b.queue;
      batch = b.batch;
    })
    | inr open_ ↦ rw open_ (record { queue = b.queue; batch = b.batch })
  ]
  take_from-IsBounded (e ∷ rest) s pos_ h b =
      take_event-IsBounded e rest s pos_ (subst (λ q. length q ≤ s.world.audit.capacity) h b.queue)

  tick-IsBounded : (s : Writer) → 0 < n → IsBounded n s → IsBounded n (tick c n s)
  unfolding tick
  tick-IsBounded s pos_ b = elim (Bool-cases (ltb 0 (length s.batch))) [
    | inl some_ ↦ rw (some_, tick) (flushed-IsBounded s.batch s.world _ pos_ b.queue refl refl)
    | inr none_ ↦ rw (none_, tick) b
  ]

  enqueue_bounds :
      (e : Event) (r : Recorder)
      → length r.events ≤ r.capacity
      → length (enqueue e r).events ≤ (enqueue e r).capacity
  unfolding enqueue
  enqueue_bounds e r h = elim (Bool-cases (ltb (length r.events) r.capacity)) [
    | inl room ↦ rw (room, enqueue) (ground (arith, length-append r.events (e ∷ [])))
    | inr full ↦ rw (full, enqueue) h
  ]

  Step-IsBounded : {s t : Writer} → 0 < n → Step c n s t → IsBounded n s → IsBounded n t
  unfolding receive
  Step-IsBounded pos_ (recording s e open_) b = record {
    queue = enqueue_bounds e s.world.audit b.queue;
    batch = b.batch;
  }
  Step-IsBounded pos_ (closing s) b = record { queue = b.queue; batch = b.batch }
  Step-IsBounded pos_ (receiving s live) b = take_from-IsBounded s.world.audit.events s pos_ refl b
  Step-IsBounded pos_ (ticking s live) b = tick-IsBounded s pos_ b
  Step-IsBounded pos_ (working s w queue log) b = record {
    queue = subst (λ (r : Recorder). length r.events ≤ r.capacity) (sym queue) b.queue;
    batch = b.batch;
  }

  -- From buffers within their bounds, and for a positive flush size, no step leaves them: the queue
  -- holds at most its capacity, and the batch fewer events than a flush takes.
  pub Steps-IsBounded : {s t : Writer} → 0 < n → IsBounded n s → Steps c n s t → IsBounded n t
  Steps-IsBounded pos_ b here = b
  Steps-IsBounded pos_ b (next run step) = Step-IsBounded pos_ step (Steps-IsBounded pos_ b run)

  -- Rounds of the writer on its channel.
  abbrev pub rounds : ℕ → Writer → Writer
  rounds zero s = s
  rounds (suc k) s = rounds k (receive c n s)

  -- From one world to another, the events of the list are taken from the queue and handed to `flush`,
  -- each to one flush and in their order, and the writer does nothing else.
  pub data Handed : List Event → World → World → Type 0 where
    done : (w : World) → Handed [] w w
    taken :
        (es q : List Event) (w v : World)
        → Handed es (record w { audit = record w.audit { events = q } }) v
        → Handed es w v
    written :
        (batch es : List Event) (w v : World)
        → Handed es (flush c batch w) v
        → Handed (batch ++ es) w v

  take_event-queue :
      (e : Event) (rest : List Event) (s : Writer)
      → ((take_event c n e rest s).world.audit.events ≡ rest)
        × ((take_event c n e rest s).closed ≡ s.closed)
  take_event-queue e rest s = elim (Bool-cases (leb n (length (s.batch ++ e ∷ [])))) [
    | inl full ↦ rw full (ap (λ (r : Recorder). r.events) (flush-audit c _ _), refl)
    | inr space ↦ rw space (refl, refl)
  ]

  take_event-Handed :
      (e : Event) (rest : List Event) (s : Writer) (v : World)
      → Handed ((take_event c n e rest s).batch ++ rest) (take_event c n e rest s).world v
      → Handed (s.batch ++ (e ∷ rest)) s.world v
  take_event-Handed e rest s v =
      subst
        (λ es.
          Handed ((take_event c n e rest s).batch ++ rest) (take_event c n e rest s).world v
          → Handed es s.world v)
        (append_assoc s.batch (e ∷ []) rest)
        (elim (Bool-cases (leb n (length (s.batch ++ e ∷ [])))) [
          | inl full ↦
              rw full (λ h. taken _ rest s.world v (written (s.batch ++ e ∷ []) rest _ v h))
          | inr space ↦ rw space (λ h. taken _ rest s.world v h)
        ])

  -- What the rounds from one state to another have done to the events of a list.
  abbrev IsDrained : List Event → World → Writer → Type 0
  IsDrained es w t = (t.stopped ≡ true) × (t.world.audit.events ≡ []) × Handed es w t.world

  last-IsDrained :
      (s : Writer)
      → s.closed ≡ true
      → s.world.audit.events ≡ []
      → IsDrained (s.batch ++ []) s.world (take_from c n [] s)
  last-IsDrained s shut h = rw shut (
    refl,
    ap (λ (r : Recorder). r.events) (flush-audit c s.batch s.world) ∙ h,
    written s.batch [] s.world _ (done _),
  )

  -- A queue of any length is worked off, and the writer stops.
  drained :
      (q : List Event) (s : Writer)
      → s.closed ≡ true
      → s.world.audit.events ≡ q
      → IsDrained (s.batch ++ q) s.world (rounds (suc (length q)) s)
  unfolding receive
  drained [] s shut h =
      subst (λ q. IsDrained (s.batch ++ []) s.world (take_from c n q s)) (sym h)
        (last-IsDrained s shut h)
  drained (e ∷ rest) s shut h =
      let (queue, same) = take_event-queue e rest s in
      let (stops, empty, handed) = drained rest (take_event c n e rest s) (same ∙ shut) queue in
      subst
        (λ q.
          IsDrained (s.batch ++ (e ∷ rest)) s.world
            (rounds (suc (length rest)) (take_from c n q s)))
        (sym h) (stops, empty, take_event-Handed e rest s _ handed)

  -- After `Close`, as many rounds as events wait, and one more, stop the writer with nothing left in
  -- the queue, and every event that was in the batch or in the queue has been handed to exactly one
  -- flush, in the order in which they came.
  pub rounds-stopped :
      (s : Writer)
      → s.closed ≡ true
      → ((rounds (suc (length s.world.audit.events)) s).stopped ≡ true)
        × ((rounds (suc (length s.world.audit.events)) s).world.audit.events ≡ [])
        × Handed
            (s.batch ++ s.world.audit.events)
            s.world
            (rounds (suc (length s.world.audit.events)) s).world
  rounds-stopped s shut = drained s.world.audit.events s shut refl
