-- ===== src/Audit/Refines.antt =====
-- The recorder against an abstract log (backend/internal/service/audit.go): the events that wait, and
-- what is written.
use vaultly.Prelude.{
  ℕ, Bool, ◌≡◌, true, false, refl, sym, ap, subst, ◌∙◌, List, [], ◌∷◌, map, ◌++◌, length, ltb, leb,
  inl, inr, Bool-cases,
}
use mathlib.Core.List.{append_assoc}
use vaultly.World.{World, Event, Recorder, enqueue}
use vaultly.Audit.Defs.{Codec, CreateAuditLogParams}
use vaultly.Audit.Recorder.{
  flush, Writer, take_event, take_from, receive, tick, Step, recording, closing, receiving, ticking,
  working, Steps, here, next,
}
use vaultly.Audit.Queue.{params_of, written, rows_of, flush-written, flush-audit}

pub record AuditLog : Type 0 where
  pub pending : List Event
  pub log : List CreateAuditLogParams

-- What the log promises: events wait in the order in which they came; from the front they are
-- written, or lost; and nothing else ever happens to either list.
pub data Promise (c : Codec) : AuditLog → AuditLog → Type 0 where
  idle : (a : AuditLog) → Promise c a a
  accept : (a : AuditLog) (e : Event) → Promise c a (record a { pending = a.pending ++ e ∷ [] })
  commit :
      (batch rest : List Event) (log : List CreateAuditLogParams)
      → Promise c
          (record { pending = batch ++ rest; log = log })
          (record { pending = rest; log = log ++ rows_of c batch })
  lose :
      (batch rest : List Event) (log : List CreateAuditLogParams)
      → Promise c
          (record { pending = batch ++ rest; log = log })
          (record { pending = rest; log = log })

pub data Promises (c : Codec) (a : AuditLog) : AuditLog → Type 0 where
  kept : Promises c a a
  more : {b d : AuditLog} → Promises c a b → Promise c b d → Promises c a d

-- What the writer holds: its batch, until it has returned.
abbrev pub unless_stopped : Bool → List Event → List Event
unless_stopped true batch = []
unless_stopped false batch = batch

abbrev pub held : Writer → List Event
held s = unless_stopped s.stopped s.batch

-- The abstract log of a recorder.
abbrev pub view : Writer → AuditLog
view s = record { pending = held s ++ s.world.audit.events; log = written s.world.db }

-- The same of a writer that runs.
abbrev whole : Writer → AuditLog
whole s = record { pending = s.batch ++ s.world.audit.events; log = written s.world.db }

view-live : (s : Writer) → s.stopped ≡ false → view s ≡ whole s
view-live s live =
    ap
      (λ b. record {
        pending = unless_stopped b s.batch ++ s.world.audit.events;
        log = written s.world.db;
      })
      live

module _ (c : Codec) (n : ℕ) where
  -- A flush of the front of what waits.
  flush-Promise :
      (batch rest : List Event) (w : World)
      → Promise c
          (record { pending = batch ++ rest; log = written w.db })
          (record { pending = rest; log = written (flush c batch w).db })
  flush-Promise batch rest w = elim (flush-written c batch w) [
    | inl all ↦
        subst
          (λ log.
            Promise c (record { pending = batch ++ rest; log = written w.db })
              (record { pending = rest; log = log }))
          (sym all) (commit batch rest (written w.db))
    | inr nothing ↦
        subst
          (λ log.
            Promise c (record { pending = batch ++ rest; log = written w.db })
              (record { pending = rest; log = log }))
          (sym nothing) (lose batch rest (written w.db))
  ]

  abbrev Kept : Writer → Writer → Type 0
  Kept s t = Promise c (whole s) (whole t)

  -- A round that flushes `batch` and leaves `rest` in the queue.
  round :
      (batch rest : List Event) (w : World) (a : AuditLog)
      → a ≡ record { pending = batch ++ rest; log = written w.db }
      → w.audit.events ≡ rest
      → Promise c a
          (record { pending = (flush c batch w).audit.events; log = written (flush c batch w).db })
  round batch rest w a same queue =
      subst
        (λ a.
          Promise c a (record {
            pending = (flush c batch w).audit.events;
            log = written (flush c batch w).db;
          }))
        (sym same)
        (subst
          (λ q.
            Promise c (record { pending = batch ++ rest; log = written w.db })
              (record { pending = q; log = written (flush c batch w).db }))
          (sym (ap (λ (r : Recorder). r.events) (flush-audit c batch w) ∙ queue))
          (flush-Promise batch rest w))

  -- The event at the front of the queue moves to the end of the batch.
  moved :
      (e : Event) (rest : List Event) (s : Writer)
      → s.world.audit.events ≡ e ∷ rest
      → whole s ≡ record { pending = (s.batch ++ e ∷ []) ++ rest; log = written s.world.db }
  moved e rest s h =
      ap (λ p. record { pending = p; log = written s.world.db })
        (ap (λ q. s.batch ++ q) h ∙ sym (append_assoc s.batch (e ∷ []) rest))

  take_event-Promise :
      (e : Event) (rest : List Event) (s : Writer)
      → s.world.audit.events ≡ e ∷ rest
      → Kept s (take_event c n e rest s)
  take_event-Promise e rest s h = elim (Bool-cases (leb n (length (s.batch ++ e ∷ [])))) [
    | inl full ↦ rw full (round (s.batch ++ e ∷ []) rest _ (whole s) (moved e rest s h) refl)
    | inr space ↦ rw space (subst (λ a. Promise c (whole s) a) (moved e rest s h) (idle (whole s)))
  ]

  last-Promise :
      (s : Writer)
      → s.stopped ≡ false
      → s.world.audit.events ≡ []
      → Promise c (view s) (view (take_from c n [] s))
  last-Promise s live h = elim (Bool-cases s.closed) [
    | inl shut ↦ rw shut (
        round s.batch [] s.world (view s)
          (view-live s live
            ∙ ap (λ q. record { pending = s.batch ++ q; log = written s.world.db }) h)
          h)
    | inr open_ ↦ rw open_ (idle (view s))
  ]

  -- A step of a writer that runs on.
  running :
      (s t : Writer)
      → s.stopped ≡ false
      → t.stopped ≡ s.stopped
      → Kept s t
      → Promise c (view s) (view t)
  running s t live same k =
      subst (λ b. Promise c (view s) b) (sym (view-live t (same ∙ live)))
        (subst (λ a. Promise c a (whole t)) (sym (view-live s live)) k)

  take_event-stopped :
      (e : Event) (rest : List Event) (s : Writer) → (take_event c n e rest s).stopped ≡ s.stopped
  take_event-stopped e rest s = elim (Bool-cases (leb n (length (s.batch ++ e ∷ [])))) [
    | inl full ↦ rw full refl
    | inr space ↦ rw space refl
  ]

  tick-stopped : (s : Writer) → (tick c n s).stopped ≡ s.stopped
  unfolding tick
  tick-stopped s = elim (Bool-cases (ltb 0 (length s.batch))) [
    | inl some_ ↦ rw (some_, tick) refl
    | inr none_ ↦ rw (none_, tick) refl
  ]

  take_from-Promise :
      (q : List Event) (s : Writer)
      → s.stopped ≡ false
      → s.world.audit.events ≡ q
      → Promise c (view s) (view (take_from c n q s))
  take_from-Promise [] s live h = last-Promise s live h
  take_from-Promise (e ∷ rest) s live h =
      running s (take_event c n e rest s) live (take_event-stopped e rest s)
        (take_event-Promise e rest s h)

  tick-Promise : (s : Writer) → Kept s (tick c n s)
  unfolding tick
  tick-Promise s = elim (Bool-cases (ltb 0 (length s.batch))) [
    | inl some_ ↦ rw (some_, tick) (round s.batch s.world.audit.events s.world (whole s) refl refl)
    | inr none_ ↦ rw (none_, tick) (idle (whole s))
  ]

  recording-Promise :
      (s : Writer) (e : Event)
      → Promise c
          (view s)
          (view (record s { world = record s.world { audit = enqueue e s.world.audit } }))
  unfolding enqueue
  recording-Promise s e =
      elim (Bool-cases (ltb (length s.world.audit.events) s.world.audit.capacity)) [
        | inl room ↦
            rw (room, enqueue)
              (subst (λ p. Promise c (view s) (record { pending = p; log = written s.world.db }))
                (append_assoc (held s) s.world.audit.events (e ∷ [])) (accept (view s) e))
        | inr full ↦ rw (full, enqueue) (idle (view s))
      ]

  unmoved :
      (s : Writer) (w : World)
      → w.audit ≡ s.world.audit
      → w.db.audit_logs ≡ s.world.db.audit_logs
      → view s ≡ view (record s { world = w })
  unmoved s w queue log =
      λ i. record { pending = held s ++ (sym queue i).events; log = map params_of (sym log i) }

  -- Each step of the process, of the writer, of the callers or of other goroutines, is one that the
  -- abstract log promises.
  pub Step-Promise : {s t : Writer} → Step c n s t → Promise c (view s) (view t)
  unfolding receive
  Step-Promise (recording s e open_) = recording-Promise s e
  Step-Promise (closing s) = idle (view s)
  Step-Promise (receiving s live) = take_from-Promise s.world.audit.events s live refl
  Step-Promise (ticking s live) = running s (tick c n s) live (tick-stopped s) (tick-Promise s)
  Step-Promise (working s w queue log) =
      subst (λ a. Promise c (view s) a) (unmoved s w queue log) (idle (view s))

  -- Every run of the recorder is a run of the abstract log.
  pub Steps-Promises : {s t : Writer} → Steps c n s t → Promises c (view s) (view t)
  Steps-Promises here = kept
  Steps-Promises (next run step) = more (Steps-Promises run) (Step-Promise step)
