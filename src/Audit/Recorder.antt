-- ===== src/Audit/Recorder.antt =====
-- The recorder's queue and its background writer (backend/internal/service/audit.go). What other
-- goroutines do between two rounds of the writer is a step of its own.
use vaultly.Prelude.{
  ℕ, ◌≡◌, Bool, true, false, none, some, List, [], ◌∷◌, ◌++◌, length, ltb, leb, ℤ, pos, is_positive,
  if◌then◌else◌,
}
use vaultly.Domain.{Error}
use vaultly.World.{World, Svc, Event, pure, ◌>>◌, run, on_error, in_tx, enqueue}
use vaultly.Audit.Defs.{Codec, audit_params, create_audit_log}

pub record AuditConfig : Type 0 where
  pub queue_size : ℤ
  pub flush_size : ℤ
  pub flush_interval : ℤ

abbrev or_else : ℤ → ℕ → ℤ
or_else z n = if is_positive z then z else pos n

-- `withDefaults`, the interval in nanoseconds.
unfoldable pub with_defaults : AuditConfig → AuditConfig
with_defaults c = record {
  queue_size = or_else c.queue_size 1024;
  flush_size = or_else c.flush_size 64;
  flush_interval = or_else c.flush_interval 1000000000;
}

-- The rounds of the loop in `flush`: an event that cannot be encoded is skipped.
unfoldable pub write_all : Codec → List Event → Svc (Unit {0})
write_all c [] = pure tt
write_all c (e ∷ es) = elim (audit_params c e) [
  | none ↦ write_all c es
  | some p ↦ on_error (λ _. Error.internal) (run (create_audit_log p)) >> write_all c es
]

-- `flush`: an error of the transaction is only logged.
unfoldable pub flush : Codec → List Event → World → World
flush c [] w = w
flush c (e ∷ es) w = (in_tx (write_all c (e ∷ es)) w).1

-- The recorder: its queue is the world's, `batch` is the writer's own.
pub record Writer : Type 0 where
  pub world : World
  pub batch : List Event
  pub closed : Bool
  pub stopped : Bool

module _ (c : Codec) (flush_size : ℕ) where
  abbrev pub take_event : Event → List Event → Writer → Writer
  take_event e rest s =
      let w = record s.world { audit = record s.world.audit { events = rest } } in
      if leb flush_size (length (s.batch ++ e ∷ []))
      then record s { world = flush c (s.batch ++ e ∷ []) w; batch = [] }
      else record s { world = w; batch = s.batch ++ e ∷ [] }

  abbrev pub take_from : List Event → Writer → Writer
  take_from [] s =
      if s.closed then record s { world = flush c s.batch s.world; stopped = true } else s
  take_from (e ∷ rest) s = take_event e rest s

  -- The branch of `run` on the channel; on an open channel that is empty it waits.
  unfoldable pub receive : Writer → Writer
  receive s = take_from s.world.audit.events s

  -- The branch of `run` on the ticker.
  unfoldable pub tick : Writer → Writer
  tick s =
      if ltb 0 (length s.batch) then record s { world = flush c s.batch s.world; batch = [] } else s

  -- One step of the process: a caller of `Record` or `Close`, a round of `run`, or other work that
  -- touches neither the queue nor the log.
  pub data Step : Writer → Writer → Type 0 where
    recording :
        (s : Writer) (e : Event)
        → s.closed ≡ false
        → Step s (record s { world = record s.world { audit = enqueue e s.world.audit } })
    closing : (s : Writer) → Step s (record s { closed = true })
    receiving : (s : Writer) → s.stopped ≡ false → Step s (receive s)
    ticking : (s : Writer) → s.stopped ≡ false → Step s (tick s)
    working :
        (s : Writer) (w : World)
        → w.audit ≡ s.world.audit
        → w.db.audit_logs ≡ s.world.db.audit_logs
        → Step s (record s { world = w })

  pub data Steps (s : Writer) : Writer → Type 0 where
    here : Steps s s
    next : {t u : Writer} → Steps s t → Step t u → Steps s u
