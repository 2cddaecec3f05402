-- ===== src/Tests/Audit.antt =====
-- A recorder with a queue of two, and a log of three rows (backend/internal/service/audit.go).
use vaultly.Prelude.{
  ℕ, ◌≡◌, ◌≤◌, ◌<◌, refl, none, some, [], ◌∷◌, ◌++◌, codes, length, pos, arith, true, false,
}
use vaultly.Domain.{Error, secret_read, valid, at_least}
use vaultly.Db.{Db, AuditRow}
use vaultly.World.{
  World, Event, Outcome, ok, err, ◌>>=◌, pure, raise, run, on_error, translate_db_error, enqueue,
}
use vaultly.Authz.{require_workspace_role, require_role}
use vaultly.Queries.Roles.{get_workspace_role}
use vaultly.Audit.{Codec, ListAuditLogsParams, feed, list_audit_logs}
use vaultly.Audit.Recorder.{Writer, receive, recording, receiving, Steps, here, next}
use vaultly.Audit.Refines.{Promises, view, Steps-Promises}
use vaultly.Audit.Drain.{IsBounded, Steps-IsBounded, Handed, rounds, rounds-stopped}
use vaultly.Audit.Feed.{AuditFilter, AuditPage, CursorCodec, page_limit, list_audit}
use vaultly.Audit.Pages.{feed_continues, list_audit_bounds}
use vaultly.Tests.World.{start, people, actor}

abbrev codec : Codec
codec = record { marshal = λ m. some (codes "[]"); unmarshal = λ b. none; unmap = λ a. a }

abbrev event : Event
event = record {
  workspace_id = 1;
  actor = actor;
  action = secret_read;
  resource_type = "secret";
  resource_id = some 5;
  metadata = [];
}

abbrev recorder : Writer
recorder = record { world = start people; batch = []; closed = false; stopped = false }

abbrev with_event : Writer
with_event = record recorder {
  world = record recorder.world { audit = enqueue event recorder.world.audit };
}

abbrev working_off : Steps codec 1 recorder (receive codec 1 with_event)
working_off = next (next here (recording recorder event refl)) (receiving with_event refl)

Steps-Promises_example : Promises codec (view recorder) (view (receive codec 1 with_event))
Steps-Promises_example = Steps-Promises codec 1 working_off

Steps-IsBounded_example : IsBounded 1 (receive codec 1 with_event)
Steps-IsBounded_example =
    Steps-IsBounded codec 1 (omega arith) (record { queue = omega arith; batch = omega arith })
      working_off

abbrev shut : Writer
shut = record recorder {
  world = record recorder.world { audit = record recorder.world.audit { events = event ∷ [] } };
  closed = true;
}

rounds-stopped_example :
    ((rounds codec 4 2 shut).stopped ≡ true)
    × ((rounds codec 4 2 shut).world.audit.events ≡ [])
    × Handed codec 4 (event ∷ []) shut.world (rounds codec 4 2 shut).world
rounds-stopped_example = rounds-stopped codec 4 shut refl

abbrev row : ℕ → ℕ → AuditRow
row id t = record {
  id = id;
  workspace_id = 1;
  actor_user_id = some 1;
  actor_token_id = none;
  action = codes "secret.read";
  resource_type = codes "secret";
  resource_id = some 5;
  metadata = codes "{}";
  ip_address = none;
  user_agent = [];
  created_at = t;
}

abbrev logged : Db
logged = record people { audit_logs = row 1 10 ∷ row 2 20 ∷ row 3 20 ∷ [] }

abbrev whole : ListAuditLogsParams
whole = record {
  workspace_id = 1;
  limit = 51;
  action = none;
  actor_user_id = none;
  resource_type = none;
  resource_id = none;
  before_created_at = none;
  before_id = none;
}

feed_continues_example :
    feed
      (record whole { before_created_at = some 20; before_id = some 2 })
      (record logged { audit_logs = logged.audit_logs ++ row 4 30 ∷ [] })
    ≡ row 1 10 ∷ []
unfolding feed
feed_continues_example =
    feed_continues whole logged (row 3 20 ∷ []) (row 1 10 ∷ []) (row 4 30 ∷ []) (row 2 20)
      (omega arith) refl (refl, tt)

abbrev cursors : CursorCodec
cursors = record {
  marshal = λ t i. some (t ∷ i ∷ []);
  unmarshal = λ b. elim b [ [] ↦ none | t ∷ r ↦ elim r [ [] ↦ none | i ∷ q ↦ some (t, i) ] ];
  base64_encode = λ b. b'x' ∷ b;
  base64_decode = λ s. elim s [ [] ↦ none | c ∷ r ↦ some r ];
}

abbrev any_filter : AuditFilter
any_filter = record {
  action = [];
  actor_user_id = none;
  resource_type = [];
  resource_id = none;
  before_created_at = none;
  before_id = none;
  limit = pos 2;
}

abbrev shown : World → Outcome Error AuditPage
unfolding list_audit require_workspace_role require_role valid at_least get_workspace_role
    list_audit_logs run on_error translate_db_error ◌>>=◌ pure raise
shown w = (list_audit codec cursors 2 1 any_filter w).0

abbrev page_or : AuditPage → Outcome Error AuditPage → AuditPage
page_or p (ok q) = q
page_or p (err e) = p

abbrev page : AuditPage
page = page_or (record { entries = []; next_cursor = [] }) (shown (start logged))

list_audit_bounds_example :
    (length page.entries ≤ page_limit (pos 2))
    × (0 < page_limit (pos 2))
    × (page_limit (pos 2) ≤ 200)
    × ((list_audit codec cursors 2 1 any_filter (start logged)).1.db ≡ logged)
unfolding list_audit require_workspace_role require_role valid at_least get_workspace_role
    list_audit_logs run on_error translate_db_error ◌>>=◌ pure raise
list_audit_bounds_example = list_audit_bounds codec cursors 2 1 any_filter (start logged) page refl
