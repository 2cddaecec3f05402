-- ===== src/Audit/Queue.antt =====
-- What a flush leaves behind: the queue as it was, and in the log all of the batch or nothing
-- (backend/internal/service/audit.go).
use vaultly.Prelude.{
  ◌≡◌, refl, sym, ap, subst, ◌∙◌, Option, none, some, List, [], ◌∷◌, ◌++◌, map, ◌⊎◌, inl, inr,
  Bool-cases, Option-cases, any, ◌&&◌, ◌==◌,
}
use mathlib.Core.List.{append_assoc, append-nil, map-append}
use vaultly.Domain.{Error}
use vaultly.Db.{Db, AuditRow, UserRow, TokenRow}
use vaultly.World.{
  Outcome, ok, err, World, Svc, Stmt, Stamp, DbError, Event, pure, continue, ◌>>=◌, run, land,
  stamp, advance, on_error, in_tx, finish,
}
use vaultly.World.Returns.{query-eq-ok, in_tx-eq-ok}
use vaultly.World.Atomic.{Atomic-in_tx}
use vaultly.Audit.Defs.{
  Codec, CreateAuditLogParams, audit_params, create_audit_log, new_audit_row, both, refers,
}
use vaultly.Audit.Recorder.{write_all, flush}

-- A call that leaves the queue alone.
record KeepsQueue {A : Type 0} (m : Svc A) : Type 0 where
  at : (w : World) → (m w).1.audit ≡ w.audit

land-audit : {A : Type 0} (r : Outcome DbError (A × Db)) (w : World) → (land w r).1.audit ≡ w.audit
land-audit (ok (a, d)) w = refl
land-audit (err e) w = refl

KeepsQueue-run : {A : Type 0} (g : DbError → Error) (q : Stmt A) → KeepsQueue (on_error g (run q))
unfolding on_error run
KeepsQueue-run g q = record {
  at = λ w. elim (Bool-cases (w.env.fails w.tick)) [
    | inl down ↦ rw (down, run) refl
    | inr up ↦ rw (up, run) (land-audit (q (stamp w) w.db) (advance w))
  ];
}

continue-audit :
    {A B : Type 0} (r : Outcome Error A) (f : A → Svc B) (w : World)
    → ((a : A) → KeepsQueue (f a))
    → (continue r f w).1.audit ≡ w.audit
continue-audit (ok a) f w k = (k a).at w
continue-audit (err e) f w k = refl

KeepsQueue-bind :
    {A B : Type 0} (m : Svc A) (f : A → Svc B)
    → KeepsQueue m
    → ((a : A) → KeepsQueue (f a))
    → KeepsQueue (m >>= f)
unfolding ◌>>=◌
KeepsQueue-bind m f p k = record { at = λ w. continue-audit (m w).0 f (m w).1 k ∙ p.at w }

finish-audit :
    {A : Type 0} (before : Db) (r : Outcome Error A) (w : World)
    → (finish before r w).1.audit ≡ w.audit
finish-audit before (err e) w = refl
finish-audit before (ok a) w = elim (Bool-cases (w.env.fails w.tick)) [
  | inl down ↦ rw down refl
  | inr up ↦ rw up refl
]

KeepsQueue-in_tx : {A : Type 0} (m : Svc A) → KeepsQueue m → KeepsQueue (in_tx m)
unfolding in_tx
KeepsQueue-in_tx m p = record {
  at = λ w. elim (Bool-cases (w.env.fails w.tick)) [
    | inl down ↦ rw (down, in_tx) refl
    | inr up ↦
        rw (up, in_tx) (finish-audit w.db (m (advance w)).0 (m (advance w)).1 ∙ p.at (advance w))
  ];
}

-- What a row holds of the event that it was made from.
abbrev pub params_of : AuditRow → CreateAuditLogParams
params_of r = record {
  workspace_id = r.workspace_id;
  action = r.action;
  resource_type = r.resource_type;
  metadata = r.metadata;
  user_agent = r.user_agent;
  actor_user_id = r.actor_user_id;
  actor_token_id = r.actor_token_id;
  resource_id = r.resource_id;
  ip_address = r.ip_address;
}

-- The log, without the identifiers and the times that the database adds.
abbrev pub written : Db → List CreateAuditLogParams
written d = map params_of d.audit_logs

abbrev pub with_params :
    Option CreateAuditLogParams → List CreateAuditLogParams → List CreateAuditLogParams
with_params none ps = ps
with_params (some p) ps = p ∷ ps

-- What a batch of events puts into the log.
abbrev pub rows_of : Codec → List Event → List CreateAuditLogParams
rows_of c [] = []
rows_of c (e ∷ es) = with_params (audit_params c e) (rows_of c es)

after_insert :
    {A E : Type 0} {a b : A} {d d' : Db}
    → Path (Outcome E (A × Db)) (ok (a, d)) (ok (b, d'))
    → d ≡ d'
after_insert h = cc

create_audit_log-eq-ok :
    (p : CreateAuditLogParams) (st : Stamp) (d d' : Db) {u : Unit {0}}
    → create_audit_log p st d ≡ ok (u, d')
    → written d' ≡ written d ++ p ∷ []
unfolding create_audit_log
create_audit_log-eq-ok p st d d' h = elim (Bool-cases (both p.actor_user_id p.actor_token_id)) [
  | inl two ↦ cc (rw (two, create_audit_log) at h)
  | inr one ↦ elim (Bool-cases (any (λ r. r.id == st.uuid) d.audit_logs)) [
    | inl taken ↦ cc (rw (one, taken, create_audit_log) at h)
    | inr free ↦
        let tests =
          any (λ w. w.id == p.workspace_id) d.workspaces
          && refers (λ id (u : UserRow). u.id == id) p.actor_user_id d.users
          && refers (λ id (t : TokenRow). t.id == id) p.actor_token_id d.tokens in
        elim (Bool-cases tests) [
          | inl there ↦
              let e : record d { audit_logs = d.audit_logs ++ new_audit_row p st ∷ [] } ≡ d' =
                after_insert (rw (one, free, there, create_audit_log) at h) in
              subst (λ d'. written d' ≡ written d ++ p ∷ []) e
                (map-append params_of d.audit_logs (new_audit_row p st ∷ []))
          | inr gone ↦ cc (rw (one, free, gone, create_audit_log) at h)
        ]
  ]
]

module _ (c : Codec) where
  write_one-KeepsQueue :
      (e : Event) (es : List Event)
      → KeepsQueue (write_all c es)
      → KeepsQueue (write_all c (e ∷ es))
  unfolding write_all
  write_one-KeepsQueue e es k = elim (Option-cases (audit_params c e)) [
    | inl skipped ↦ rw (skipped, write_all) k
    | inr (p, made) ↦ rw (made, write_all) (KeepsQueue-bind _ _ (KeepsQueue-run _ _) (λ _. k))
  ]

  write_all-KeepsQueue : (es : List Event) → KeepsQueue (write_all c es)
  unfolding write_all pure
  write_all-KeepsQueue [] = record { at = λ w. refl }
  write_all-KeepsQueue (e ∷ es) = write_one-KeepsQueue e es (write_all-KeepsQueue es)

  -- The body of the transaction, if it returns, puts the batch behind the log.
  write_all-written :
      (es : List Event) (w : World) {u : Unit {0}}
      → (write_all c es w).0 ≡ ok u
      → written (write_all c es w).1.db ≡ written w.db ++ rows_of c es
  unfolding write_all pure
  write_all-written [] w h = sym (append-nil _)
  write_all-written (e ∷ es) w h = elim (Option-cases (audit_params c e)) [
    | inl skipped ↦ rw (skipped, write_all) (write_all-written es w (rw (skipped, write_all) at h))
    | inr (p, made) ↦
        let (u, w', inserted, rest, same) =
          query-eq-ok (λ _. Error.internal) (create_audit_log p) (λ _. write_all c es) w
            (rw (made, write_all) at h) in
        rw (made, write_all)
          (ap (λ w. written w.db) same
            ∙ write_all-written es w' rest
            ∙ ap (λ ps. ps ++ rows_of c es) (create_audit_log-eq-ok p (stamp w) w.db w'.db inserted)
            ∙ append_assoc (written w.db) (p ∷ []) (rows_of c es))
  ]

  -- A flush writes the batch behind the log, or nothing.
  pub flush-written :
      (b : List Event) (w : World)
      → (written (flush c b w).db ≡ written w.db ++ rows_of c b)
        ⊎ (written (flush c b w).db ≡ written w.db)
  unfolding flush
  flush-written [] w = inr refl
  flush-written (e ∷ es) w = tried (in_tx (write_all c (e ∷ es)) w).0 refl
    where
      tried :
          (r : Outcome Error (Unit {0}))
          → (in_tx (write_all c (e ∷ es)) w).0 ≡ r
          → (written (in_tx (write_all c (e ∷ es)) w).1.db ≡ written w.db ++ rows_of c (e ∷ es))
            ⊎ (written (in_tx (write_all c (e ∷ es)) w).1.db ≡ written w.db)
      tried (ok u) h =
          let (ran, left) = in_tx-eq-ok (write_all c (e ∷ es)) w h in
          inl (ap written left ∙ write_all-written (e ∷ es) (advance w) ran)
      tried (err x) h = inr (ap written ((Atomic-in_tx (write_all c (e ∷ es))).at w x h))

  pub flush-audit : (b : List Event) (w : World) → (flush c b w).audit ≡ w.audit
  unfolding flush
  flush-audit [] w = refl
  flush-audit (e ∷ es) w =
      (KeepsQueue-in_tx (write_all c (e ∷ es)) (write_all-KeepsQueue (e ∷ es))).at w
