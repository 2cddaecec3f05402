-- ===== src/Promotion/Defs.antt =====
-- `Promote`: the plan, and its application in one transaction
-- (backend/internal/service/promotion.go, and `resolveEnvironment` of
-- backend/internal/service/project.go).
use vaultly.Prelude.{
  ℕ, Bool, true, false, not, ◌&&◌, Option, none, some, List, [], ◌∷◌, ◌++◌, Text, codes, text_eq,
  first, any, length, leb, ◌==◌, if◌then◌else◌,
}
use vaultly.Domain.{Error, member, new_validation_error, secrets_promoted}
use vaultly.Db.{Bytes, EnvironmentRow}
use vaultly.World.{Svc, pure, ◌>>=◌, ◌>>◌, check, run, translated, in_tx, record_event, Actor, Meta}
use vaultly.Queries.Projects.{get_environment}
use vaultly.Queries.Secrets.{create_secret, bump_secret_version_unchecked}
use vaultly.Crypto.{Sealed, encrypt}
use vaultly.Authz.{Scope, require_project_role}
use vaultly.Secrets.{Deps, aad_of, ResolvedSecret, resolve_environment_values, add_version}

-- `resolveEnvironment`
unfoldable pub resolve_environment : ℕ → ℕ → Svc EnvironmentRow
resolve_environment project_id environment_id = do
  row ← translated (run (get_environment environment_id))
  check (if row.project_id == project_id then none else some Error.not_found)
  pure row

pub record PromoteInput : Type 0 where
  pub project_id : ℕ
  pub source_env_id : ℕ
  pub target_env_id : ℕ
  pub dry_run : Bool
  pub include_values : Bool
  pub keys : List Text
  pub actor : Actor

pub data ChangeType : Type 0 where
  added changed unchanged : ChangeType

pub record Change : Type 0 where
  pub key : Text
  pub type : ChangeType
  pub masked : Bool
  pub source_value : Option Bytes
  pub target_value : Option Bytes

pub record Plan : Type 0 where
  pub source_environment_id : ℕ
  pub target_environment_id : ℕ
  pub source_name : Text
  pub target_name : Text
  pub changes : List Change
  pub dry_run : Bool
  pub applied : ℕ

-- An entry that changes something: the source's value, and the target's secret if it has one.
pub record Pending : Type 0 where
  pub source : ResolvedSecret
  pub target : Option ResolvedSecret

-- `targetByKey[key]`: the map of the target's values. Keys of live secrets are unique, so the
-- first entry is the only one.
abbrev pub by_key : Text → List ResolvedSecret → Option ResolvedSecret
by_key key = first (λ r. text_eq r.key key)

-- `wanted != nil && !wanted[key]` is the test of the loop; no filter wants every key.
abbrev pub is_wanted : List Text → Text → Bool
is_wanted [] key = true
is_wanted (k ∷ ks) key = any (text_eq key) (k ∷ ks)

abbrev pub classify : ResolvedSecret → Option ResolvedSecret → ChangeType
classify s none = added
classify s (some t) = if text_eq t.value s.value then unchanged else changed

abbrev value_of : Option ResolvedSecret → Option Bytes
value_of none = none
value_of (some t) = some t.value

abbrev pub change_of : Bool → ResolvedSecret → Option ResolvedSecret → Change
change_of include_values s t = record {
  key = s.key;
  type = classify s t;
  masked = not include_values;
  source_value = if include_values then some s.value else none;
  target_value = if include_values then value_of t else none;
}

-- The loop over the source's values: the plan's changes.
abbrev pub changes : Bool → List Text → List ResolvedSecret → List ResolvedSecret → List Change
changes include_values keys targets [] = []
changes include_values keys targets (s ∷ ss) =
    let rest = changes include_values keys targets ss in
    if is_wanted keys s.key then change_of include_values s (by_key s.key targets) ∷ rest else rest

abbrev is_unchanged : ChangeType → Bool
is_unchanged unchanged = true
is_unchanged _ = false

-- The same loop: `toApply`.
abbrev pub to_apply : List Text → List ResolvedSecret → List ResolvedSecret → List Pending
to_apply keys targets [] = []
to_apply keys targets (s ∷ ss) =
    let rest = to_apply keys targets ss in
    let t = by_key s.key targets in
    if is_wanted keys s.key && not (is_unchanged (classify s t))
    then record { source = s; target = t } ∷ rest
    else rest

-- `changedKeys`
abbrev pub changed_keys : List Change → List Text
changed_keys [] = []
changed_keys (c ∷ cs) = if is_unchanged c.type then changed_keys cs else c.key ∷ changed_keys cs

-- The values are sealed again for the target, since the associated data names the environment.
unfoldable pub seal_entries : Deps → ℕ → ℕ → List Pending → Svc (List (Pending × Sealed))
seal_entries deps project_id target_env_id [] = pure []
seal_entries deps project_id target_env_id (p ∷ ps) = do
  s ← encrypt deps.keyring p.source.value (aad_of deps project_id target_env_id p.source.key)
  rest ← seal_entries deps project_id target_env_id ps
  pure ((p, s) ∷ rest)

-- The secret that an entry writes to, created if the target has none.
unfoldable pub target_secret : ℕ → ℕ → ℕ → Pending → Option ResolvedSecret → Svc ℕ
target_secret user_id project_id target_env_id p none = do
  created ← translated (
      run (
        create_secret (record {
          project_id = project_id;
          environment_id = target_env_id;
          key = p.source.key;
          description = [];
          updated_by = some user_id;
        })))
  pure created.id
target_secret user_id project_id target_env_id p (some t) = pure t.secret_id

-- One round of the transaction's loop.
unfoldable pub apply_entry : ℕ → ℕ → ℕ → Text → Pending × Sealed → Svc (Unit {0})
unfolding target_secret add_version
apply_entry user_id project_id target_env_id comment (p, s) = do
  secret_id ← target_secret user_id project_id target_env_id p p.target
  version ← translated (run (bump_secret_version_unchecked secret_id (some user_id)))
  add_version secret_id version s comment user_id
  pure tt

unfoldable pub apply_entries : ℕ → ℕ → ℕ → Text → List (Pending × Sealed) → Svc (Unit {0})
unfolding apply_entry
apply_entries user_id project_id target_env_id comment [] = pure tt
apply_entries user_id project_id target_env_id comment (e ∷ es) = do
  apply_entry user_id project_id target_env_id comment e
  apply_entries user_id project_id target_env_id comment es

-- What a promotion does behind its plan.
unfoldable pub apply_plan : Deps → ℕ → PromoteInput → Scope → Plan → List Pending → Svc Plan
unfolding seal_entries apply_entries
apply_plan deps user_id input scope plan entries = do
  sealed ← seal_entries deps input.project_id input.target_env_id entries
  in_tx (
      apply_entries user_id input.project_id input.target_env_id
        (codes "promoted from " ++ plan.source_name) sealed)
  record_event (record {
    workspace_id = scope.workspace_id;
    actor = input.actor;
    action = secrets_promoted;
    resource_type = "environment";
    resource_id = some input.target_env_id;
    metadata =
        ("source", Meta.text plan.source_name)
        ∷ ("target", Meta.text plan.target_name)
        ∷ ("applied", Meta.number (length sealed))
        ∷ ("keys", Meta.texts (changed_keys plan.changes))
        ∷ [];
  })
  pure (record plan { applied = length sealed })

-- `Promote`; the message about the order of the environments leaves out their names.
unfoldable pub promote : Deps → ℕ → PromoteInput → Svc Plan
unfolding resolve_environment apply_plan
promote deps user_id input = do
  scope ← require_project_role user_id input.project_id member
  check (
      if input.source_env_id == input.target_env_id
      then some
          (new_validation_error "targetEnvironmentId" "must differ from the source environment")
      else none)
  source ← resolve_environment input.project_id input.source_env_id
  target ← resolve_environment input.project_id input.target_env_id
  check (
      if leb target.rank source.rank
      then some
          (new_validation_error "targetEnvironmentId" "does not come after in the promotion path")
      else none)
  source_values ← resolve_environment_values deps input.project_id input.source_env_id
  target_values ← resolve_environment_values deps input.project_id input.target_env_id
  let plan : Plan = record {
    source_environment_id = input.source_env_id;
    target_environment_id = input.target_env_id;
    source_name = source.name;
    target_name = target.name;
    changes = changes input.include_values input.keys target_values source_values;
    dry_run = input.dry_run;
    applied = 0;
  }
  if input.dry_run
      then pure plan
      else apply_plan deps user_id input scope plan
          (to_apply input.keys target_values source_values)
