-- ===== src/Secrets/History.antt =====
-- The invariant of the history, and the transactions that write it
-- (backend/internal/service/secret.go).
use vaultly.Prelude.{
  ℕ, suc, ◌≡◌, refl, some, List, [], ◌∷◌, ◌++◌, Text, codes, ℤ, is_positive, Bool-cases, inl, inr,
  arith,
}
use mathlib.Core.List.{append_assoc}
use vaultly.Db.{Db, VersionRow}
use vaultly.World.{World, ok, pure, translate_db_error, stamp}
use vaultly.World.Respects.{Relation, Commits}
use vaultly.World.Returns.{bind-eq-ok, query-eq-ok, on_error-eq-ok}
use vaultly.Crypto.{Sealed}
use vaultly.Queries.Versions.{create_secret_version}
use vaultly.Queries.Secrets.{create_secret, bump_secret_version, bump_secret_version_unchecked}
use vaultly.Secrets.Numbers.{numbers, version_of, countdown, HasUniqueIds}
use vaultly.Secrets.Effects.{
  Moves, Settles, Extends, numbers-Extends, bump_secret_version_unchecked-Moves,
  bump_secret_version-Moves, create_secret-Settles, create_secret_version-Extends,
}
use vaultly.Secrets.Write.{stale, bump, add_version, create_tx, update_tx, rollback_tx}

-- Every secret's stored versions are numbered from its current version down to 1, without a gap
-- and without a repetition, and no row of the table of versions belongs to no secret.
pub record HasHistory (d : Db) : Type 0 where
  pub unique : HasUniqueIds d.secrets
  pub counts : (id : ℕ) → numbers id d.versions ≡ countdown (version_of id d.secrets)

-- The rows of the history before are the rows after, behind the new ones.
abbrev pub Grows : Db → Db → Type 0
Grows a b = (added : List VersionRow) × (b.versions ≡ added ++ a.versions)

pub Grows-trans : (a b c : Db) → Grows a b → Grows b c → Grows a c
Grows-trans a b c (xs, e) (ys, f) = (ys ++ xs, rw (f, e) (rw append_assoc))

-- From tables with a sound history to tables with a sound history that extends it.
abbrev pub Evolves : Db → Db → Type 0
Evolves a b = HasHistory a → HasHistory b × Grows a b

pub Evolves-refl : (d : Db) → Evolves d d
Evolves-refl d h = (h, ([], refl))

pub Evolves-trans : (a b c : Db) → Evolves a b → Evolves b c → Evolves a c
Evolves-trans a b c p q h =
    let (hb, ab) = p h in let (hc, bc) = q hb in (hc, Grows-trans a b c ab bc)

abbrev pub evolution : Relation
evolution = record { Rel = Evolves; same = Evolves-refl; chain = Evolves-trans }

module _ {d d' : Db} where
  pub HasHistory-Settles : Settles d d' → HasHistory d → HasHistory d'
  HasHistory-Settles s h = record {
    unique = s.unique;
    counts = λ id. rw (s.versions, s.pointer id) (h.counts id);
  }

  pub Grows-Settles : Settles d d' → Grows d d'
  Grows-Settles s = ([], s.versions)

-- A bump and the row that it owes.
HasHistory-Moves-Extends :
    (id n : ℕ) (a b c : Db)
    → n ≡ suc (version_of id a.secrets)
    → Moves id n a b
    → Extends id n b c
    → HasHistory a
    → HasHistory c
HasHistory-Moves-Extends id n a b c count m x h = record {
  unique = rw x.secrets m.unique;
  counts = λ j.
      rw (x.secrets, numbers-Extends id n j b c x, m.versions, m.pointer j)
        (ground (arith, h.counts j));
}

-- The first row, and the bump that catches up with it.
HasHistory-Extends-Moves :
    (id n : ℕ) (a b c : Db)
    → version_of id a.secrets ≡ 0
    → Extends id 1 a b
    → n ≡ suc (version_of id b.secrets)
    → Moves id n b c
    → HasHistory a
    → HasHistory c
HasHistory-Extends-Moves id n a b c new x count m h = record {
  unique = m.unique;
  counts = λ j.
      rw (m.versions, numbers-Extends id 1 j a b x, m.pointer j, count, x.secrets)
        (ground (arith, h.counts j, h.counts id));
}

-- The same with what it adds to the history.
pub Evolves-Moves-Extends :
    (id n : ℕ) (a b c : Db)
    → n ≡ suc (version_of id a.secrets)
    → Moves id n a b
    → Extends id n b c
    → Evolves a c
Evolves-Moves-Extends id n a b c count m x h =
    let (v, same_id, same_n, e) = x.stored in
    (HasHistory-Moves-Extends id n a b c count m x h, (v ∷ [], rw (e, m.versions)))

pub Evolves-Extends-Moves :
    (id n : ℕ) (a b c : Db)
    → version_of id a.secrets ≡ 0
    → Extends id 1 a b
    → n ≡ suc (version_of id b.secrets)
    → Moves id n b c
    → Evolves a c
Evolves-Extends-Moves id n a b c new x count m h =
    let (v, same_id, same_n, e) = x.stored in
    (HasHistory-Extends-Moves id n a b c new x count m h, (v ∷ [], rw (m.versions, e)))

pub Evolves-Settles : {d d' : Db} → (HasUniqueIds d.secrets → Settles d d') → Evolves d d'
Evolves-Settles s h = (HasHistory-Settles (s h.unique) h, Grows-Settles (s h.unique))

-- The bump of `Update`, with or without an expected version, moves the pointer by one.
module _ (id : ℕ) (expected : ℤ) (user_id : ℕ) (w : World) where
  pub bump-Moves :
      {n : ℕ}
      → HasUniqueIds w.db.secrets
      → (bump id expected user_id w).0 ≡ ok n
      → (n ≡ suc (version_of id w.db.secrets)) × Moves id n w.db (bump id expected user_id w).1.db
  unfolding bump
  bump-Moves {n} unique h = elim (Bool-cases (is_positive expected)) [
    | inl checked ↦ rw checked (
        let (d, e, db) =
          on_error-eq-ok stale (bump_secret_version id expected (some user_id)) w
            (rw (checked, bump) at h) in
        rw db (bump_secret_version-Moves id (some user_id) (stamp w) w.db d n unique expected e))
    | inr unchecked ↦ rw unchecked (
        let (d, e, db) =
          on_error-eq-ok translate_db_error (bump_secret_version_unchecked id (some user_id)) w
            (rw (unchecked, bump) at h) in
        rw db (bump_secret_version_unchecked-Moves id (some user_id) (stamp w) w.db d n unique e))
  ]

-- `add_version` adds one row of the number that it is given.
pub add_version-Extends :
    (id n : ℕ) (s : Sealed) (comment : Text) (user_id : ℕ) (w : World) {row : VersionRow}
    → (add_version id n s comment user_id w).0 ≡ ok row
    → Extends id n w.db (add_version id n s comment user_id w).1.db
unfolding add_version
add_version-Extends id n s comment user_id w {row} h =
    let (d, e, db) = on_error-eq-ok translate_db_error (create_secret_version _) w h in
    rw db (create_secret_version-Extends _ (stamp w) w.db d row e)

-- The transaction of an update appends one version and moves the pointer to it.
pub update_tx-Commits :
    (id : ℕ) (expected : ℤ) (user_id : ℕ) (s : Sealed) (comment : Text)
    → Commits evolution (update_tx id expected user_id s comment)
unfolding update_tx pure
update_tx-Commits id expected user_id s comment = record {
  at = λ w a e h.
      let (n, bumped, rest, same) = bind-eq-ok (bump id expected user_id) _ w e in
      let w' = (bump id expected user_id w).1 in
      let (row, added, _, same') = bind-eq-ok (add_version id n s comment user_id) _ w' rest in
      let (count, m) = bump-Moves id expected user_id w h.unique bumped in
      let x = add_version-Extends id n s comment user_id w' added in
      rw (same, same')
        (Evolves-Moves-Extends id n w.db w'.db (add_version id n s comment user_id w').1.db count m
          x h);
}

-- The transaction of a rollback does the same with an old row's sealed value.
pub rollback_tx-Commits :
    (id user_id : ℕ) (target : VersionRow) (comment : Text)
    → Commits evolution (rollback_tx id user_id target comment)
unfolding rollback_tx pure
rollback_tx-Commits id user_id target comment = record {
  at = λ w a e h.
      let (n, w', moved, rest, same) =
        query-eq-ok translate_db_error (bump_secret_version_unchecked id (some user_id)) _ w e in
      let s : Sealed = record {
        wrapped_dek = target.wrapped_dek;
        nonce = target.nonce;
        ciphertext = target.ciphertext;
      } in
      let (row, added, _, same') = bind-eq-ok (add_version id n s comment user_id) _ w' rest in
      let (count, m) =
        bump_secret_version_unchecked-Moves id (some user_id) (stamp w) w.db w'.db n h.unique
          moved in
      let x = add_version-Extends id n s comment user_id w' added in
      rw (same, same')
        (Evolves-Moves-Extends id n w.db w'.db (add_version id n s comment user_id w').1.db count m
          x h);
}

-- The transaction of a creation adds a secret with its first version.
pub create_tx-Commits :
    (user_id project_id environment_id : ℕ) (key description : Text) (s : Sealed)
    → Commits evolution (create_tx user_id project_id environment_id key description s)
unfolding create_tx pure
create_tx-Commits user_id project_id environment_id key description s = record {
  at = λ w a e h.
      let (created, w1, inserted, rest, same) =
        query-eq-ok translate_db_error (create_secret _) _ w e in
      let (row, added, rest', same') =
        bind-eq-ok (add_version created.id 1 s (codes "created") user_id) _ w1 rest in
      let w2 = (add_version created.id 1 s (codes "created") user_id w1).1 in
      let (n, w3, moved, _, same'') =
        query-eq-ok translate_db_error (bump_secret_version_unchecked created.id (some user_id)) _
          w2 rest' in
      let (new, settled) = create_secret-Settles (stamp w) w.db w1.db h.unique _ created inserted in
      let h1 = Evolves-Settles (λ _. settled) h in
      let x = add_version-Extends created.id 1 s (codes "created") user_id w1 added in
      let (count, m) =
        bump_secret_version_unchecked-Moves created.id (some user_id) (stamp w2) w2.db w3.db n
          (rw x.secrets settled.unique) moved in
      rw (same, same', same'')
        (Evolves-trans w.db w1.db w3.db (λ _. h1)
          (Evolves-Extends-Moves created.id n w1.db w2.db w3.db new x count m) h);
}
