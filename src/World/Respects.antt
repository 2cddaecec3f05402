-- ===== src/World/Respects.antt =====
-- What an action does to the database, as a preorder between the tables before and after: one rule
-- for each way to build an action.
use vaultly.Prelude.{
  ◌≡◌, refl, ◌∙◌, Bool, true, false, Option, none, some, if◌then◌else◌, Bool-cases, inl, inr,
}
use vaultly.Domain.{Error}
use vaultly.Db.{Db}
use vaultly.World.Defs.{
  Outcome, ok, err, DbError, World, Action', Svc, Sql, Event, Stmt, Stamp, stamp, pure, raise, lift,
  continue, ◌>>=◌, check, run, land, on_error, in_tx, finish, record_event, random_bytes, advance,
}

pub record Relation : Type 1 where
  pub Rel : Db → Db → Type 0
  pub same : (d : Db) → Rel d d
  pub chain : (a b c : Db) → Rel a b → Rel b c → Rel a c

-- Whatever the outcome, the tables after are related to the tables before.
pub record Respects (R : Relation) {E A : Type 0} (m : Action' E A) : Type 0 where
  pub at : (w : World) → R.Rel w.db (m w).1.db

-- The same for the runs that return: what is left of a transaction's body.
pub record Commits (R : Relation) {E A : Type 0} (m : Action' E A) : Type 0 where
  pub at : (w : World) (a : A) → (m w).0 ≡ ok a → R.Rel w.db (m w).1.db

-- A statement, wherever it does not report an error.
pub record Changes (R : Relation) {A : Type 0} (q : Stmt A) : Type 0 where
  pub at : (s : Stamp) (d : Db) (a : A) (d' : Db) → q s d ≡ ok (a, d') → R.Rel d d'

module _ {R : Relation} {E A : Type 0} where
  pub Respects-pure : (a : A) → Respects R (pure {E = E} a)
  unfolding pure
  Respects-pure a = record { at = λ w. R.same w.db }

  pub Respects-raise : (e : E) → Respects R (raise {A = A} e)
  unfolding raise
  Respects-raise e = record { at = λ w. R.same w.db }

  pub Respects-lift : (r : Outcome E A) → Respects R (lift r)
  unfolding lift
  Respects-lift r = record { at = λ w. R.same w.db }

  pub Respects-if :
      (b : Bool) (m n : Action' E A) → Respects R m → Respects R n → Respects R (if b then m else n)
  Respects-if true m n p q = p
  Respects-if false m n p q = q

  pub Commits-of_Respects : {m : Action' E A} → Respects R m → Commits R m
  Commits-of_Respects p = record { at = λ w a e. p.at w }

module _ {R : Relation} {E A B : Type 0} where
  Rel-continue :
      (r : Outcome E A) (f : A → Action' E B) (w : World)
      → ((a : A) → Respects R (f a))
      → R.Rel w.db (continue r f w).1.db
  Rel-continue (ok a) f w q = (q a).at w
  Rel-continue (err e) f w q = R.same w.db

  pub Respects-bind :
      (m : Action' E A) (f : A → Action' E B)
      → Respects R m
      → ((a : A) → Respects R (f a))
      → Respects R (m >>= f)
  unfolding ◌>>=◌
  Respects-bind m f p q = record {
    at = λ w. R.chain w.db (m w).1.db _ (p.at w) (Rel-continue (m w).0 f (m w).1 q);
  }

module _ {R : Relation} where
  pub Respects-check : (o : Option Error) → Respects R (check o)
  Respects-check none = Respects-pure tt
  Respects-check (some e) = Respects-raise e

  pub Respects-record_event : (e : Event) → Respects R (record_event e)
  unfolding record_event
  Respects-record_event e = record { at = λ w. R.same w.db }

  pub Respects-random_bytes : (n : _) → Respects R (random_bytes n)
  unfolding random_bytes
  Respects-random_bytes n = record { at = λ w. R.same w.db }

module _ (R : Relation) {A : Type 0} where
  Rel-land :
      (r : Outcome DbError (A × Db)) (w : World)
      → ((a : A) (d : Db) → r ≡ ok (a, d) → R.Rel w.db d)
      → R.Rel w.db (land w r).1.db
  Rel-land (ok (a, d)) w h = h a d refl
  Rel-land (err e) w h = R.same w.db

  Rel-finish :
      (before : Db) (r : Outcome Error A) (w : World)
      → ((a : A) → r ≡ ok a → R.Rel before w.db)
      → R.Rel before (finish before r w).1.db
  Rel-finish before (err e) w h = R.same before
  Rel-finish before (ok a) w h = elim (Bool-cases (w.env.fails w.tick)) [
    | inl down ↦ rw down (R.same before)
    | inr up ↦ rw up (h a refl)
  ]

module _ {R : Relation} {A : Type 0} where
  pub Respects-run : (q : Stmt A) → Changes R q → Respects R (run q)
  unfolding run
  Respects-run q c = record {
    at = λ w. elim (Bool-cases (w.env.fails w.tick)) [
      | inl down ↦ rw down (R.same w.db)
      | inr up ↦ rw up (Rel-land R (q (stamp w) w.db) (advance w) (c.at (stamp w) w.db))
    ];
  }

  pub Respects-on_error :
      (f : DbError → Error) (m : Sql A) → Respects R m → Respects R (on_error f m)
  unfolding on_error
  Respects-on_error f m p = record { at = λ w. p.at w }

  -- A transaction owes the relation only where its body returns: an error restores the tables.
  pub Respects-in_tx : (m : Svc A) → Commits R m → Respects R (in_tx m)
  unfolding in_tx
  Respects-in_tx m c = record {
    at = λ w. elim (Bool-cases (w.env.fails w.tick)) [
      | inl down ↦ rw down (R.same w.db)
      | inr up ↦ rw up (Rel-finish R w.db (m (advance w)).0 (m (advance w)).1 (c.at (advance w)))
    ];
  }

pub ruleset respects_rules = (
  Respects-pure, Respects-raise, Respects-lift, Respects-if, Respects-check, Respects-bind,
  Respects-on_error, Respects-record_event, Respects-random_bytes,
)

-- The relation of the actions that change no table.
abbrev pub sameness : Relation
sameness = record { Rel = λ a b. a ≡ b; same = λ d. refl; chain = λ a b c p q. p ∙ q }
