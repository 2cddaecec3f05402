-- ===== src/World/Atomic.antt =====
-- Calls that change nothing where they fail: one rule for each way to build such a call.
use vaultly.Prelude.{
  ◌≡◌, ◌∙◌, sym, ap, refl, Bool, true, false, if◌then◌else◌, Bool-cases, inl, inr,
}
use vaultly.Domain.{Error}
use vaultly.Db.{Db}
use vaultly.World.Defs.{
  Outcome, ok, err, DbError, World, Svc, Action', Event, Stmt, pure, continue, ◌>>=◌, run, land,
  stamp, advance, on_error, rename, in_tx, finish, record_event,
}
use vaultly.World.Respects.{Respects, sameness}

-- An error leaves the tables as they were.
pub record Atomic {E A : Type 0} (m : Action' E A) : Type 0 where
  pub at : (w : World) (e : E) → (m w).0 ≡ err e → (m w).1.db ≡ w.db

-- No error at all.
pub record Total {E A : Type 0} (m : Action' E A) : Type 0 where
  pub at : (w : World) → (a : A) × ((m w).0 ≡ ok a)

module _ {E A : Type 0} where
  pub Total-pure : (a : A) → Total (pure {E = E} a)
  unfolding pure
  Total-pure a = record { at = λ w. (a, refl) }

  pub Atomic-of_sameness : (m : Action' E A) → Respects sameness m → Atomic m
  Atomic-of_sameness m r = record { at = λ w e h. sym (r.at w) }

  pub Atomic-if : (b : Bool) (m n : Action' E A) → Atomic m → Atomic n → Atomic (if b then m else n)
  Atomic-if true m n p q = p
  Atomic-if false m n p q = q

pub Total-record_event : (e : Event) → Total (record_event e)
unfolding record_event
Total-record_event e = record { at = λ w. (tt, refl) }

module _ {E A B : Type 0} where
  continue-Total :
      (r : Outcome E A) (a : A) (f : A → Action' E B) (w : World)
      → r ≡ ok a
      → Total (f a)
      → (b : B) × ((continue r f w).0 ≡ ok b)
  continue-Total r a f w h t = rw h (t.at w)

  pub Total-bind :
      (m : Action' E A) (f : A → Action' E B) → Total m → ((a : A) → Total (f a)) → Total (m >>= f)
  unfolding ◌>>=◌
  Total-bind m f p q = record {
    at = λ w. let (a, e) = p.at w in continue-Total (m w).0 a f (m w).1 e (q a);
  }

  after-quiet :
      (r : Outcome E A) (f : A → Action' E B) (w : World) (e : E)
      → ((a : A) → Atomic (f a))
      → (continue r f w).0 ≡ err e
      → (continue r f w).1.db ≡ w.db
  after-quiet (ok a) f w e q h = (q a).at w e h
  after-quiet (err e') f w e q h = refl

  -- Steps that leave the tables alone may come first.
  pub Atomic-quiet :
      (m : Action' E A) (f : A → Action' E B)
      → Respects sameness m
      → ((a : A) → Atomic (f a))
      → Atomic (m >>= f)
  unfolding ◌>>=◌
  Atomic-quiet m f r q = record { at = λ w e h. after-quiet (m w).0 f (m w).1 e q h ∙ sym (r.at w) }

  after-last :
      (r : Outcome E A) (f : A → Action' E B) (w : World) (e : E)
      → ((a : A) → Total (f a))
      → (continue r f w).0 ≡ err e
      → (r ≡ err e) × ((continue r f w).1 ≡ w)
  after-last (ok a) f w e q h = let (b, ok') = (q a).at w in cc
  after-last (err e') f w e q h = (cc, refl)

  -- After the step that changes the tables, nothing may fail.
  pub Atomic-last :
      (m : Action' E A) (f : A → Action' E B)
      → Atomic m
      → ((a : A) → Total (f a))
      → Atomic (m >>= f)
  unfolding ◌>>=◌
  Atomic-last m f p q = record {
    at = λ w e h.
        let (failed, same) = after-last (m w).0 f (m w).1 e q h in
        ap (λ w. w.db) same ∙ p.at w e failed;
  }

module _ {A : Type 0} where
  land-Atomic :
      (w : World) (r : Outcome DbError (A × Db)) (e : DbError)
      → (land w r).0 ≡ err e
      → (land w r).1.db ≡ w.db
  land-Atomic w (ok (a, d)) e h = cc
  land-Atomic w (err e') e h = refl

  pub Atomic-run : (q : Stmt A) → Atomic (run q)
  unfolding run
  Atomic-run q = record {
    at = λ w e h. elim (Bool-cases (w.env.fails w.tick)) [
      | inl down ↦ rw down refl
      | inr up ↦ rw up (land-Atomic (advance w) (q (stamp w) w.db) e (rw (up, run) at h))
    ];
  }

  rename-err :
      (f : DbError → Error) (r : Outcome DbError A) (e : Error)
      → rename f r ≡ err e
      → (e' : DbError) × (r ≡ err e')
  rename-err f (ok a) e h = cc
  rename-err f (err e') e h = (e', refl)

  pub Atomic-on_error :
      (f : DbError → Error) (m : Action' DbError A) → Atomic m → Atomic (on_error f m)
  unfolding on_error
  Atomic-on_error f m p = record {
    at = λ w e h. let (e', failed) = rename-err f (m w).0 e h in p.at w e' failed;
  }

  finish-Atomic :
      (before : Db) (r : Outcome Error A) (w : World) (e : Error)
      → (finish before r w).0 ≡ err e
      → (finish before r w).1.db ≡ before
  finish-Atomic before (err e') w e h = refl
  finish-Atomic before (ok a) w e h = elim (Bool-cases (w.env.fails w.tick)) [
    | inl down ↦ rw down refl
    | inr up ↦ cc (rw up at h)
  ]

  pub Atomic-in_tx : (body : Svc A) → Atomic (in_tx body)
  unfolding in_tx
  Atomic-in_tx body = record {
    at = λ w e h. elim (Bool-cases (w.env.fails w.tick)) [
      | inl down ↦ rw down refl
      | inr up ↦
          rw up
            (finish-Atomic w.db (body (advance w)).0 (body (advance w)).1 e (rw (up, in_tx) at h))
    ];
  }

pub ruleset atomic_rules = (
  Atomic-if, Atomic-quiet, Atomic-last, Atomic-run, Atomic-on_error, Atomic-in_tx,
  Atomic-of_sameness, Total-pure, Total-record_event, Total-bind,
)
