-- ===== src/World/Yields.antt =====
-- What a call that returns leaves behind: one rule for each kind of step, the ones that leave the
-- tables alone and the transaction.
use vaultly.Prelude.{◌≡◌, ◌⊎◌, ◌∙◌, sym, subst, refl, Bool, true, false, none, some, if◌then◌else◌}
use vaultly.Domain.{Error}
use vaultly.Db.{Db}
use vaultly.World.Defs.{
  Outcome, ok, err, other, World, Svc, Stmt, Stamp, stamp, DbError, Event, run, on_error, pure,
  raise, check, ◌>>=◌, in_tx, record_event, advance,
}
use vaultly.World.Respects.{Respects, sameness}
use vaultly.World.Returns.{bind-eq-ok, in_tx-eq-ok, query-eq-ok, run-eq-ok, run-eq-err}
use vaultly.World.Steps.{attempt}

-- From the tables `d`, a run that returns satisfies `Q` with its result and the tables after.
pub record Yields {A : Type 0} (d : Db) (m : Svc A) (Q : A → Db → Type 0) : Type 0 where
  pub at : (w : World) (a : A) → d ≡ w.db → (m w).0 ≡ ok a → Q a (m w).1.db

pub ok_injective : {E A : Type 0} {a b : A} → Path (Outcome E A) (ok a) (ok b) → a ≡ b
ok_injective h = cc

module _ {A : Type 0} {Q : A → Db → Type 0} where
  pub Yields-pure : (d : Db) (a : A) → Q a d → Yields d (pure a) Q
  unfolding pure
  Yields-pure d a q = record {
    at = λ w b s h. subst (λ b. Q b w.db) (ok_injective h) (subst (Q a) s q);
  }

  -- A step that leaves the tables alone.
  pub Yields-quiet :
      {B : Type 0} (d : Db) (m : Svc B) (f : B → Svc A)
      → Respects sameness m
      → ((w : World) (b : B) → d ≡ w.db → (m w).0 ≡ ok b → Yields d (f b) Q)
      → Yields d (m >>= f) Q
  Yields-quiet d m f r k = record {
    at = λ w a s h.
        let (b, e, rest, same) = bind-eq-ok m f w h in
        subst (λ w'. Q a w'.db) (sym same) ((k w b s e).at (m w).1 a (s ∙ r.at w) rest);
  }

  -- A transaction, of which what its body left stays.
  pub Yields-in_tx :
      {B : Type 0} (d : Db) (body : Svc B) (f : B → Svc A)
      → ((w : World) (b : B) → d ≡ w.db → (body w).0 ≡ ok b → Yields (body w).1.db (f b) Q)
      → Yields d (in_tx body >>= f) Q
  Yields-in_tx d body f k = record {
    at = λ w a s h.
        let (b, e, rest, same) = bind-eq-ok (in_tx body) f w h in
        let (ran, left) = in_tx-eq-ok body w e in
        subst (λ w'. Q a w'.db) (sym same)
          ((k (advance w) b s ran).at (in_tx body w).1 a (sym left) rest);
  }

-- A statement, which may write.
pub Yields-run :
    {A B : Type 0} {Q : A → Db → Type 0} (d : Db) (g : DbError → Error) (q : Stmt B) (f : B → Svc A)
    → ((st : Stamp) (b : B) (d' : Db) → q st d ≡ ok (b, d') → Yields d' (f b) Q)
    → Yields d (on_error g (run q) >>= f) Q
Yields-run {Q = Q} d g q f k = record {
  at = λ w a s h.
      let (b, w', e, rest, same) = query-eq-ok g q f w h in
      subst (λ x. Q a x.db) (sym same)
        ((k (stamp w) b w'.db (subst (λ x. q (stamp w) x ≡ ok (b, w'.db)) (sym s) e)).at w' a refl
          rest);
}

-- A chain of which the first part is known to leave `R`.
pub Yields-then :
    {A B : Type 0} {R : A → Db → Type 0} {Q : B → Db → Type 0} (d : Db) (m : Svc A) (f : A → Svc B)
    → Yields d m R
    → ((a : A) (d' : Db) → R a d' → Yields d' (f a) Q)
    → Yields d (m >>= f) Q
Yields-then {Q = Q} d m f first k = record {
  at = λ w b s h.
      let (a, e, rest, same) = bind-eq-ok m f w h in
      subst (λ w'. Q b w'.db) (sym same)
        ((k a (m w).1.db (first.at w a s e)).at (m w).1 b refl rest);
}

-- A statement whose error is looked at.
pub Yields-attempt-run :
    {A B : Type 0} {Q : A → Db → Type 0} (d : Db) (q : Stmt B) (f : Outcome DbError B → Svc A)
    → ((st : Stamp) (b : B) (d' : Db) → q st d ≡ ok (b, d') → Yields d' (f (ok b)) Q)
    → ((st : Stamp) (e : DbError) → (q st d ≡ err e) ⊎ (e ≡ other) → Yields d (f (err e)) Q)
    → Yields d (attempt (run q) >>= f) Q
unfolding attempt
Yields-attempt-run {A} {B} {Q} d q f good bad = record {
  at = λ w a s h.
      let (o, e, rest, same) = bind-eq-ok (attempt (run q)) f w h in
      subst (λ w'. Q a w'.db) (sym same)
        ((attempted w s o (ok_injective e)).at (run q w).1 a refl rest);
}
  where
    attempted :
        (w : World)
        → d ≡ w.db
        → (o : Outcome DbError B) → (run q w).0 ≡ o
        → Yields (run q w).1.db (f o) Q
    attempted w s (ok b) h =
        let (d', e, same) = run-eq-ok q w h in
        subst (λ x. Yields x (f (ok b)) Q) (sym same)
          (good (stamp w) b d' (subst (λ x. q (stamp w) x ≡ ok (b, d')) (sym s) e))
    attempted w s (err e) h =
        let (same, why) = run-eq-err q w h in
        subst (λ x. Yields x (f (err e)) Q) (s ∙ sym same)
          (bad (stamp w) e (subst (λ x. (q (stamp w) x ≡ err e) ⊎ (e ≡ other)) (sym s) why))

pub Yields-record_event :
    {Q : Unit {0} → Db → Type 0} (d : Db) (e : Event) → Q tt d → Yields d (record_event e) Q
unfolding record_event
Yields-record_event {Q = Q} d e q = record { at = λ w a s h. subst (Q tt) s q }

-- What is known before a call is known after it.
pub Yields-known : {A : Type 0} (P : Type 0) (d : Db) (m : Svc A) → P → Yields d m (λ _ _. P)
Yields-known P d m p = record { at = λ w a s h. p }

-- A check that let the call go on: its condition.
pub check_passed :
    (b : Bool) (e : Error) (w : World) {u : Unit {0}}
    → (check (if b then none else some e) w).0 ≡ ok u
    → b ≡ true
unfolding raise
check_passed true e w h = refl
check_passed false e w h = cc

pub check_refused :
    (b : Bool) (e : Error) (w : World) {u : Unit {0}}
    → (check (if b then some e else none) w).0 ≡ ok u
    → b ≡ false
unfolding raise
check_refused true e w h = cc
check_refused false e w h = refl
