-- ===== src/World/Returns.antt =====
-- What the parts of an action returned, if the whole has returned.
use vaultly.Prelude.{
  ℕ, zero, suc, ◌≡◌, ◌⊎◌, refl, Option, none, some, length, Bool-cases, inl, inr, arith,
}
use vaultly.Domain.{Error}
use vaultly.Db.{Db, Bytes}
use vaultly.World.Defs.{
  Outcome, ok, err, World, Action', continue, ◌>>=◌, random_bytes, drawn, fill, advance, DbError,
  other, land, rename, Stmt, Svc, stamp, run, on_error, in_tx, finish, check, ◌>>◌, pure, raise,
}

module _ {E A B : Type 0} where
  continue-eq-ok :
      (r : Outcome E A) (f : A → Action' E B) (w : World) {b : B}
      → (continue r f w).0 ≡ ok b
      → (a : A) × (r ≡ ok a) × ((f a w).0 ≡ ok b) × ((continue r f w).1 ≡ (f a w).1)
  continue-eq-ok (ok a) f w h = (a, refl, h, refl)
  continue-eq-ok (err e) f w h = cc

  -- A chain that returned: its first part returned, and the rest ran from there.
  pub bind-eq-ok :
      (m : Action' E A) (f : A → Action' E B) (w : World) {b : B}
      → ((m >>= f) w).0 ≡ ok b
      → (a : A) × ((m w).0 ≡ ok a) × ((f a (m w).1).0 ≡ ok b) × (((m >>= f) w).1 ≡ (f a (m w).1).1)
  unfolding ◌>>=◌
  bind-eq-ok m f w h = continue-eq-ok (m w).0 f (m w).1 h

  -- A chain whose first part fails does nothing more.
  pub bind-eq-err :
      (m : Action' E A) (f : A → Action' E B) (w : World) {e : E}
      → (m w).0 ≡ err e
      → (m >>= f) w ≡ (err e, (m w).1)
  unfolding ◌>>=◌
  bind-eq-err m f w h = rw h

  -- A chain whose first part returns goes on from there.
  pub bind_ok :
      (m : Action' E A) (f : A → Action' E B) (w : World) {a : A}
      → (m w).0 ≡ ok a
      → (m >>= f) w ≡ f a (m w).1
  unfolding ◌>>=◌
  bind_ok m f w h = rw h

pub length-fill : (n : ℕ) (f : ℕ → ℕ) → length (fill n f) ≡ n
length-fill zero f = refl
length-fill (suc n) f = rw (length-fill n f)

drawn-eq-ok : (n : ℕ) (o : Option (ℕ → ℕ)) {b : Bytes} → drawn n o ≡ ok b → length b ≡ n
drawn-eq-ok n none h = cc
drawn-eq-ok n (some f) h = ground (arith, length-fill n f)

-- A draw fills its buffer.
pub length-random_bytes :
    (n : ℕ) (w : World) {b : Bytes} → (random_bytes n w).0 ≡ ok b → length b ≡ n
unfolding random_bytes
length-random_bytes n w h = drawn-eq-ok n (w.env.entropy w.tick) h

module _ {A : Type 0} where
  land-eq-ok :
      (r : Outcome DbError (A × Db)) (w : World) {a : A}
      → (land w r).0 ≡ ok a
      → (d : Db) × (r ≡ ok (a, d)) × ((land w r).1.db ≡ d)
  land-eq-ok (ok (b, d)) w {a} h = let e : b ≡ a = cc in (d, rw e, refl)
  land-eq-ok (err e) w h = cc

  -- A statement that returned: what it did to the tables.
  pub run-eq-ok :
      (q : Stmt A) (w : World) {a : A}
      → (run q w).0 ≡ ok a
      → (d : Db) × (q (stamp w) w.db ≡ ok (a, d)) × ((run q w).1.db ≡ d)
  unfolding run
  run-eq-ok q w h = elim (Bool-cases (w.env.fails w.tick)) [
    | inl down ↦ cc (rw (down, run) at h)
    | inr up ↦
        let (d, e, same) = land-eq-ok (q (stamp w) w.db) (advance w) (rw (up, run) at h) in
        (d, e, rw (up, run) same)
  ]

  land-eq-err :
      (r : Outcome DbError (A × Db)) (w : World) {e : DbError}
      → (land w r).0 ≡ err e
      → (r ≡ err e) × ((land w r).1.db ≡ w.db)
  land-eq-err (ok (b, d)) w h = cc
  land-eq-err (err f) w {e} h = let same : f ≡ e = cc in (rw same refl, refl)

  -- A statement that failed, or that was never run: it did nothing.
  pub run-eq-err :
      (q : Stmt A) (w : World) {e : DbError}
      → (run q w).0 ≡ err e
      → ((run q w).1.db ≡ w.db) × ((q (stamp w) w.db ≡ err e) ⊎ (e ≡ other))
  unfolding run
  run-eq-err q w {e} h = elim (Bool-cases (w.env.fails w.tick)) [
    | inl down ↦
        let same : Path (Outcome DbError A) (err other) (err e) = rw (down, run) at h in
        (rw (down, run) refl, inr (cc))
    | inr up ↦
        let (failed, same) = land-eq-err (q (stamp w) w.db) (advance w) (rw (up, run) at h) in
        (rw (up, run) same, inl failed)
  ]

  rename-eq-ok : {E F : Type 0} (f : E → F) (r : Outcome E A) {a : A} → rename f r ≡ ok a → r ≡ ok a
  rename-eq-ok f (ok b) h = cc
  rename-eq-ok f (err e) h = cc

  pub on_error-eq-ok :
      (f : DbError → Error) (q : Stmt A) (w : World) {a : A}
      → (on_error f (run q) w).0 ≡ ok a
      → (d : Db) × (q (stamp w) w.db ≡ ok (a, d)) × ((on_error f (run q) w).1.db ≡ d)
  unfolding on_error
  on_error-eq-ok f q w h = run-eq-ok q w (rename-eq-ok f (run q w).0 h)

-- A query and what follows it, if the whole has returned: what the query did, and from where the
-- rest ran.
pub query-eq-ok :
    {A B : Type 0} (g : DbError → Error) (q : Stmt A) (f : A → Svc B) (w : World) {b : B}
    → ((on_error g (run q) >>= f) w).0 ≡ ok b
    → (a : A) × (w' : World) × (q (stamp w) w.db ≡ ok (a, w'.db))
      × ((f a w').0 ≡ ok b)
      × (((on_error g (run q) >>= f) w).1 ≡ (f a w').1)
query-eq-ok g q f w h =
    let (a, ran, rest, same) = bind-eq-ok (on_error g (run q)) f w h in
    let (d, e, db) = on_error-eq-ok g q w ran in (a, (on_error g (run q) w).1, rw db e, rest, same)

-- A check and what follows it, if the whole has returned: the rest ran from where the check did.
pub check-eq-ok :
    {B : Type 0} (o : Option Error) (f : Svc B) (w : World) {b : B}
    → ((check o >> f) w).0 ≡ ok b
    → ((f w).0 ≡ ok b) × (((check o >> f) w).1 ≡ (f w).1)
unfolding ◌>>=◌ pure raise
check-eq-ok none f w h = (h, refl)
check-eq-ok (some e) f w h = cc

land_continued :
    {A B : Type 0} (g : DbError → Error) (r : Outcome DbError (A × Db)) (f : A → Svc B) (w : World)
    {b : B}
    → (continue (rename g (land w r).0) f (land w r).1).0 ≡ ok b
    → (a : A) × (d : Db) × (r ≡ ok (a, d))
      × ((f a (record w { db = d })).0 ≡ ok b)
      × ((continue (rename g (land w r).0) f (land w r).1).1 ≡ (f a (record w { db = d })).1)
land_continued g (ok (a, d)) f w h = (a, d, refl, h, refl)
land_continued g (err e) f w h = cc

-- A query and what follows it, if the whole has returned: the rest ran from the next tick, on the
-- tables that the query left.
pub query_next :
    {A B : Type 0} (g : DbError → Error) (q : Stmt A) (f : A → Svc B) (w : World) {b : B}
    → ((on_error g (run q) >>= f) w).0 ≡ ok b
    → (a : A) × (d : Db) × (q (stamp w) w.db ≡ ok (a, d))
      × ((f a (record (advance w) { db = d })).0 ≡ ok b)
      × (((on_error g (run q) >>= f) w).1 ≡ (f a (record (advance w) { db = d })).1)
unfolding ◌>>=◌ on_error run
query_next g q f w h = elim (Bool-cases (w.env.fails w.tick)) [
  | inl down ↦ cc (rw down at h)
  | inr up ↦
      let (a, d, e, rest, same) = land_continued g (q (stamp w) w.db) f (advance w) (rw up at h) in
      (a, d, e, rest, rw up same)
]

finish-eq-ok :
    {A : Type 0} (before : Db) (r : Outcome Error A) (w : World) {a : A}
    → (finish before r w).0 ≡ ok a
    → (r ≡ ok a) × ((finish before r w).1.db ≡ w.db)
finish-eq-ok before (err e) w h = cc
finish-eq-ok before (ok b) w h = elim (Bool-cases (w.env.fails w.tick)) [
  | inl down ↦ cc (rw down at h)
  | inr up ↦ (rw up at h, rw up refl)
]

-- A transaction that returned: its body returned, and what the body left is what stays.
pub in_tx-eq-ok :
    {A : Type 0} (body : Svc A) (w : World) {a : A}
    → (in_tx body w).0 ≡ ok a
    → ((body (advance w)).0 ≡ ok a) × ((in_tx body w).1.db ≡ (body (advance w)).1.db)
unfolding in_tx
in_tx-eq-ok body w h = elim (Bool-cases (w.env.fails w.tick)) [
  | inl down ↦ cc (rw (down, in_tx) at h)
  | inr up ↦
      let (e, same) =
        finish-eq-ok w.db (body (advance w)).0 (body (advance w)).1 (rw (up, in_tx) at h) in
      (e, rw up same)
]
