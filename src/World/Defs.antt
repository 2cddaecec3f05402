-- ===== src/World/Defs.antt =====
-- Service calls as actions: a statement, a transaction, an audit record, a draw of random bytes.
-- Each of them moves the clock, by which the outside world decides what it meets.
use vaultly.Prelude.{
  ℕ, zero, suc, ◌+◌, Bool, Option, none, some, List, [], ◌∷◌, ◌++◌, String, Text, length, ltb,
  if◌then◌else◌,
}
use vaultly.Domain.{Error, Action}
use vaultly.Db.{Db, Bytes}

pub data Outcome (E A : Type 0) : Type 0 where
  ok : A → Outcome E A
  err : E → Outcome E A

-- What a database call can report: no row, the constraint violations that `translateDBError`
-- names, and anything else (a lost connection, a timeout, an integer out of range).
pub data DbError : Type 0 where
  no_rows unique_violation foreign_key_violation check_violation other : DbError

-- The outside world, by the clock: whether the statement fails, the identifier that the database
-- generates, the time, and the bytes that the system's generator returns (`none` if it fails).
pub record Env : Type 0 where
  pub fails : ℕ → Bool
  pub uuid : ℕ → ℕ
  pub now : ℕ → ℕ
  pub entropy : ℕ → Option (ℕ → ℕ)

-- The values of an audit event's metadata.
pub data Meta : Type 0 where
  text : Text → Meta
  number : ℕ → Meta
  texts : List Text → Meta

-- Who acts; the address is absent where the source's is not valid.
pub record Actor : Type 0 where
  pub user_id : Option ℕ
  pub token_id : Option ℕ
  pub ip : Option ℕ
  pub user_agent : Text

pub record Event : Type 0 where
  pub workspace_id : ℕ
  pub actor : Actor
  pub action : Action
  pub resource_type : String
  pub resource_id : Option ℕ
  pub metadata : List (String × Meta)

-- The recorder as the services see it: its channel and its count of dropped events.
pub record Recorder : Type 0 where
  pub events : List Event
  pub capacity : ℕ
  pub dropped : ℕ

pub record World : Type 0 where
  pub env : Env
  pub tick : ℕ
  pub db : Db
  pub audit : Recorder

abbrev pub Action' : Type 0 → Type 0 → Type 0
Action' E A = World → Outcome E A × World

-- A call of a service, and a call of a query.
abbrev pub Svc : Type 0 → Type 0
Svc = Action' Error

abbrev pub Sql : Type 0 → Type 0
Sql = Action' DbError

abbrev pub advance : World → World
advance w = record w { tick = suc w.tick }

module _ {E A : Type 0} where
  unfoldable pub pure : A → Action' E A
  pure a w = (ok a, w)

  unfoldable pub raise : E → Action' E A
  raise e w = (err e, w)

  unfoldable pub lift : Outcome E A → Action' E A
  lift r w = (r, w)

module _ {E A B : Type 0} where
  abbrev pub continue : Outcome E A → (A → Action' E B) → Action' E B
  continue (ok a) f w = f a w
  continue (err e) f w = (err e, w)

  infixl 5 ◌>>=◌ ◌>>◌
  unfoldable pub ◌>>=◌ : Action' E A → (A → Action' E B) → Action' E B
  unfolding pure raise lift
  ◌>>=◌ m f w = let (r, w') = m w in continue r f w'

  abbrev pub ◌>>◌ : Action' E A → Action' E B → Action' E B
  m >> k = m >>= λ _. k

-- `if err := …; err != nil { return err }` on a check that returns an error or nil.
abbrev pub check : Option Error → Svc (Unit {0})
check none = pure tt
check (some e) = raise e

-- What a statement is given: the time and a generated identifier.
pub record Stamp : Type 0 where
  pub time : ℕ
  pub uuid : ℕ

abbrev pub stamp : World → Stamp
stamp w = record { time = w.env.now w.tick; uuid = w.env.uuid w.tick }

-- A statement reads the database, and reports an error or its result with the database after it.
abbrev pub Stmt : Type 0 → Type 0
Stmt A = Stamp → Db → Outcome DbError (A × Db)

abbrev pub land : {A : Type 0} → World → Outcome DbError (A × Db) → Outcome DbError A × World
land w (err e) = (err e, w)
land w (ok (a, d)) = (ok a, record w { db = d })

-- Runs one statement. Where it fails, it has changed nothing.
unfoldable pub run : {A : Type 0} → Stmt A → Sql A
run q w = if w.env.fails w.tick then (err other, advance w) else land (advance w) (q (stamp w) w.db)

-- `translateDBError`
unfoldable pub translate_db_error : DbError → Error
translate_db_error no_rows = Error.not_found
translate_db_error unique_violation = Error.conflict
translate_db_error foreign_key_violation = Error.not_found
translate_db_error check_violation = Error.invalid
translate_db_error other = Error.internal

abbrev pub rename : {E F A : Type 0} → (E → F) → Outcome E A → Outcome F A
rename f (ok a) = ok a
rename f (err e) = err (f e)

-- A query whose error the caller turns into one of its own.
unfoldable pub on_error : {A : Type 0} → (DbError → Error) → Sql A → Svc A
on_error f m w = let (r, w') = m w in (rename f r, w')

abbrev pub translated : {A : Type 0} → Sql A → Svc A
translated m = on_error translate_db_error m

-- The end of `InTx`: an error restores the tables, and so does a commit that fails.
abbrev pub finish : {A : Type 0} → Db → Outcome Error A → World → Outcome Error A × World
finish before (err e) w = (err e, record w { db = before })
finish before (ok a) w =
    if w.env.fails w.tick
    then (err Error.internal, record (advance w) { db = before })
    else (ok a, advance w)

-- `InTx`
unfoldable pub in_tx : {A : Type 0} → Svc A → Svc A
in_tx body w =
    if w.env.fails w.tick
    then (err Error.internal, advance w)
    else let (r, w') = body (advance w) in finish w.db r w'

-- `Record`: it never blocks, and an event that finds the queue full is dropped and counted.
unfoldable pub enqueue : Event → Recorder → Recorder
enqueue e r =
    if ltb (length r.events) r.capacity
    then record r { events = r.events ++ e ∷ [] }
    else record r { dropped = r.dropped + 1 }

unfoldable pub record_event : Event → Svc (Unit {0})
unfolding enqueue
record_event e w = (ok tt, record w { audit = enqueue e w.audit })

abbrev pub fill : ℕ → (ℕ → ℕ) → Bytes
fill zero f = []
fill (suc n) f = f n ∷ fill n f

abbrev pub drawn : ℕ → Option (ℕ → ℕ) → Outcome Error Bytes
drawn n none = err Error.internal
drawn n (some f) = ok (fill n f)

-- `rand.Read` into a buffer of `n` bytes.
unfoldable pub random_bytes : ℕ → Svc Bytes
random_bytes n w = (drawn n (w.env.entropy w.tick), advance w)
