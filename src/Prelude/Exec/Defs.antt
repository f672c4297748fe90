-- ===== src/Prelude/Exec/Defs.antt =====
-- Exceptions by class, and the monad of methods that change a state and may raise.
use Prim.Native.Nat.{ℕ}
use Prim.Native.String.{String}
use mathlib.Core.Option.{Option}
use mathlib.Core.Bool.{Bool}
use fcapsule_lab.Prelude.Tests.{if◌then◌else◌}

-- The exceptions that the services raise or catch. `OSError` is split as its handlers split it:
-- a response with an error status, a time-out, and the other transport errors.
pub data Exc : Type 0 where
  value_error : String → Exc
  os_error : String → Exc
  timeout_error : Exc
  http_error : ℕ → Exc
  key_error : String → Exc
  type_error : Exc
  attribute_error : Exc
  -- pymysql.MySQLError: IntegrityError, OperationalError, and its other subclasses, by their code
  integrity_error : ℕ → Exc
  operational_error : ℕ → Exc
  mysql_error : ℕ → Exc
  broken_barrier_error : Exc
  -- psycopg.Error: LockNotAvailable, another OperationalError by its SQLSTATE, and its other subclasses
  lock_not_available : Exc
  postgres_operational : Option String → Exc
  postgres_error : Exc
  other_error : Exc

pub data Result {ℓ} (A : Type ℓ) : Type ℓ where
  ok : A → Result A
  err : Exc → Result A

abbrev pub and_then {ℓ κ} : {A : Type ℓ} {B : Type κ} → Result A → (A → Result B) → Result B
and_then (ok a) f = f a
and_then (err e) f = err e

-- A method: from the state before it to its outcome, and the state that it leaves either way.
abbrev pub Exec {ℓ} : (S A : Type ℓ) → Type ℓ
Exec S A = (before : S) → Result A × S

module _ {S : Type 0} where
  unfoldable pub modify : (S → S) → Exec S (Unit {0})
  modify change before = (ok tt, change before)

module _ {ℓ} {S : Type ℓ} {A : Type ℓ} where
  unfoldable pub gets : (S → A) → Exec S A
  gets read before = (ok (read before), before)

  unfoldable pub lift : Result A → Exec S A
  lift known before = (known, before)

  unfoldable pub raise : Exc → Exec S A
  raise problem before = (err problem, before)

  unfoldable pub pure : A → Exec S A
  pure value before = (ok value, before)

  abbrev pub recover_from : Result A → (Exc → Bool) → (Exc → Exec S A) → Exec S A
  recover_from (ok value) test handler = λ before. (ok value, before)
  recover_from (err problem) test handler =
      if test problem then handler problem else (λ before. (err problem, before))

  -- try: tried  except <the classes of `test`> as e: handler(e)
  unfoldable pub catch : (Exc → Bool) → Exec S A → (Exc → Exec S A) → Exec S A
  catch test tried handler before =
      let (came, after) = tried before in recover_from came test handler after

-- What `try: tried finally: last` comes to, once `last` ran: an exception of `last` replaces all.
abbrev pub concluded {ℓ} : {A B : Type ℓ} → Result A → Result B → Result A
concluded came (ok value) = came
concluded came (err problem) = err problem

module _ {ℓ} {S : Type ℓ} {A : Type ℓ} {B : Type ℓ} where
  -- try: tried  finally: last
  unfoldable pub ensure : Exec S A → Exec S B → Exec S A
  ensure tried last before =
      let (came, between) = tried before in
      let (ended, after) = last between in (concluded came ended, after)

  abbrev pub continue : Result A → (A → Exec S B) → Exec S B
  continue (err problem) rest before = (err problem, before)
  continue (ok value) rest before = rest value before

  infixl 10 ◌>>◌ ◌>>=◌
  -- Opening this opens the other ways to build an action too.
  unfoldable pub ◌>>=◌ : (first : Exec S A) → (A → Exec S B) → Exec S B
  unfolding catch gets lift modify pure raise
  ◌>>=◌ first rest before = let (came, after) = first before in continue came rest after

  abbrev pub ◌>>◌ : (first : Exec S A) → Exec S B → Exec S B
  first >> next = first >>= (λ value. next)
