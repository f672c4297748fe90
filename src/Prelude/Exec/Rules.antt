-- ===== src/Prelude/Exec/Rules.antt =====
-- Predicates of the state that an action keeps, whether it returns or raises: one rule for each
-- way to build an action.
use native.Mathlib.Omega.{arith}
use mathlib.Core.Path.{◌≡◌, refl, ap}
use mathlib.Core.Bool.{Bool, true, false}
use fcapsule_lab.Prelude.Tests.{if◌then◌else◌}
use fcapsule_lab.Prelude.Exec.Defs.{
  Exc, Result, ok, err, and_then, Exec, pure, raise, lift, gets, catch, ◌>>=◌, continue,
  recover_from,
}

-- Inversion of a chain of results that succeeds.
pub and_then-ok {ℓ κ} :
    {A : Type ℓ} {B : Type κ} (r : Result A) (f : A → Result B) (b : B)
    → and_then r f ≡ ok b
    → (a : A) × (r ≡ ok a) × (f a ≡ ok b)
and_then-ok (ok a) f b h = (a, refl, h)
and_then-ok (err e) f b h = cc

abbrev value_or {ℓ} : {A : Type ℓ} → A → Result A → A
value_or d (ok v) = v
value_or d (err e) = d

pub ok_inj {ℓ} : {A : Type ℓ} (a b : A) → ok a ≡ ok b → a ≡ b
ok_inj a b h i = value_or a (h i)

-- Inversion of an action that succeeds after a lifted result.
pub lifted-ok :
    {S A B : Type 0} (r : Result A) (rest : A → Exec S B) (s t : S) (b : B)
    → (lift r >>= rest) s ≡ (ok b, t)
    → (a : A) × (r ≡ ok a) × (rest a s ≡ (ok b, t))
unfolding lift ◌>>=◌
lifted-ok (ok a) rest s t b h = (a, refl, h)
lifted-ok (err e) rest s t b h = let wrong = ap (λ x. x.0) h in cc

-- A guarded value that comes back passed its guard.
pub guarded-ok {ℓ} :
    {A : Type ℓ} (test : Bool) (r : Result A) (e : Exc) (b : A)
    → (if test then r else err e) ≡ ok b
    → (test ≡ true) × (r ≡ ok b)
guarded-ok true r e b h = (refl, h)
guarded-ok false r e b h = cc

-- Inversion of an action that returns.
pub bind-ok {ℓ} :
    {S A B : Type ℓ} (m : Exec S A) (f : A → Exec S B) (s : S) (b : B) (t : S)
    → (m >>= f) s ≡ (ok b, t)
    → (a : A) × (m s ≡ (ok a, (m s).1)) × (f a (m s).1 ≡ (ok b, t))
unfolding ◌>>=◌
bind-ok m f s b t h = from_result (m s).0 refl
  where
    from_result :
        (r : Result _) → (m s).0 ≡ r → (a : _) × (m s ≡ (ok a, (m s).1)) × (f a (m s).1 ≡ (ok b, t))
    from_result (ok a) e = (a, λ i. (e i, (m s).1), ground arith)
    from_result (err e') e = absurd (ground arith)

-- `at` holds whatever result comes back.
pub record Keeps {ℓ} {S A : Type ℓ} (Inv : S → Type ℓ) (act : Exec S A) : Type ℓ where
  pub at : (before : S) → Inv before → Inv (act before).1

module _ {ℓ} {S : Type ℓ} {Inv : S → Type ℓ} {A : Type ℓ} where
  -- An answer that does not depend on what an action writes: the state is as before.
  answering : (answer : S → Result A) → Keeps Inv (λ before. (answer before, before))
  answering answer = record { at = λ before kept. kept }

  pub Keeps-gets : (read : S → A) → Keeps Inv (gets read)
  unfolding gets
  Keeps-gets read = answering λ before. ok (read before)

  pub Keeps-lift : (known : Result A) → Keeps Inv (lift known)
  unfolding lift
  Keeps-lift known = answering λ before. known

  pub Keeps-pure : (value : A) → Keeps Inv (pure value)
  unfolding pure
  Keeps-pure value = answering λ before. ok value

  pub Keeps-raise : (problem : Exc) → Keeps Inv (raise {A = A} problem)
  unfolding raise
  Keeps-raise problem = answering λ before. err problem

  pub Keeps-if :
      (test : Bool) (then_act else_act : Exec S A)
      → Keeps Inv then_act
      → Keeps Inv else_act
      → Keeps Inv (if test then then_act else else_act)
  Keeps-if false then_act else_act then_keeps else_keeps = else_keeps
  Keeps-if true then_act else_act then_keeps else_keeps = then_keeps

  handled :
      (came : Result A) (test : Exc → Bool) (handler : Exc → Exec S A)
      → ((problem : Exc) → Keeps Inv (handler problem))
      → Keeps Inv (recover_from came test handler)
  handled (err problem) test handler each =
      Keeps-if (test problem) (handler problem) _ (each problem) (answering λ before. err problem)
  handled (ok value) test handler each = answering λ before. ok value

  pub Keeps-catch :
      (test : Exc → Bool) (tried : Exec S A) (handler : Exc → Exec S A)
      → Keeps Inv tried
      → ((problem : Exc) → Keeps Inv (handler problem))
      → Keeps Inv (catch test tried handler)
  unfolding catch
  Keeps-catch test tried handler first each = record {
    at = λ before kept.
        (handled (tried before).0 test handler each).at (tried before).1 (first.at before kept);
  }

module _ {ℓ} {S : Type ℓ} {Inv : S → Type ℓ} {A B : Type ℓ} where
  resumed :
      (came : Result A) (rest : A → Exec S B)
      → ((value : A) → Keeps Inv (rest value))
      → Keeps Inv (continue came rest)
  resumed (err problem) rest each = answering λ before. err problem
  resumed (ok value) rest each = record { at = (each value).at }

  pub Keeps-bind :
      (first : Exec S A) (rest : A → Exec S B)
      → Keeps Inv first
      → ((value : A) → Keeps Inv (rest value))
      → Keeps Inv (first >>= rest)
  unfolding ◌>>=◌
  Keeps-bind first rest now later = record {
    at = λ before kept.
        (resumed (first before).0 rest later).at (first before).1 (now.at before kept);
  }

pub ruleset keeps_rules =
    (Keeps-bind, Keeps-catch, Keeps-if, Keeps-lift, Keeps-gets, Keeps-pure, Keeps-raise)
