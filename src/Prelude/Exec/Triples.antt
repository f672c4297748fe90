-- ===== src/Prelude/Exec/Triples.antt =====
-- What an action guarantees: from a state where `P` holds, `Q` of what it returns or `E` where it
-- raises, with one rule for each way to build an action.
use mathlib.Core.Path.{◌≡◌, refl}
use mathlib.Core.Bool.{Bool, true, false}
use fcapsule_lab.Prelude.Tests.{if◌then◌else◌}
use fcapsule_lab.Prelude.Exec.Defs.{
  Exc, Result, ok, err, Exec, pure, raise, lift, gets, modify, catch, ensure, ◌>>=◌, continue,
  recover_from, concluded,
}
use fcapsule_lab.Prelude.Exec.Rules.{Keeps}

module _ {ℓ} {S A : Type ℓ} where
  abbrev pub Outcome : (Q : A → S → Type ℓ) (E : Exc → S → Type ℓ) → Result A → S → Type ℓ
  Outcome Q E (ok value) after = Q value after
  Outcome Q E (err problem) after = E problem after

  -- `at` holds of every state where the precondition does.
  pub record Runs (P : S → Type ℓ) (Q : A → S → Type ℓ) (E : Exc → S → Type ℓ) (act : Exec S A)
      : Type ℓ where
    pub at : (before : S) → P before → Outcome Q E (act before).0 (act before).1

module _ {ℓ} {S A : Type ℓ} {P : S → Type ℓ} {Q : A → S → Type ℓ} {E : Exc → S → Type ℓ} where
  pub Runs-pure : (value : A) → ((s : S) → P s → Q value s) → Runs P Q E (pure value)
  unfolding pure
  Runs-pure value reason = record { at = reason }

  pub Runs-raise : (problem : Exc) → ((s : S) → P s → E problem s) → Runs P Q E (raise problem)
  unfolding raise
  Runs-raise problem reason = record { at = reason }

  pub Runs-gets : (read : S → A) → ((s : S) → P s → Q (read s) s) → Runs P Q E (gets read)
  unfolding gets
  Runs-gets read reason = record { at = reason }

  pub Runs-lift :
      (known : Result A) → ((s : S) → P s → Outcome Q E known s) → Runs P Q E (lift known)
  unfolding lift
  Runs-lift known reason = record { at = reason }

  pub Runs-if :
      (test : Bool) {then_act else_act : Exec S A}
      → Runs P Q E then_act
      → Runs P Q E else_act
      → Runs P Q E (if test then then_act else else_act)
  Runs-if true first second = first
  Runs-if false first second = second

module _ {S : Type 0} {P : S → Type 0} {Q : Unit {0} → S → Type 0} {E : Exc → S → Type 0} where
  pub Runs-modify :
      (change : S → S) → ((s : S) → P s → Q tt (change s)) → Runs P Q E (modify change)
  unfolding modify
  Runs-modify change reason = record { at = reason }

module _ {ℓ} {S A B : Type ℓ} {R : A → S → Type ℓ} {Q : B → S → Type ℓ} {E : Exc → S → Type ℓ} where
  resumed :
      (came : Result A) (rest : A → Exec S B) (after : S)
      → ((value : A) → Runs (R value) Q E (rest value))
      → Outcome R E came after
      → Outcome Q E (continue came rest after).0 (continue came rest after).1
  resumed (ok value) rest after each h = (each value).at after h
  resumed (err problem) rest after each h = h

  pub Runs-bind :
      {P : S → Type ℓ} {first : Exec S A} {rest : A → Exec S B}
      → Runs P R E first
      → ((value : A) → Runs (R value) Q E (rest value))
      → Runs P Q E (first >>= rest)
  unfolding ◌>>=◌
  Runs-bind {first} {rest} now later = record {
    at = λ before h. resumed (first before).0 rest (first before).1 later (now.at before h);
  }

module _ {ℓ} {S A : Type ℓ} {Q : A → S → Type ℓ} {E F : Exc → S → Type ℓ} where
  handled :
      (came : Result A) (test : Exc → Bool) (handler : Exc → Exec S A) (after : S)
      → ((problem : Exc) → test problem ≡ true → Runs (E problem) Q F (handler problem))
      → ((problem : Exc) → test problem ≡ false → (s : S) → E problem s → F problem s)
      → Outcome Q E came after
      → Outcome Q F
          (recover_from came test handler after).0
          (recover_from came test handler after).1
  handled (ok value) test handler after each passes h = h
  handled (err problem) test handler after each passes h =
      chosen (test problem) (each problem) λ e. passes problem e
    where
      chosen :
          (b : Bool)
          → (b ≡ true → Runs (E problem) Q F (handler problem))
          → (b ≡ false → (s : S) → E problem s → F problem s)
          → Outcome Q F
              ((if b then handler problem else (λ s. (err problem, s))) after).0
              ((if b then handler problem else (λ s. (err problem, s))) after).1
      chosen true caught passed = (caught refl).at after h
      chosen false caught passed = passed refl after h

  pub Runs-catch :
      {P : S → Type ℓ} (test : Exc → Bool) {tried : Exec S A} {handler : Exc → Exec S A}
      → Runs P Q E tried
      → ((problem : Exc) → test problem ≡ true → Runs (E problem) Q F (handler problem))
      → ((problem : Exc) → test problem ≡ false → (s : S) → E problem s → F problem s)
      → Runs P Q F (catch test tried handler)
  unfolding catch
  Runs-catch test {tried} {handler} first each passes = record {
    at = λ before h.
        handled (tried before).0 test handler (tried before).1 each passes (first.at before h);
  }

module _ {ℓ} {S A B : Type ℓ} {Q R : A → S → Type ℓ} {E F : Exc → S → Type ℓ} where
  settled :
      (came : Result A) {last : Exec S B} (between : S)
      → ((value : A) → Runs (R value) (λ _. Q value) F last)
      → ((problem : Exc) → Runs (E problem) (λ _. F problem) F last)
      → Outcome R E came between
      → Outcome Q F (concluded came (last between).0) (last between).1
  settled (ok value) {last} between after_value after_raise h =
      closed (ok value) (last between).0 (last between).1 ((after_value value).at between h)
    where
      closed :
          (c : Result A) (ended : Result B) (after : S)
          → Outcome (λ _. Outcome Q F c) F ended after
          → Outcome Q F (concluded c ended) after
      closed c (ok _) after k = k
      closed c (err problem) after k = k
  settled (err problem) {last} between after_value after_raise h =
      closed (err problem) (last between).0 (last between).1 ((after_raise problem).at between h)
    where
      closed :
          (c : Result A) (ended : Result B) (after : S)
          → Outcome (λ _. Outcome Q F c) F ended after
          → Outcome Q F (concluded c ended) after
      closed c (ok _) after k = k
      closed c (err problem) after k = k

  pub Runs-ensure :
      {P : S → Type ℓ} {tried : Exec S A} {last : Exec S B}
      → Runs P R E tried
      → ((value : A) → Runs (R value) (λ _. Q value) F last)
      → ((problem : Exc) → Runs (E problem) (λ _. F problem) F last)
      → Runs P Q F (ensure tried last)
  unfolding ensure
  Runs-ensure {tried} {last} first after_value after_raise = record {
    at = λ before h.
        settled (tried before).0 (tried before).1 after_value after_raise (first.at before h);
  }

module _ {ℓ} {S A : Type ℓ} {P : S → Type ℓ} {act : Exec S A} where
  -- The two ways to say that an action keeps a predicate.
  pub Keeps→Runs : Keeps P act → Runs P (λ _. P) (λ _. P) act
  Keeps→Runs kept = record {
    at = λ before h. same (act before).0 (act before).1 (kept.at before h);
  }
    where
      same : (came : Result A) (after : S) → P after → Outcome (λ _. P) (λ _. P) came after
      same (ok value) after h = h
      same (err problem) after h = h

  pub Runs→Keeps : Runs P (λ _. P) (λ _. P) act → Keeps P act
  Runs→Keeps runs = record {
    at = λ before h. same (act before).0 (act before).1 (runs.at before h);
  }
    where
      same : (came : Result A) (after : S) → Outcome (λ _. P) (λ _. P) came after → P after
      same (ok value) after h = h
      same (err problem) after h = h

module _ {ℓ} {S A : Type ℓ} where
  -- The postconditions weakened, and the precondition strengthened.
  pub Runs-weaken :
      {P P' : S → Type ℓ} {Q Q' : A → S → Type ℓ} {E E' : Exc → S → Type ℓ} {act : Exec S A}
      → ((s : S) → P' s → P s)
      → ((value : A) (s : S) → Q value s → Q' value s)
      → ((problem : Exc) (s : S) → E problem s → E' problem s)
      → Runs P Q E act
      → Runs P' Q' E' act
  Runs-weaken {P} {P'} {Q} {Q'} {E} {E'} {act} before_too value_too problem_too runs = record {
    at = λ s h. weaker (act s).0 (act s).1 (runs.at s (before_too s h));
  }
    where
      weaker : (came : Result A) (after : S) → Outcome Q E came after → Outcome Q' E' came after
      weaker (ok value) after h = value_too value after h
      weaker (err problem) after h = problem_too problem after h

  -- A fact of the values in scope lasts.
  pub Runs-framed :
      {C : Type ℓ} {P : S → Type ℓ} {Q : A → S → Type ℓ} {E : Exc → S → Type ℓ} {act : Exec S A}
      → Runs P Q E act
      → Runs (λ s. C × P s) (λ value s. C × Q value s) (λ problem s. C × E problem s) act
  Runs-framed {C} {P} {Q} {E} {act} runs = record {
    at = λ s (fact, h). beside fact (act s).0 (act s).1 (runs.at s h);
  }
    where
      beside :
          (fact : C) (came : Result A) (after : S)
          → Outcome Q E came after
          → Outcome (λ value s. C × Q value s) (λ problem s. C × E problem s) came after
      beside fact (ok value) after h = (fact, h)
      beside fact (err problem) after h = (fact, h)

  -- An action that keeps another predicate as well.
  pub Runs-beside :
      {P R : S → Type ℓ} {Q : A → S → Type ℓ} {E F : Exc → S → Type ℓ} {act : Exec S A}
      → Runs P Q E act
      → Keeps R act
      → ((problem : Exc) (s : S) → E problem s × R s → F problem s)
      → Runs (λ s. P s × R s) (λ value s. Q value s × R s) F act
  Runs-beside {P} {R} {Q} {E} {F} {act} runs kept ends = record {
    at = λ s (h, k). both (act s).0 (act s).1 (runs.at s h) (kept.at s k);
  }
    where
      both :
          (came : Result A) (after : S)
          → Outcome Q E came after
          → R after
          → Outcome (λ value s. Q value s × R s) F came after
      both (ok value) after h k = (h, k)
      both (err problem) after h k = ends problem after (h, k)

module _ {ℓ} {S A : Type ℓ} {P : S → Type ℓ} {Q : A → S → Type ℓ} {E : Exc → S → Type ℓ} where
  -- A fact of the values in scope that the precondition carries.
  pub Runs-assuming :
      {C : Type ℓ} {act : Exec S A} → (C → Runs P Q E act) → Runs (λ s. C × P s) Q E act
  Runs-assuming {C} {act} reason = record { at = λ s (fact, h). (reason fact).at s h }

  pub Runs-branch :
      (test : Bool) {then_act else_act : Exec S A}
      → (test ≡ true → Runs P Q E then_act)
      → (test ≡ false → Runs P Q E else_act)
      → Runs P Q E (if test then then_act else else_act)
  Runs-branch true first second = first refl
  Runs-branch false first second = second refl

module _ {S A : Type 0} where
  -- An action that cannot raise returns.
  pub Runs-returns :
      {P : S → Type 0} {Q : A → S → Type 0} {act : Exec S A}
      → Runs P Q (λ _ _. ⊥) act
      → (s : S) → P s
      → (value : A) × ((act s).0 ≡ ok value) × Q value (act s).1
  Runs-returns {P} {Q} {act} runs s h = returns Q (act s).0 (act s).1 (runs.at s h)
    where
      returns :
          (Q : A → S → Type 0) (came : Result A) (after : S)
          → Outcome Q (λ _ _. ⊥) came after
          → (value : A) × (came ≡ ok value) × Q value after
      returns Q (ok value) after h = (value, refl, h)
      returns Q (err problem) after h = absurd h
