-- ===== src/ConnectInject/Outcome.antt =====
-- What a method of control-plane/connect-inject/controllers/endpoints returns: a value, an error, or a
-- panic, which no caller recovers from.
use consul_k8s.Base.{String, ◌≡◌, refl, ◌⊎◌, inl, inr, Option, none, some, Result, ok, err}

pub data Outcome (A : Type 0) : Type 0 where
  panic : Outcome A
  fail : String → Outcome A
  done : A → Outcome A

-- `abbrev`, so that `done a >>= f` computes wherever it stands.
infixl 5 ◌>>=◌
abbrev pub ◌>>=◌ : {A B : Type 0} → Outcome A → (A → Outcome B) → Outcome B
panic >>= f = panic
fail e >>= f = fail e
done a >>= f = f a

abbrev pub returned : {A : Type 0} → Result A → Outcome A
returned (err e) = fail e
returned (ok a) = done a

-- A value that may be missing, with the text of the error.
abbrev pub required : {A : Type 0} → String → Option A → Outcome A
required e none = fail e
required e (some a) = done a

-- A pair with an error beside the value.
abbrev pub checked : {A : Type 0} → Option String → A → Outcome A
checked none a = done a
checked (some e) a = fail e

pub >>=-eq-done :
    {A B : Type 0} (m : Outcome A) (f : A → Outcome B) {b : B}
    → (m >>= f) ≡ done b
    → (a : A) × (m ≡ done a) × (f a ≡ done b)
>>=-eq-done panic f h = cc
>>=-eq-done (fail e) f h = cc
>>=-eq-done (done a) f h = (a, refl, h)

pub Outcome-cases :
    {A : Type 0} (m : Outcome A)
    → ((a : A) × (m ≡ done a)) ⊎ (((e : String) × (m ≡ fail e)) ⊎ (m ≡ panic))
Outcome-cases panic = inr (inr refl)
Outcome-cases (fail e) = inr (inl (e, refl))
Outcome-cases (done a) = inl (a, refl)
