-- ===== src/World/Ensures.antt =====
-- Commands that keep a property `P` of the trace whatever their outcome, and whose result has `Q`
-- where they return. `Keeps` is the case where the result does not matter.
use rdma_pmem.Prelude.{◌≡◌, Bool, true, false, if◌then◌else◌, refl, Option, none, some}
use mathlib.Core.Path.{subst}
use rdma_pmem.World.{Trace, World, Run, ok, fault, out_of_fuel, Cmd, ◌>>=◌, pure, crash, trace_of}

pub data Ends {ℓ} {A : Type ℓ} (P : Trace → Type 0) (Q : A → Type 0) : Run A → Type ℓ where
  returned : {a : A} {t : Trace} → P t → Q a → Ends P Q (ok a t)
  faulted : {t : Trace} → P t → Ends P Q (fault t)
  unfinished : {t : Trace} → P t → Ends P Q (out_of_fuel t)

pub record Ensures {ℓ} {A : Type ℓ} (w : World) (P : Trace → Type 0) (Q : A → Type 0) (m : Cmd A)
    : Type ℓ where
  pub run : (t : Trace) → P t → Ends P Q (m w t)

module _ {ℓ} {A : Type ℓ} {w : World} {P : Trace → Type 0} {Q : A → Type 0} where
  pub step : (m : Cmd A) → ((t : Trace) → P t → Ends P Q (m w t)) → Ensures w P Q m
  step m h = record { run = h }

  pub pure-Ensures : (a : A) → Q a → Ensures w P Q (pure a)
  pure-Ensures a q = record { run = λ t p. returned p q }

  pub crash-Ensures : Ensures w P Q crash
  crash-Ensures = record { run = λ t p. faulted p }

  pub bind_run {κ} :
      {B : Type κ} {R : B → Type 0} {r : Run B} (k : B → Cmd A)
      → Ends P R r
      → ((b : B) → R b → Ensures w P Q (k b))
      → Ends P Q (elim r [ ok b s ↦ k b w s | fault s ↦ fault s | out_of_fuel s ↦ out_of_fuel s ])
  bind_run k (returned p q) next = (next _ q).run _ p
  bind_run k (faulted p) next = faulted p
  bind_run k (unfinished p) next = unfinished p

  pub bind {κ} :
      {B : Type κ} {R : B → Type 0} {m : Cmd B} {k : B → Cmd A}
      → Ensures w P R m
      → ((b : B) → R b → Ensures w P Q (k b))
      → Ensures w P Q (m >>= k)
  bind {m} {k} h next = record { run = λ t p. bind_run k (h.run t p) next }

  -- a first part whose result does not matter, or that does not return
  pub next {κ} :
      {B : Type κ} {m : Cmd B} {k : B → Cmd A}
      → Ensures w P (λ b. Unit {0}) m
      → ((b : B) → Ensures w P Q (k b))
      → Ensures w P Q (m >>= k)
  next h rest = bind h λ b any. rest b

  pub never {κ} :
      {B : Type κ} {m : Cmd B} (k : B → Cmd A) → Ensures w P (λ b. ⊥) m → Ensures w P Q (m >>= k)
  never k h = bind h λ b none. absurd none

  pub branch :
      (b : Bool) {m n : Cmd A}
      → Ensures w P Q m
      → Ensures w P Q n
      → Ensures w P Q (if b then m else n)
  branch true h g = h
  branch false h g = g

  pub on_option {κ} :
      {B : Type κ} (o : Option B) {m : Cmd A} {k : B → Cmd A}
      → (o ≡ none → Ensures w P Q m)
      → ((b : B) → o ≡ some b → Ensures w P Q (k b))
      → Ensures w P Q (elim o [ none ↦ m | some b ↦ k b ])
  on_option none h g = h refl
  on_option (some b) h g = g b refl

-- the trace of a run, whatever its outcome
pub at_end {ℓ} :
    {A : Type ℓ} {P : Trace → Type 0} {Q : A → Type 0} {r : Run A} → Ends P Q r → P (trace_of r)
at_end (returned p q) = p
at_end (faulted p) = p
at_end (unfinished p) = p

-- nothing is said of the trace, nor of the result
pub any_run {ℓ} : {A : Type ℓ} {w : World} (m : Cmd A) → Ensures w (λ t. Unit {0}) (λ a. Unit {0}) m
any_run {A} {w} m = record { run = λ t p. from (m w t) }
  where
    from : (r : Run A) → Ends (λ t. Unit {0}) (λ a. Unit {0}) r
    from (ok a t) = returned tt tt
    from (fault t) = faulted tt
    from (out_of_fuel t) = unfinished tt

pub at_return {ℓ} :
    {A : Type ℓ} {P : Trace → Type 0} {Q : A → Type 0} {r : Run A}
    → Ends P Q r
    → (a : A) (t : Trace) → r ≡ ok a t
    → Q a
at_return {Q} (returned {a = b} {t = s} p q) a t e = let same : b ≡ a = cc in subst Q same q
at_return (faulted p) a t e = cc
at_return (unfinished p) a t e = cc
