-- ===== src/World/After.antt =====
-- A postcondition of the runs that return: partial correctness, with a rule for each way to
-- compose commands.
use rdma_pmem.Prelude.{◌≡◌, refl, Bool, true, false, if◌then◌else◌, Option, none, some}
use mathlib.Core.Path.{subst₂}
use rdma_pmem.World.{Trace, World, Run, ok, fault, out_of_fuel, Cmd}

pub data After {ℓ κ} {A : Type ℓ} (Q : A → Trace → Type κ) : Run A → Type (ℓ ⊔ κ) where
  returned : {a : A} {t : Trace} → Q a t → After Q (ok a t)
  faulted : {t : Trace} → After Q (fault t)
  unfinished : {t : Trace} → After Q (out_of_fuel t)

module _ {ℓ κ} {A : Type ℓ} {Q : A → Trace → Type κ} where
  pub intro : (r : Run A) → ((a : A) (t : Trace) → r ≡ ok a t → Q a t) → After Q r
  intro (ok a t) h = returned (h a t refl)
  intro (fault t) h = faulted
  intro (out_of_fuel t) h = unfinished

  pub apply : {r : Run A} → After Q r → (a : A) (t : Trace) → r ≡ ok a t → Q a t
  apply (returned {a = b} {t = s} q) a t e =
      let same : b ≡ a = cc in let there : s ≡ t = cc in subst₂ Q same there q
  apply faulted a t e = cc
  apply unfinished a t e = cc

  pub bind {μ ν} :
      {B : Type μ} {P : B → Trace → Type ν} (w : World) {r : Run B} (k : B → Cmd A)
      → After P r
      → ((b : B) (s : Trace) → P b s → After Q (k b w s))
      → After Q (elim r [ ok b s ↦ k b w s | fault s ↦ fault s | out_of_fuel s ↦ out_of_fuel s ])
  bind w k (returned p) next = next _ _ p
  bind w k faulted next = faulted
  bind w k unfinished next = unfinished

  pub test :
      (w : World) (b : Bool) (m n : Cmd A) (t : Trace)
      → (b ≡ true → After Q (m w t))
      → (b ≡ false → After Q (n w t))
      → After Q ((if b then m else n) w t)
  test w true m n t h g = h refl
  test w false m n t h g = g refl

  pub on_option {μ} :
      {B : Type μ} (w : World) (o : Option B) (m : Cmd A) (k : B → Cmd A) (t : Trace)
      → After Q (m w t)
      → ((b : B) → After Q (k b w t))
      → After Q ((elim o as (λ x. Cmd A) [ none ↦ m | some b ↦ k b ]) w t)
  on_option w none m k t h g = h
  on_option w (some b) m k t h g = g b

  pub mono {μ} :
      {P : A → Trace → Type μ} {r : Run A}
      → After P r
      → ((a : A) (t : Trace) → P a t → Q a t)
      → After Q r
  mono (returned p) weaken = returned (weaken _ _ p)
  mono faulted weaken = faulted
  mono unfinished weaken = unfinished

-- nothing is said
pub any {ℓ} : {A : Type ℓ} (r : Run A) → After (λ a t. Unit {0}) r
any (ok a t) = returned tt
any (fault t) = faulted
any (out_of_fuel t) = unfinished
