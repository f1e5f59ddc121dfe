-- ===== src/World/Triple.antt =====
-- Commands that take a precondition of the trace to a postcondition of the result and the trace,
-- where they return: the rules of `After` for commands, with the conditions composed.
use rdma_pmem.Prelude.{◌≡◌, refl, Bool, true, false, if◌then◌else◌, Option, none, some}
use rdma_pmem.World.{Trace, World, Cmd, Run, ok, fault, out_of_fuel, trace_of, pure, crash, ◌>>=◌}
use rdma_pmem.World.Keeps.{Keeps}
use rdma_pmem.World.After
use rdma_pmem.World.After.{After}

pub record Triple {ℓ} {A : Type ℓ} (w : World) (P : Trace → Type 0) (m : Cmd A)
    (Q : A → Trace → Type 0) : Type ℓ where
  pub run : (t : Trace) → P t → After Q (m w t)

module _ {ℓ} {A : Type ℓ} {w : World} {P : Trace → Type 0} {Q : A → Trace → Type 0} where
  pub step : (m : Cmd A) → ((t : Trace) → P t → After Q (m w t)) → Triple w P m Q
  step m h = record { run = h }

  pub pure-Triple : (a : A) → ((t : Trace) → P t → Q a t) → Triple w P (pure a) Q
  pure-Triple a h = record { run = λ t p. After.returned (h t p) }

  pub crash-Triple : Triple w P crash Q
  crash-Triple = record { run = λ t p. After.faulted }

  pub bind {κ} :
      {B : Type κ} {R : B → Trace → Type 0} {m : Cmd B} {k : B → Cmd A}
      → Triple w P m R
      → ((b : B) → Triple w (R b) (k b) Q)
      → Triple w P (m >>= k) Q
  bind {m} {k} h next = record { run = λ t p. After.bind w k (h.run t p) λ b s q. (next b).run s q }

  -- the result of the first part does not matter
  pub next {κ} :
      {B : Type κ} {m : Cmd B} {k : B → Cmd A}
      → Triple w P m (λ b. P)
      → ((b : B) → Triple w P (k b) Q)
      → Triple w P (m >>= k) Q
  next h rest = bind h rest

  pub branch :
      (b : Bool) {m n : Cmd A}
      → (b ≡ true → Triple w P m Q)
      → (b ≡ false → Triple w P n Q)
      → Triple w P (if b then m else n) Q
  branch true h g = h refl
  branch false h g = g refl

  pub on_option {κ} :
      {B : Type κ} (o : Option B) {m : Cmd A} {k : B → Cmd A}
      → (o ≡ none → Triple w P m Q)
      → ((b : B) → o ≡ some b → Triple w P (k b) Q)
      → Triple w P (elim o [ none ↦ m | some b ↦ k b ]) Q
  on_option none h g = h refl
  on_option (some b) h g = g b refl

  pub weaken :
      {P' : Trace → Type 0} {m : Cmd A}
      → Triple w P m Q
      → ((t : Trace) → P' t → P t)
      → Triple w P' m Q
  weaken h from = record { run = λ t p. h.run t (from t p) }

pub kept {ℓ} :
    {A : Type ℓ} {w : World} {P : Trace → Type 0} {m : Cmd A} → Keeps w P m → Triple w P m (λ a. P)
kept {w} {P} {m} h = record { run = λ t p. from (m w t) (h.keep t p) }
  where
    from : {A : Type ℓ} {P : Trace → Type 0} (r : Run A) → P (trace_of r) → After (λ a. P) r
    from (ok a t) p = After.returned p
    from (fault t) p = After.faulted
    from (out_of_fuel t) p = After.unfinished
