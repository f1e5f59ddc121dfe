-- ===== src/World/Keeps.antt =====
-- Rules for a property of the trace that each part of a run keeps, whatever the run's outcome.
use rdma_pmem.Prelude.{◌≡◌, refl, Bool, true, false, if◌then◌else◌, Option, none, some}
use rdma_pmem.World.{Trace, World, Run, ok, fault, out_of_fuel, Cmd, pure, ◌>>=◌, trace_of}

pub record Keeps {ℓ κ} {A : Type ℓ} (w : World) (P : Trace → Type κ) (m : Cmd A) : Type κ where
  pub keep : (t : Trace) → P t → P (trace_of (m w t))

module _ {ℓ κ} {A : Type ℓ} {w : World} {P : Trace → Type κ} where
  pub bind_run {μ} :
      {B : Type μ} (r : Run A) (k : A → Cmd B)
      → P (trace_of r)
      → ((a : A) → Keeps w P (k a))
      → P (
          trace_of
            (elim r [ ok a s ↦ k a w s | fault s ↦ fault s | out_of_fuel s ↦ out_of_fuel s ]))
  bind_run (ok a s) k p next = (next a).keep s p
  bind_run (fault s) k p next = p
  bind_run (out_of_fuel s) k p next = p

  pub bind {μ} :
      {B : Type μ} {m : Cmd A} {k : A → Cmd B}
      → Keeps w P m
      → ((a : A) → Keeps w P (k a))
      → Keeps w P (m >>= k)
  bind {m} {k} h next = record { keep = λ t p. bind_run (m w t) k (h.keep t p) next }

  pub branch : (b : Bool) {m n : Cmd A} → Keeps w P m → Keeps w P n → Keeps w P (if b then m else n)
  branch true h g = h
  branch false h g = g

  pub pure-Keeps : (a : A) → Keeps w P (pure a)
  pure-Keeps a = record { keep = λ t p. p }

  pub step : (m : Cmd A) → ((t : Trace) → P t → P (trace_of (m w t))) → Keeps w P m
  step m h = record { keep = h }

pub on_option {ℓ κ μ} :
    {A : Type ℓ} {B : Type μ} {w : World} {P : Trace → Type κ} (o : Option B) {m : Cmd A}
    {k : B → Cmd A}
    → Keeps w P m
    → ((b : B) → Keeps w P (k b))
    → Keeps w P (elim o [ none ↦ m | some b ↦ k b ])
on_option none h g = h
on_option (some b) h g = g b

-- a run whose first part has a known outcome
module _ {ℓ κ μ} {A : Type ℓ} {B : Type μ} (w : World) (P : Trace → Type κ) (r : Run A)
    (k : A → Cmd B) where
  pub after_ok :
      {a : A} {s : Trace}
      → r ≡ ok a s
      → P (trace_of (k a w s))
      → P (
          trace_of
            (elim r [ ok a s ↦ k a w s | fault s ↦ fault s | out_of_fuel s ↦ out_of_fuel s ]))
  after_ok e p = rw e p

  pub after_fault :
      {s : Trace}
      → r ≡ fault s
      → P s
      → P (
          trace_of
            (elim r [ ok a s ↦ k a w s | fault s ↦ fault s | out_of_fuel s ↦ out_of_fuel s ]))
  after_fault e p = rw e p

-- a run that begins with a test
pub on_test {ℓ κ} :
    {A : Type ℓ} (w : World) (P : Trace → Type κ) (b : Bool) (m n : Cmd A) (t : Trace)
    → (b ≡ true → P (trace_of (m w t)))
    → (b ≡ false → P (trace_of (n w t)))
    → P (trace_of ((if b then m else n) w t))
on_test w P true m n t h g = h refl
on_test w P false m n t h g = g refl
