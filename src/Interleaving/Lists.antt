-- ===== src/Interleaving/Lists.antt =====
-- The list of threads, read and written at an index.
use rdma_pmem.Prelude.{
  ℕ, zero, suc, ◌<◌, ◌≡◌, ◌≢◌, refl, some, List, [], ◌∷◌, length, get_elem?, set, arith,
}
use mathlib.Core.Path.{subst}
use rdma_pmem.Interleaving.{Thread}

-- what holds of each thread
abbrev pub Each {ℓ} : (ℕ → Thread → Type ℓ) → List Thread → Type ℓ
Each P threads = (i : ℕ) (x : Thread) → get_elem? threads i ≡ some x → P i x

-- the others are as they were
pub Each-set {ℓ} :
    (P : ℕ → Thread → Type ℓ) (threads : List Thread) (i : ℕ) (y : Thread)
    → Each (λ j x. j ≢ i → P j x) threads
    → P i y
    → Each P (set threads i y)
Each-set P [] i y all p j x e = cc
Each-set P (a ∷ rest) zero y all p zero x e = let same : y ≡ x = cc in subst (P 0) same p
Each-set P (a ∷ rest) zero y all p (suc j) x e = all (suc j) x e λ h. absurd (omega arith)
Each-set P (a ∷ rest) (suc i) y all p zero x e = all zero x e λ h. absurd (omega arith)
Each-set P (a ∷ rest) (suc i) y all p (suc j) x e =
    Each-set (λ k. P (suc k)) rest i y (λ k z f ne. all (suc k) z f λ h. ne (omega arith)) p j x e

pub length-set {ℓ} : {A : Type ℓ} (xs : List A) (i : ℕ) (y : A) → length (set xs i y) ≡ length xs
length-set [] i y = refl
length-set (x ∷ xs) zero y = refl
length-set (x ∷ xs) (suc i) y = omega (arith, length-set xs i y)

pub get_elem?-lt {ℓ} :
    {A : Type ℓ} (xs : List A) (i : ℕ) {x : A} → get_elem? xs i ≡ some x → i < length xs
get_elem?-lt [] i e = cc
get_elem?-lt (x ∷ xs) zero e = omega arith
get_elem?-lt (x ∷ xs) (suc i) e = omega (arith, get_elem?-lt xs i e)

abbrev pub drop {ℓ} : {A : Type ℓ} → ℕ → List A → List A
drop zero xs = xs
drop (suc k) [] = []
drop (suc k) (x ∷ xs) = drop k xs

pub drop-get_elem? {ℓ} :
    {A : Type ℓ} (k : ℕ) (xs : List A) {x : A}
    → get_elem? xs k ≡ some x
    → drop k xs ≡ x ∷ drop (suc k) xs
drop-get_elem? zero [] e = cc
drop-get_elem? zero (y ∷ xs) e = cc
drop-get_elem? (suc k) [] e = cc
drop-get_elem? (suc k) (y ∷ xs) e = drop-get_elem? k xs e

pub drop-length {ℓ} : {A : Type ℓ} (xs : List A) → drop (length xs) xs ≡ []
drop-length [] = refl
drop-length (x ∷ xs) = drop-length xs
