-- ===== src/RdmaExample/Resources.antt =====
-- The memory regions and the buffers that the server of rdma-example holds.
use rdma_pmem.Prelude.{ℕ, ◌+◌, ◌≡◌, Option, some, is_some, [], ◌∷◌, not}
use rdma_pmem.World.{Mr, Trace, World, Call, calloc, free, reg_mr, dereg_mr}
use rdma_pmem.Node.{is_null}
use rdma_pmem.Rw.Release.{deregistered, one}
use rdma_pmem.Rw.Session.{Session}

-- how many regions were made, how many buffers were allocated, and how many are freed
abbrev pub registered : World → Trace → ℕ
registered w [] = 0
registered w (reg_mr pd addr size access ∷ t) =
    one (is_some (w.mr (reg_mr pd addr size access ∷ t))) + registered w t
registered w (x ∷ t) = registered w t

abbrev pub callocs : World → Trace → ℕ
callocs w [] = 0
callocs w (calloc size ∷ t) = one (not (is_null (w.ptr (calloc size ∷ t)))) + callocs w t
callocs w (x ∷ t) = callocs w t

abbrev pub freed : Trace → ℕ
freed [] = 0
freed (free p ∷ t) = freed t + 1
freed (x ∷ t) = freed t

-- whether a member holds a region
abbrev pub has : Option (Option Mr) → ℕ
has (some (some mr)) = 1
has _ = 0

abbrev pub regions : Session → ℕ
regions s = has s.client_metadata_mr + has s.server_buffer_mr + has s.server_metadata_mr

-- what was made since the trace `t₀` is what is released and what the session holds, with `m`
-- regions and `n` buffers that no member holds yet
abbrev pub Accounts : World → Trace → (m n : ℕ) → Session → Trace → Type 0
Accounts w t₀ m n s t =
    (registered w t + deregistered t₀ ≡ registered w t₀ + deregistered t + regions s + m)
    × (callocs w t + freed t₀ ≡ callocs w t₀ + freed t + has s.server_buffer_mr + n)

-- the other calls
abbrev pub IsQuiet : Call → Type 0
IsQuiet (reg_mr pd addr size access) = ⊥
IsQuiet (dereg_mr mr) = ⊥
IsQuiet (calloc size) = ⊥
IsQuiet (free p) = ⊥
IsQuiet c = Unit {0}

pub Accounts-Quiet :
    (w : World) (t₀ : Trace) (m n : ℕ) (s : Session) (c : Call) (t : Trace)
    → IsQuiet c
    → Accounts w t₀ m n s t
    → Accounts w t₀ m n s (c ∷ t)
Accounts-Quiet w t₀ m n s (reg_mr pd addr size access) t q p = elim q [ ]
Accounts-Quiet w t₀ m n s (dereg_mr mr) t q p = elim q [ ]
Accounts-Quiet w t₀ m n s (calloc size) t q p = elim q [ ]
Accounts-Quiet w t₀ m n s (free a) t q p = elim q [ ]
Accounts-Quiet w t₀ m n s _ t q p = p
