-- ===== src/Cache/Policy.antt =====
-- The eviction policies of `cache/src/policy`.
pub mod Contract
pub mod Fifo
pub mod Hand
pub mod Slru
pub mod Sketch
pub mod TinyLfu
pub mod Clock
pub mod Sieve
pub mod S3Fifo
pub mod Random
pub mod Arc
pub mod Null
pub mod Lru
use fibre.Base.{ℕ, ◌+◌, ◌≡◌, List, [], ◌∷◌, arith}

-- `AdmissionDecision` of policy/mod.rs.
pub data AdmissionDecision (K : Type 0) : Type 0 where
  admit reject : AdmissionDecision K
  admit_and_evict : List K → AdmissionDecision K

-- A call of a `CachePolicy` method, with what the caller passes.
pub data Call (K : Type 0) : Type 0 where
  access : K → ℕ → Call K
  insert : K → ℕ → Call K
  removal : K → Call K
  eviction : ℕ → Call K
  wipe : Call K

-- The cost that a sequence of calls brings in.
abbrev pub inserted : {K : Type 0} → List (Call K) → ℕ
inserted [] = 0
inserted (Call.insert k c ∷ calls) = c + inserted calls
inserted (call ∷ calls) = inserted calls

pub inserted-cons :
    {K : Type 0} (call : Call K) (calls : List (Call K))
    → inserted (call ∷ calls) ≡ inserted (call ∷ []) + inserted calls
inserted-cons (Call.insert k c) calls = omega arith
inserted-cons (Call.access k c) calls = omega arith
inserted-cons (Call.removal k) calls = omega arith
inserted-cons (Call.eviction n) calls = omega arith
inserted-cons Call.wipe calls = omega arith
