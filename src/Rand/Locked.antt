-- ===== src/Rand/Locked.antt =====
-- lightstep/rand/locked_rand.go: a source of random numbers behind a lock. The lock is not part of the state.
use lightstep_tracer_go.Base.{ℕ, List, Option, none, some}

-- `rand.Rand` of the package math/rand, with a state of the type `S`. Integers are words and floats are bit
-- patterns; `none` is a panic, for a bound that is not positive.
pub record MathRand (S : Type 0) : Type 0 where
  pub new_source : ℕ → S
  pub seed : ℕ → S → S
  pub int63 : S → ℕ × S
  pub uint32 : S → ℕ × S
  pub uint64 : S → ℕ × S
  pub int31 : S → ℕ × S
  pub int : S → ℕ × S
  pub int63n : ℕ → S → Option (ℕ × S)
  pub int31n : ℕ → S → Option (ℕ × S)
  pub intn : ℕ → S → Option (ℕ × S)
  pub float64 : S → ℕ × S
  pub float32 : S → ℕ × S
  pub perm : ℕ → S → List ℕ × S
  pub read : ℕ → S → List ℕ × S

pub record LockedRand (S : Type 0) : Type 0 where
  pub r : S

-- A method of the source under the lock.
unfoldable pub locked : {S A : Type 0} → (S → A × S) → LockedRand S → A × LockedRand S
locked method lr = let (a, r') = method lr.r in (a, record { r = r' })

unfoldable pub locked_bound :
    {S A : Type 0} → (S → Option (A × S)) → LockedRand S → Option (A × LockedRand S)
locked_bound method lr = elim (method lr.r) [
  | none ↦ none
  | some (a, r') ↦ some (a, record { r = r' })
]

-- A method that is called twice under the one lock.
unfoldable pub locked_twice : {S A : Type 0} → (S → A × S) → LockedRand S → (A × A) × LockedRand S
locked_twice method lr =
    let (n1, r') = method lr.r in let (n2, r'') = method r' in ((n1, n2), record { r = r'' })

module _ {S : Type 0} (math : MathRand S) where
  unfoldable pub new_locked_rand : ℕ → LockedRand S
  new_locked_rand number = record { r = math.new_source number }

  unfoldable pub seed : ℕ → LockedRand S → LockedRand S
  seed number lr = record { r = math.seed number lr.r }

  unfoldable pub two_int63 : LockedRand S → (ℕ × ℕ) × LockedRand S
  unfolding locked_twice
  two_int63 = locked_twice math.int63

  unfoldable pub int63 : LockedRand S → ℕ × LockedRand S
  unfolding locked
  int63 = locked math.int63

  unfoldable pub uint32 : LockedRand S → ℕ × LockedRand S
  unfolding locked
  uint32 = locked math.uint32

  unfoldable pub uint64 : LockedRand S → ℕ × LockedRand S
  unfolding locked
  uint64 = locked math.uint64

  unfoldable pub two_uint64 : LockedRand S → (ℕ × ℕ) × LockedRand S
  unfolding locked_twice
  two_uint64 = locked_twice math.uint64

  unfoldable pub int31 : LockedRand S → ℕ × LockedRand S
  unfolding locked
  int31 = locked math.int31

  unfoldable pub int : LockedRand S → ℕ × LockedRand S
  unfolding locked
  int = locked math.int

  unfoldable pub int63n : ℕ → LockedRand S → Option (ℕ × LockedRand S)
  unfolding locked_bound
  int63n n = locked_bound (math.int63n n)

  unfoldable pub int31n : ℕ → LockedRand S → Option (ℕ × LockedRand S)
  unfolding locked_bound
  int31n n = locked_bound (math.int31n n)

  unfoldable pub intn : ℕ → LockedRand S → Option (ℕ × LockedRand S)
  unfolding locked_bound
  intn n = locked_bound (math.intn n)

  unfoldable pub float64 : LockedRand S → ℕ × LockedRand S
  unfolding locked
  float64 = locked math.float64

  unfoldable pub float32 : LockedRand S → ℕ × LockedRand S
  unfolding locked
  float32 = locked math.float32

  unfoldable pub perm : ℕ → LockedRand S → List ℕ × LockedRand S
  unfolding locked
  perm n = locked (math.perm n)

  -- The bytes that are written into the slice, which has this length.
  unfoldable pub read : ℕ → LockedRand S → List ℕ × LockedRand S
  unfolding locked
  read n = locked (math.read n)
