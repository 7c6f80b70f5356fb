-- ===== src/Rand.antt =====
-- lightstep/rand and util.go: the locked random sources, the pool of them and the identifiers that it makes.
-- A lock is not part of the state: each method is one step.
mod Locked
unfoldable pub use Locked.*
pub mod Bits
pub mod PowerOfTwo
pub mod RoundRobin
use Prim.Native.Nat.{bit_or, bit_and, suc}
use lightstep_tracer_go.Base.{
  ℕ, List, Option, add64, ◌/◌, sub64, [], none, if◌then◌else◌, ◌^◌, some, ltb, suc, get_elem?,
  length, ◌∷◌, set, zero,
}

abbrev pub smear : ℕ → ℕ → ℕ
smear s v = bit_or v (v / 2 ^ s)

-- `nextNearestPow2uint64`
unfoldable pub next_nearest_pow2_uint64 : ℕ → ℕ
next_nearest_pow2_uint64 v =
    add64 (smear 32 (smear 16 (smear 8 (smear 4 (smear 2 (smear 1 (sub64 v 1))))))) 1

pub record Pool (S : Type 0) : Type 0 where
  pub sources : List (LockedRand S)
  pub counter : ℕ
  pub size : ℕ

-- The index that `Pick` selects, and the pool afterwards.
unfoldable pub select : {S : Type 0} → Pool S → ℕ × Pool S
select r =
    let counter' = add64 r.counter 1 in
    (bit_and counter' (sub64 r.size 1), record r { counter = counter' })

-- `Pick`: the index of the source. `none` is a panic, an index out of range.
unfoldable pub pick : {S : Type 0} → Pool S → Option (ℕ × Pool S)
unfolding select
pick r =
    let (selection, r') = select r in
    if ltb selection (length r.sources) then some (selection, r') else none

module _ {S : Type 0} (math : MathRand S) where
  -- `seed`: the source that seeds the others is not kept.
  unfoldable pub seed_sources : ℕ → S → List (LockedRand S)
  seed_sources zero ran = []
  seed_sources (suc n) ran =
      let (number, ran') = math.int63 ran in new_locked_rand math number ∷ seed_sources n ran'

  unfoldable pub new_pool : ℕ → ℕ → Pool S
  unfolding next_nearest_pow2_uint64 seed_sources
  new_pool seed size =
      let group_size = next_nearest_pow2_uint64 size in
      record {
        sources = seed_sources group_size (math.new_source seed);
        counter = 0;
        size = group_size;
      }

  -- `genSeededGUID` and `genSeededGUID2`, on the state of the pool.
  unfoldable pub gen_seeded_guid : Pool S → Option (ℕ × Pool S)
  unfolding pick
  gen_seeded_guid pool = elim (pick pool) [
    | none ↦ none
    | some (i, pool') ↦ elim (get_elem? pool'.sources i) [
      | none ↦ none
      | some r ↦
          let (n, r') = uint64 math r in some (n, record pool' { sources = set pool'.sources i r' })
    ]
  ]

  unfoldable pub gen_seeded_guid2 : Pool S → Option ((ℕ × ℕ) × Pool S)
  unfolding pick two_uint64
  gen_seeded_guid2 pool = elim (pick pool) [
    | none ↦ none
    | some (i, pool') ↦ elim (get_elem? pool'.sources i) [
      | none ↦ none
      | some r ↦
          let (n, r') = two_uint64 math r in
          some (n, record pool' { sources = set pool'.sources i r' })
    ]
  ]
