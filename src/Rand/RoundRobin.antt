-- ===== src/Rand/RoundRobin.antt =====
-- lightstep/rand/pool.go: `Pick` goes round the sources.
use lightstep_tracer_go.Rand.PowerOfTwo.{two_to-pow, next_nearest_pow2_uint64_lem}
use native.Mathlib.Nat.{mod-add-mod, mod-lt}
use lightstep_tracer_go.Rand.Bits.{two_to, bit_and-mask, mod-mod_two_to, two_to_pos, two_to_mono}
use lightstep_tracer_go.Rand.{
  Pool, pick, seed_sources, MathRand, bit_and, new_pool, next_nearest_pow2_uint64,
}
use lightstep_tracer_go.Base.{
  ℕ, ◌≡◌, Option, ◌<◌, List, some, length, [], ◌+◌, suc, ◌%◌, zero, add64, none, ◌∷◌, refl, dec_lt,
  arith, sub64, get_elem?, ap, ◌-◌, ◌∙◌, sym, lt→ltb, ap₂, ◌≤◌, ◌^◌, inl, inr,
}

-- A pool as `NewPool` makes it for a size that has a power of two: its size is one, and it has that many
-- sources.
pub record IsPool {S : Type 0} (r : Pool S) (k : ℕ) : Type 0 where
  pub word : k < 64
  pub power : r.size ≡ two_to k
  pub filled : length r.sources ≡ r.size

-- `n` calls of `Pick`: the indices of the sources and the pool afterwards.
unfoldable pub picks : {S : Type 0} → ℕ → Pool S → Option (List ℕ × Pool S)
picks zero r = some ([], r)
picks (suc n) r = elim (pick r) [
  | none ↦ none
  | some (i, r') ↦ elim (picks n r') [ none ↦ none | some (is, r'') ↦ some (i ∷ is, r'') ]
]

length-seed_sources :
    {S : Type 0} (math : MathRand S) (n : ℕ) (ran : S) → length (seed_sources math n ran) ≡ n
unfolding seed_sources
length-seed_sources math zero ran = refl
length-seed_sources math (suc n) ran = omega (arith, length-seed_sources math n (math.int63 ran).1)

-- The sources that come one after the other.
abbrev pub round : ℕ → ℕ → ℕ → List ℕ
round k c zero = []
round k c (suc n) = (c + 1) % two_to k ∷ round k (c + 1) n

next_remainder : (t c c' : ℕ) → 0 < t → c % t ≡ c' % t → (c + 1) % t ≡ (c' + 1) % t
next_remainder t c c' pos h =
    sym (mod-add-mod c t 1) ∙ ap (λ (n : ℕ). (n + 1) % t) h ∙ mod-add-mod c' t 1

round-mod : (k n c c' : ℕ) → c % two_to k ≡ c' % two_to k → round k c n ≡ round k c' n
round-mod k zero c c' h = refl
round-mod k (suc n) c c' h =
    let next = next_remainder (two_to k) c c' (two_to_pos k) h in
    ap₂ ◌∷◌ next (round-mod k n (c + 1) (c' + 1) next)

get_elem?-round : (k n c i : ℕ) → i < n → get_elem? (round k c n) i ≡ some ((c + 1 + i) % two_to k)
get_elem?-round k zero c i h = absurd (omega arith)
get_elem?-round k (suc n) c zero h = ap some (ap (λ (m : ℕ). m % two_to k) (omega arith))
get_elem?-round k (suc n) c (suc i) h =
    get_elem?-round k n (c + 1) i (omega arith)
    ∙ ap some (ap (λ (m : ℕ). m % two_to k) (omega arith))

length-round : (k n c : ℕ) → length (round k c n) ≡ n
length-round k zero c = refl
length-round k (suc n) c = omega (arith, length-round k n (c + 1))

-- The place at which a source comes up.
turn : (t d j : ℕ) → 0 < t → j < t → (i : ℕ) × (i < t) × ((d + i) % t ≡ j)
turn t d j pos h = elim (dec_lt j (d % t)) [
  | yes before ↦ (j + t - d % t, omega arith, grind arith)
  | no after ↦ (j - d % t, omega arith, grind arith)
]

module _ {S : Type 0} where
  pick_lem :
      (r : Pool S) (k : ℕ)
      → IsPool r k
      → pick r ≡ some ((r.counter + 1) % two_to k, record r { counter = add64 r.counter 1 })
  unfolding pick
  pick_lem r k v =
      let bound = two_to_mono k 63 (omega (arith, v.word)) in
      let mask : sub64 r.size 1 ≡ two_to k - 1 = omega (arith, v.power, two_to_pos k, bound) in
      let selection : bit_and (add64 r.counter 1) (sub64 r.size 1) ≡ (r.counter + 1) % two_to k =
        ap (bit_and (add64 r.counter 1)) mask
        ∙ bit_and-mask k (add64 r.counter 1)
        ∙ mod-mod_two_to k 64 (r.counter + 1) (omega (arith, v.word)) in
      let filled : length r.sources ≡ two_to k = v.filled ∙ v.power in
      rw (
        selection,
        filled,
        lt→ltb ((r.counter + 1) % two_to k) (two_to k) (mod-lt (r.counter + 1) (two_to_pos k)),
      )

  picks-cons :
      (n : ℕ) (r r' r'' : Pool S) (i : ℕ) (is : List ℕ)
      → pick r ≡ some (i, r')
      → picks n r' ≡ some (is, r'')
      → picks (suc n) r ≡ some (i ∷ is, r'')
  unfolding picks
  picks-cons n r r' r'' i is e e' = ground arith

  picks_lem :
      (n : ℕ) (r : Pool S) (k : ℕ)
      → IsPool r k
      → (r' : Pool S) × (picks n r ≡ some (round k r.counter n, r'))
  unfolding picks
  picks_lem zero r k v = (r, refl)
  picks_lem (suc n) r k v =
      let next : Pool S = record r { counter = add64 r.counter 1 } in
      let v' : IsPool next k = record { word = v.word; power = v.power; filled = v.filled } in
      let (r', e) = picks_lem n next k v' in
      let same =
        round-mod k n (add64 r.counter 1) (r.counter + 1)
          (mod-mod_two_to k 64 (r.counter + 1) (omega (arith, v.word))) in
      (
        r',
        picks-cons n r next r' ((r.counter + 1) % two_to k) _ (pick_lem r k v)
            (e ∙ ap (λ (is : List ℕ). some (is, r')) same),
      )

picks_round :
    {S : Type 0} (r : Pool S) (k j : ℕ)
    → IsPool r k
    → j < r.size
    → (is : List ℕ) × (r' : Pool S) × (picks r.size r ≡ some (is, r'))
      × (length is ≡ length r.sources)
      × (i : ℕ) × (get_elem? is i ≡ some j)
picks_round r k j v h =
    let (r', e) = picks_lem r.size r k v in
    let (i, below, hit) =
      turn (two_to k) (r.counter + 1) j (two_to_pos k) (omega (arith, v.power)) in
    (
      round k r.counter r.size,
      r',
      e,
      length-round k r.size r.counter ∙ sym v.filled,
      i,
      get_elem?-round k r.size r.counter i (omega (arith, v.power)) ∙ ap some hit,
    )

new_pool-IsPool :
    {S : Type 0} (math : MathRand S) (seed size : ℕ)
    → 1 ≤ size
    → size ≤ 2 ^ 63
    → (k : ℕ) × IsPool (new_pool math seed size) k
unfolding new_pool
new_pool-IsPool math seed size pos small = elim (next_nearest_pow2_uint64_lem size (omega arith)) [
  | inl (p, b, k, power, above, below) ↦ (
    k,
    record {
      word = power_word k (omega (arith, power));
      power = power ∙ sym (two_to-pow k);
      filled = length-seed_sources math (next_nearest_pow2_uint64 size) (math.new_source seed);
    },
  )
  | inr (inl empty, e) ↦ absurd (omega arith)
  | inr (inr large, e) ↦ absurd (omega arith)
]
  where
    power_word : (k : ℕ) → 2 ^ k < 2 ^ 64 → k < 64
    power_word k h = elim (dec_lt k 64) [
      | yes low ↦ low
      | no high ↦ absurd (omega (arith, two_to-pow k, two_to_mono 64 k (omega arith)))
    ]

-- A pool that `NewPool` makes for a size from 1 to 2 ^ 63, after any number of calls: `Pick` never panics, and any
-- calls of it in a row that are as many as there are sources select every source. As they are as many, they select
-- each one once. This holds across the wrap of the counter, too.
pub pool_round :
    {S : Type 0} (math : MathRand S) (seed size counter j : ℕ)
    → 1 ≤ size
    → size ≤ 2 ^ 63
    → let r = record (new_pool math seed size) { counter = counter } in
      j < length r.sources
      → (is : List ℕ) × (r' : Pool S) × (picks (length r.sources) r ≡ some (is, r'))
        × (length is ≡ length r.sources)
        × (i : ℕ) × (get_elem? is i ≡ some j)
pool_round math seed size counter j pos small h =
    let (k, v) = new_pool-IsPool math seed size pos small in
    let r = record (new_pool math seed size) { counter = counter } in
    let v' : IsPool r k = record { word = v.word; power = v.power; filled = v.filled } in
    let (is, r', e, all, i, hit) = picks_round r k j v' (omega (arith, v.filled)) in
    (is, r', ap (λ (n : ℕ). picks n r) v.filled ∙ e, all, i, hit)
