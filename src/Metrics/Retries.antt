-- ===== src/Metrics/Retries.antt =====
-- internal/metrics/reporter.go: the number of requests of `send`, and its result.
use native.Mathlib.Nat.{one-le-pow}
use lightstep_tracer_go.Base.Int.{pos_part}
use lightstep_tracer_go.Time.{Duration, second}
use lightstep_tracer_go.Metrics.{
  send_loop, calculate_backoff, Duration, enough_tries, pos_part, SendError, judge, second,
  too_many_retries, expired, send,
}
use lightstep_tracer_go.Base.{
  ℕ, Text, ◌≤◌, ◌⊎◌, Option, ◌+◌, ◌/◌, ◌<◌, ◌≡◌, ◌*◌, none, some, ◌-◌, arith, suc, zero, subst,
  dec_lt, Option-cases, refl, ap, false, true, inr, inl, ◌∙◌, Bool-cases,
}

-- The result `r` after `n` requests: all answers but the last one call for a retry, and the last one
-- decides, or calls for a retry when the time is over.
pub record Decided (answer : ℕ → Text ⊎ ℕ) (from n : ℕ) (r : Option SendError) : Type 0 where
  pub some_request : from < n
  pub retried : (i : ℕ) → from ≤ i → i + 1 < n → judge (answer i) ≡ none
  pub last :
      (judge (answer (n - 1)) ≡ some r)
      ⊎ ((judge (answer (n - 1)) ≡ none) × (r ≡ some too_many_retries))

backoff_le : (random retries : ℕ) → 1000 ≤ calculate_backoff random (retries + 1)
unfolding calculate_backoff
backoff_le random retries = omega (arith, one-le-pow (retries + 1 - 1) 2 (omega arith))

-- The loop up to its next request, by what its answer says.
send_loop_judged :
    (fuel : ℕ) (timeout : Duration) (random : ℕ → ℕ) (answer : ℕ → Text ⊎ ℕ) (retries waited : ℕ)
    (r : Option SendError)
    → judge (answer retries) ≡ some r
    → send_loop (suc fuel) timeout random answer retries waited ≡ some (retries + 1, r)
unfolding send_loop
send_loop_judged fuel timeout random answer retries waited r e = rw (e, send_loop) refl

send_loop-expired :
    (fuel : ℕ) (timeout : Duration) (random : ℕ → ℕ) (answer : ℕ → Text ⊎ ℕ) (retries waited : ℕ)
    → judge (answer retries) ≡ none
    → expired timeout waited ≡ true
    → send_loop (suc fuel) timeout random answer retries waited
      ≡ some (retries + 1, some too_many_retries)
unfolding send_loop
send_loop-expired fuel timeout random answer retries waited e e' = rw (e, e', send_loop) refl

send_loop_again :
    (fuel : ℕ) (timeout : Duration) (random : ℕ → ℕ) (answer : ℕ → Text ⊎ ℕ) (retries waited : ℕ)
    → judge (answer retries) ≡ none
    → expired timeout waited ≡ false
    → send_loop (suc fuel) timeout random answer retries waited
      ≡ send_loop fuel timeout random answer
          (retries + 1)
          (waited + calculate_backoff (random retries) (retries + 1))
unfolding send_loop
send_loop_again fuel timeout random answer retries waited e e' = rw (e, e', send_loop) refl

Decided-now :
    (answer : ℕ → Text ⊎ ℕ) (k : ℕ) (r : Option SendError)
    → (judge (answer k) ≡ some r) ⊎ ((judge (answer k) ≡ none) × (r ≡ some too_many_retries))
    → Decided answer k (k + 1) r
Decided-now answer k r h = record {
  some_request = omega arith;
  retried = λ i lo hi. absurd (omega arith);
  last =
      subst
        (λ m.
          (judge (answer m) ≡ some r) ⊎ ((judge (answer m) ≡ none) × (r ≡ some too_many_retries)))
        {x = k} {y = k + 1 - 1} (omega arith) h;
}

Decided-later :
    (answer : ℕ → Text ⊎ ℕ) (k n : ℕ) (r : Option SendError)
    → judge (answer k) ≡ none
    → Decided answer (k + 1) n r
    → Decided answer k n r
Decided-later answer k n r e d = record {
  some_request = omega (arith, d.some_request);
  retried = λ i lo hi. elim (dec_lt k i) [
    | yes later ↦ d.retried i (omega arith) hi
    | no now ↦ ap (λ m. judge (answer m)) {x = i} {y = k} (omega arith) ∙ e
  ];
  last = d.last;
}

send_loop_lem :
    (fuel : ℕ) (timeout : Duration) (random : ℕ → ℕ) (answer : ℕ → Text ⊎ ℕ) (retries waited : ℕ)
    → enough_tries timeout ≤ retries + fuel
    → retries ≤ pos_part timeout / second + 1
    → retries * 1000 ≤ waited
    → (n : ℕ) × (r : Option SendError) × (send_loop fuel timeout random answer retries waited
        ≡ some (n, r))
      × Decided answer retries n r
      × (n ≤ enough_tries timeout)
send_loop_lem zero timeout random answer retries waited f few w = absurd (omega arith)
send_loop_lem (suc fuel) timeout random answer retries waited f few w =
    elim (Option-cases (judge (answer retries))) [
      | inr (r, e) ↦ (
        retries + 1,
        r,
        send_loop_judged fuel timeout random answer retries waited r e,
        Decided-now answer retries r (inl e),
        omega arith,
      )
      | inl e ↦ elim (Bool-cases (expired timeout waited)) [
        | inl late ↦ (
          retries + 1,
          some too_many_retries,
          send_loop-expired fuel timeout random answer retries waited e late,
          Decided-now answer retries (some too_many_retries) (inr (e, refl)),
          omega arith,
        )
        | inr early ↦
            let in_time : waited * 1_000_000 ≤ pos_part timeout = ground arith in
            let waited' = waited + calculate_backoff (random retries) (retries + 1) in
            let (n, r, e', d, bound) =
              send_loop_lem fuel timeout random answer (retries + 1) waited' (omega arith)
                (omega arith) (omega (arith, backoff_le (random retries) retries)) in
            (
              n,
              r,
              send_loop_again fuel timeout random answer retries waited e early ∙ e',
              Decided-later answer retries n r e d,
              bound,
            )
      ]
    ]

-- `send` ends: it makes at most one request for each second of the timeout and two more, whatever the
-- server answers and the backoff draws. All its requests but the last one were answered with a status that
-- calls for a retry; its result is what the last answer says, or, if that one calls for a retry too, the
-- error of too many retries.
pub send_lem :
    (timeout : Duration) (random : ℕ → ℕ) (answer : ℕ → Text ⊎ ℕ)
    → (n : ℕ) × (r : Option SendError) × (send timeout random answer ≡ some (n, r))
      × Decided answer 0 n r
      × (n ≤ pos_part timeout / second + 2)
unfolding send
send_lem timeout random answer =
    send_loop_lem (enough_tries timeout) timeout random answer 0 0 (omega arith) (omega arith)
      (omega arith)
