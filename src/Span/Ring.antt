-- ===== src/Span/Ring.antt =====
-- The logs of a span as a circular buffer: what `appendLog` and the end of `FinishWithOptions` make
-- of the records, against the list of all records that came.
use lightstep_tracer_go.Base.Int.{pos_part}
use lightstep_tracer_go.Options.{Options}
use native.Mathlib.Nat.{mod-add-mod, mod-eq_of_lt, mod_self, mod-lt}
use lightstep_tracer_go.Base.{
  ℕ, List, ◌<◌, arith, ◌≡◌, length, ◌+◌, ◌-◌, ◌++◌, ◌%◌, ◌∷◌, [], take, drop, sym, take-append-drop,
  ap, append-nil, ◌∙◌, length-take, length-append, length-drop, refl, set, set-append_right,
  set-append, append_assoc, ◌≤◌, dec_lt,
}
use lightstep_tracer_go.Span.{num_old, append_log, append_logs, Span, LogRecord, Options, pos_part}

-- How many places the circular part has.
abbrev pub num_new : ℕ → ℕ
num_new max_logs = max_logs - num_old max_logs

-- The logs hold `all`, but for the records that fell out of the circular part. `kept` are the oldest
-- ones, `newest` those that overwrote, and `older` those that come next to be overwritten.
pub record Holds (max_logs : ℕ) (all logs : List LogRecord) (num_dropped : ℕ) : Type 0 where
  pub kept : List LogRecord
  pub lost : List LogRecord
  pub newest : List LogRecord
  pub older : List LogRecord
  pub logs_eq : logs ≡ kept ++ (newest ++ older)
  pub all_eq : all ≡ kept ++ (lost ++ (older ++ newest))
  pub lost_length : length lost ≡ num_dropped
  pub kept_length : length kept ≡ num_old max_logs
  pub newest_length : length newest ≡ num_dropped % num_new max_logs
  pub circular_length : length newest + length older ≡ num_new max_logs

-- Below the limit the logs are all records.
pub data Logged (max_logs : ℕ) (all logs : List LogRecord) (num_dropped : ℕ) : Type 0 where
  complete :
      logs ≡ all → num_dropped ≡ 0 → length logs < max_logs → Logged max_logs all logs num_dropped
  circular : Holds max_logs all logs num_dropped → Logged max_logs all logs num_dropped

-- The circular part is never empty.
pub num_new-pos : (max_logs : ℕ) → 0 < max_logs → 0 < num_new max_logs
num_new-pos max_logs h = omega arith

mod-suc_lt : (d n : ℕ) → (d % n) + 1 < n → (d + 1) % n ≡ d % n + 1
mod-suc_lt d n h = sym (mod-add-mod d n 1) ∙ mod-eq_of_lt h

mod-suc_wrap : (d n : ℕ) → (d % n) + 1 ≡ n → (d + 1) % n ≡ 0
mod-suc_wrap d n h = sym (mod-add-mod d n 1) ∙ ap (λ k. k % n) h ∙ mod_self n

-- Filling the last place makes the buffer circular, with nothing dropped yet.
fill :
    (max_logs : ℕ) (all : List LogRecord) (lr : LogRecord)
    → length all + 1 ≡ max_logs
    → Holds max_logs (all ++ (lr ∷ [])) (all ++ (lr ∷ [])) 0
fill max_logs all lr h = record {
  kept = take (num_old max_logs) (all ++ (lr ∷ []));
  lost = [];
  newest = [];
  older = drop (num_old max_logs) (all ++ (lr ∷ []));
  logs_eq = sym (take-append-drop (num_old max_logs) (all ++ (lr ∷ [])));
  all_eq = sym (
      ap (◌++◌ (take (num_old max_logs) (all ++ (lr ∷ [])))) (append-nil _)
      ∙ take-append-drop (num_old max_logs) (all ++ (lr ∷ [])));
  lost_length = refl;
  kept_length =
      omega (arith, length-take (num_old max_logs) (all ++ (lr ∷ [])), length-append all (lr ∷ []));
  newest_length = omega arith;
  circular_length =
      omega (arith, length-drop (num_old max_logs) (all ++ (lr ∷ [])), length-append all (lr ∷ []));
}

-- The place that `appendLog` overwrites holds the first of the older records.
set_oldest :
    (kept newest older : List LogRecord) (o lr : LogRecord) (i : ℕ)
    → i ≡ length kept + length newest
    → set (kept ++ (newest ++ (o ∷ older))) i lr ≡ kept ++ (newest ++ (lr ∷ older))
set_oldest kept newest older o lr i e =
    ap (λ k. set (kept ++ (newest ++ (o ∷ older))) k lr) e
    ∙ set-append_right kept (newest ++ (o ∷ older)) (length newest) lr
    ∙ ap (◌++◌ kept) (set-append newest older o lr)

module _ (max_logs : ℕ) (all logs : List LogRecord) (d : ℕ) (lr : LogRecord)
    (some_logs : 0 < max_logs) where
  set_logs :
      (h : Holds max_logs all logs d) (o : LogRecord) (older : List LogRecord)
      → h.older ≡ o ∷ older
      → set logs (num_old max_logs + d % num_new max_logs) lr ≡ h.kept ++ (h.newest ++ (lr ∷ older))
  set_logs h o older e =
      ap (λ t. set t (num_old max_logs + d % num_new max_logs) lr)
        (h.logs_eq ∙ ap (λ t. h.kept ++ (h.newest ++ t)) e)
      ∙ set_oldest h.kept h.newest older o lr _ (omega (arith, h.kept_length, h.newest_length))

  -- One more record: it takes the place of the oldest record of the circular part.
  overwrite :
      (h : Holds max_logs all logs d) (older : List LogRecord)
      → h.older ≡ older
      → Holds max_logs
          (all ++ (lr ∷ []))
          (set logs (num_old max_logs + d % num_new max_logs) lr)
          (d + 1)
  overwrite h [] e = absurd (
      omega (
        arith,
        ap length e,
        h.newest_length,
        h.circular_length,
        mod-lt d (num_new-pos max_logs some_logs),
      ))
  overwrite h (o ∷ []) e = record {
    kept = h.kept;
    lost = h.lost ++ (o ∷ []);
    newest = [];
    older = h.newest ++ (lr ∷ []);
    logs_eq = set_logs h o [] e;
    all_eq = rw (h.all_eq, e) (simp (append_assoc, append-nil));
    lost_length = omega (arith, length-append h.lost (o ∷ []), h.lost_length);
    kept_length = h.kept_length;
    newest_length = sym (
        mod-suc_wrap d (num_new max_logs)
          (omega (arith, ap length e, h.newest_length, h.circular_length)));
    circular_length =
        omega (arith, length-append h.newest (lr ∷ []), h.circular_length, ap length e);
  }
  overwrite h (o ∷ o' ∷ older) e = record {
    kept = h.kept;
    lost = h.lost ++ (o ∷ []);
    newest = h.newest ++ (lr ∷ []);
    older = o' ∷ older;
    logs_eq = set_logs h o (o' ∷ older) e ∙ simp append_assoc;
    all_eq = rw (h.all_eq, e) (simp append_assoc);
    lost_length = omega (arith, length-append h.lost (o ∷ []), h.lost_length);
    kept_length = h.kept_length;
    newest_length = omega (
      arith,
      length-append h.newest (lr ∷ []),
      h.newest_length,
      mod-suc_lt d (num_new max_logs)
          (omega (arith, ap length e, h.newest_length, h.circular_length)),
    );
    circular_length =
        omega (arith, length-append h.newest (lr ∷ []), h.circular_length, ap length e);
  }

-- A span's logs and counter hold the records `all`.
abbrev pub Keeps : ℕ → List LogRecord → Span → Type 0
Keeps max_logs all s = Logged max_logs all s.raw.logs s.num_dropped_logs

append_log_room :
    (opts : Options) (s : Span) (lr : LogRecord)
    → length s.raw.logs < pos_part opts.max_logs_per_span
    → ((append_log opts s lr).raw.logs ≡ s.raw.logs ++ (lr ∷ []))
      × ((append_log opts s lr).num_dropped_logs ≡ s.num_dropped_logs)
unfolding append_log
append_log_room opts s lr h = ground arith

append_log_full :
    (opts : Options) (s : Span) (lr : LogRecord)
    → 0 < pos_part opts.max_logs_per_span
    → pos_part opts.max_logs_per_span ≤ length s.raw.logs
    → let m = pos_part opts.max_logs_per_span in
      ((append_log opts s lr).raw.logs
        ≡ set s.raw.logs (num_old m + s.num_dropped_logs % num_new m) lr)
      × ((append_log opts s lr).num_dropped_logs ≡ s.num_dropped_logs + 1)
unfolding append_log
append_log_full opts s lr h k = ground arith

pub length-Holds :
    {max_logs : ℕ} {all logs : List LogRecord} {d : ℕ}
    → Holds max_logs all logs d
    → 0 < max_logs
    → length logs ≡ max_logs
length-Holds h some_logs = omega (
  arith,
  ap length h.logs_eq,
  length-append h.kept (h.newest ++ h.older),
  length-append h.newest h.older,
  h.kept_length,
  h.circular_length,
)

-- `appendLog` keeps the account of all records.
append_log-Keeps :
    (opts : Options) (s : Span) (all : List LogRecord) (lr : LogRecord)
    → 0 < pos_part opts.max_logs_per_span
    → Keeps (pos_part opts.max_logs_per_span) all s
    → Keeps (pos_part opts.max_logs_per_span) (all ++ (lr ∷ [])) (append_log opts s lr)
append_log-Keeps opts s all lr h (complete e d0 l) =
    let room = append_log_room opts s lr l in
    elim (dec_lt (length all + 1) (pos_part opts.max_logs_per_span)) [
      | yes p ↦
          complete (room.0 ∙ ap (λ t. t ++ (lr ∷ [])) e) (room.1 ∙ d0)
            (omega (arith, ap length room.0, length-append s.raw.logs (lr ∷ []), ap length e))
      | no p ↦
          rw (room.0, room.1, e, d0)
            (circular (fill (pos_part opts.max_logs_per_span) all lr (omega (arith, ap length e))))
    ]
append_log-Keeps opts s all lr h (circular k) =
    let full = append_log_full opts s lr h (omega (arith, length-Holds k h)) in
    rw (full.0, full.1)
      (circular (
        overwrite (pos_part opts.max_logs_per_span) all s.raw.logs s.num_dropped_logs lr h k k.older
          refl))

pub append_logs-Keeps :
    (opts : Options) (records : List LogRecord) (s : Span) (all : List LogRecord)
    → 0 < pos_part opts.max_logs_per_span
    → Keeps (pos_part opts.max_logs_per_span) all s
    → Keeps (pos_part opts.max_logs_per_span) (all ++ records) (append_logs opts s records)
unfolding append_logs
append_logs-Keeps opts [] s all h k = rw (append-nil all) k
append_logs-Keeps opts (lr ∷ records) s all h k = rw (← append_assoc all (lr ∷ []) records) (
    append_logs-Keeps opts records (append_log opts s lr) (all ++ (lr ∷ [])) h
      (append_log-Keeps opts s all lr h k))
