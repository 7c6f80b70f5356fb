-- ===== src/LogEncoder/Truncation.antt =====
-- proto_logencoder.go: the limits on the keys and values of logs. The code cuts bytes, and the ellipsis takes
-- three of them.
use lightstep_tracer_go.Proto.{string_value, json_value}
use lightstep_tracer_go.LogEncoder.{
  too_long, ProtoConverter, cut, set_safe_key, set_safe_string_value, set_safe_json_value, ellipsis,
}
use lightstep_tracer_go.Base.{
  ℕ, Text, ◌≡◌, ◌<◌, ◌⊎◌, length, true, take, false, ◌+◌, ◌≤◌, arith, ◌++◌, ◌-◌, length-append, inl,
  length-take, refl, inr,
}

-- A text under a limit: unchanged, or the prefix that leaves out one byte more, and the ellipsis.
pub data Limited (max_len : ℕ) (s shown : Text) : Type 0 where
  whole : (max_len ≡ 0) ⊎ (length s ≤ max_len) → shown ≡ s → Limited max_len s shown
  shortened :
      (kept : Text)
      → 0 < max_len
      → max_len < length s
      → shown ≡ kept ++ ellipsis
      → take (max_len - 1) s ≡ kept
      → length shown ≡ max_len + 2
      → Limited max_len s shown

limited_cases :
    (max_len : ℕ) (s : Text)
    → ((too_long max_len s ≡ true) × (0 < max_len) × (max_len < length s))
      ⊎ ((too_long max_len s ≡ false) × ((max_len ≡ 0) ⊎ (length s ≤ max_len)))
unfolding too_long
limited_cases max_len s = ground arith

length-cut :
    (max_len : ℕ) (s : Text)
    → 0 < max_len
    → max_len < length s
    → length (cut max_len s) ≡ max_len + 2
unfolding cut
length-cut max_len s h k =
    omega (arith, length-append (take (max_len - 1) s) ellipsis, length-take (max_len - 1) s)

cut-Limited :
    (max_len : ℕ) (s : Text) → 0 < max_len → max_len < length s → Limited max_len s (cut max_len s)
cut-Limited max_len s h k =
    shortened (take (max_len - 1) s) h k (unfold cut in refl) refl (length-cut max_len s h k)

set_safe_key-Limited :
    (c : ProtoConverter) (key : Text) → Limited c.max_log_key_len key (set_safe_key c key)
unfolding set_safe_key
set_safe_key-Limited c key = elim (limited_cases c.max_log_key_len key) [
  | inl (e, h, k) ↦ rw (e, set_safe_key) (cut-Limited c.max_log_key_len key h k)
  | inr (e, h) ↦ rw (e, set_safe_key) (whole h refl)
]

set_safe_string_value-Limited :
    (c : ProtoConverter) (s : Text)
    → (shown : Text) × (set_safe_string_value c s ≡ string_value shown)
      × Limited c.max_log_value_len s shown
unfolding set_safe_string_value
set_safe_string_value-Limited c s = elim (limited_cases c.max_log_value_len s) [
  | inl (e, h, k) ↦ (
    cut c.max_log_value_len s,
    rw (e, set_safe_string_value) refl,
    cut-Limited c.max_log_value_len s h k,
  )
  | inr (e, h) ↦ (s, rw (e, set_safe_string_value) refl, whole h refl)
]

set_safe_json_value-Limited :
    (c : ProtoConverter) (s : Text)
    → (shown : Text) × Limited c.max_log_value_len s shown
      × (((set_safe_json_value c s ≡ json_value shown) × (shown ≡ s))
          ⊎ ((set_safe_json_value c s ≡ string_value shown) × (c.max_log_value_len < length s)))
unfolding set_safe_json_value
set_safe_json_value-Limited c s = elim (limited_cases c.max_log_value_len s) [
  | inl (e, h, k) ↦ (
    cut c.max_log_value_len s,
    cut-Limited c.max_log_value_len s h k,
    inr (rw (e, set_safe_json_value) refl, k),
  )
  | inr (e, h) ↦ (s, whole h refl, inl (rw (e, set_safe_json_value) refl, refl))
]

-- The key, the string value and the JSON value of a log, under their limits: each is shown whole if it has
-- at most as many bytes as its limit or the limit is 0, and else as its first bytes, one fewer than the
-- limit, and the ellipsis, which makes two bytes more than the limit. A JSON text that is not shown whole is
-- a string value, and the others are JSON values.
pub set_safe_lem :
    (c : ProtoConverter) (key s : Text)
    → Limited c.max_log_key_len key (set_safe_key c key)
      × ((shown : Text) × (set_safe_string_value c s ≡ string_value shown)
          × Limited c.max_log_value_len s shown)
      × ((shown : Text) × Limited c.max_log_value_len s shown
          × (((set_safe_json_value c s ≡ json_value shown) × (shown ≡ s))
              ⊎ ((set_safe_json_value c s ≡ string_value shown)
                  × (c.max_log_value_len < length s))))
set_safe_lem c key s =
    (set_safe_key-Limited c key, set_safe_string_value-Limited c s, set_safe_json_value-Limited c s)
