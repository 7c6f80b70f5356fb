-- ===== src/Events/Handlers.antt =====
-- event_handlers.go: the handler that logs the first error only, and the handler that fills a channel.
use lightstep_tracer_go.Base.Int.{ℤ, ltb_ℤ, pos, pos_part}
use lightstep_tracer_go.Base.{
  ℕ, none, Bool, List, false, if◌then◌else◌, ◌∷◌, [], ◌≡◌, Text, length, some, ltb, take, ◌++◌,
  true, ◌≤◌, arith, sym, ap, append-nil, ◌∙◌, take_of_length-le, dec_lt, lt→ltb, le→ltb, ◌<◌,
  length-append, append_assoc, map, codes, ◌-◌, suc, zero,
}
use lightstep_tracer_go.Events.{Event, event_err}

-- The lines that `log` was asked to print, newest last.
pub record LogOneError : Type 0 where
  pub done : Bool
  pub printed : List Text

unfoldable pub new_log_one_error : LogOneError
new_log_one_error = record { done = false; printed = [] }

-- The line of an error.
unfoldable pub one_error_line : Text → Text
one_error_line err =
    codes "LS Tracer error: ("
    ++ err
    ++ codes "). NOTE: Set the SetGlobalEventHandler handler to log events.\n"

-- `OnEvent`: the `sync.Once` runs its function at the first error event.
unfoldable pub on_event : LogOneError → Event → LogOneError
unfolding one_error_line
on_event l event = elim (event_err event) [
  | none ↦ l
  | some err ↦
      if l.done then l else record { done = true; printed = l.printed ++ (one_error_line err ∷ []) }
]

unfoldable pub on_events : LogOneError → List Event → LogOneError
on_events l [] = l
on_events l (e ∷ events) = on_events (on_event l e) events

-- A buffered channel of events, without its reader: the oldest event first.
pub record EventChannel : Type 0 where
  pub buffer : ℕ
  pub queued : List Event

-- `NewEventChannel`; the size is an `int` and may be negative.
unfoldable pub new_event_channel : ℤ → EventChannel
new_event_channel buffer = record {
  buffer = if ltb_ℤ buffer (pos 1) then 1 else pos_part buffer;
  queued = [];
}

-- The `select` drops the event where the send would block.
unfoldable pub send_event : EventChannel → Event → EventChannel
send_event c event =
    if ltb (length c.queued) c.buffer then record c { queued = c.queued ++ (event ∷ []) } else c

unfoldable pub send_events : EventChannel → List Event → EventChannel
send_events c [] = c
send_events c (e ∷ events) = send_events (send_event c e) events

-- The errors among the events.
unfoldable pub errors_of : List Event → List Text
errors_of [] = []
errors_of (e ∷ events) = elim (event_err e) [
  | none ↦ errors_of events
  | some err ↦ err ∷ errors_of events
]

send_event_room :
    (c : EventChannel) (e : Event)
    → length c.queued < c.buffer
    → send_event c e ≡ record c { queued = c.queued ++ (e ∷ []) }
unfolding send_event
send_event_room c e h = rw (lt→ltb (length c.queued) c.buffer h)

send_event_full : (c : EventChannel) (e : Event) → c.buffer ≤ length c.queued → send_event c e ≡ c
unfolding send_event
send_event_full c e h = rw (le→ltb (length c.queued) c.buffer h)

abbrev pub Printed : List Event → LogOneError → Type 0
Printed events l =
    (on_events l events).printed
    ≡ l.printed ++ (if l.done then [] else map one_error_line (take 1 (errors_of events)))

on_event-Printed :
    (done : Bool) (printed : List Text) (e : Event) (events : List Event)
    → ((l : LogOneError) → Printed events l)
    → Printed (e ∷ events) (record { done = done; printed = printed })
unfolding on_events on_event errors_of
on_event-Printed true printed e events rest =
    ground (arith, rest (record { done = true; printed = printed }))
on_event-Printed false printed e events rest =
    elim (event_err e)
      as (λ o.
        (on_events
          (elim o [
            | none ↦ record { done = false; printed = printed }
            | some err ↦ record { done = true; printed = printed ++ (one_error_line err ∷ []) }
          ])
          events).printed
        ≡ printed
          ++ map one_error_line
              (take 1 (elim o [ none ↦ errors_of events | some err ↦ err ∷ errors_of events ]))) [
                | none ↦ rest (record { done = false; printed = printed })
                | some err ↦
                    rest (record { done = true; printed = printed ++ (one_error_line err ∷ []) })
                    ∙ append-nil (printed ++ (one_error_line err ∷ []))
              ]

-- From any state of the handler: the first error is printed if none was before.
pub on_events_lem : (events : List Event) (l : LogOneError) → Printed events l
unfolding on_events errors_of
on_events_lem [] l = ground (arith, append-nil l.printed)
on_events_lem (e ∷ events) l = on_event-Printed l.done l.printed e events (on_events_lem events)

take_suc :
    (n : ℕ) (e : Event) (events : List Event)
    → 1 ≤ n
    → take n (e ∷ events) ≡ e ∷ take (n - 1) events
take_suc zero e events h = absurd (omega arith)
take_suc (suc n) e events h = ap (λ m. e ∷ take m events) (omega arith)

-- From any state of the channel: the first events that fit are added.
pub send_events_added :
    (events : List Event) (c : EventChannel)
    → (send_events c events).queued ≡ c.queued ++ take (c.buffer - length c.queued) events
unfolding send_events
send_events_added [] c = sym (
    ap (λ es. c.queued ++ es) (take_of_length-le (c.buffer - length c.queued) [] (omega arith))
    ∙ append-nil c.queued)
send_events_added (e ∷ events) c = elim (dec_lt (length c.queued) c.buffer) [
  | yes p ↦
      let c' : EventChannel = record c { queued = c.queued ++ (e ∷ []) } in
      let free : c.buffer - length c'.queued ≡ c.buffer - length c.queued - 1 =
        omega (arith, length-append c.queued (e ∷ [])) in
      ap (λ (t : EventChannel). (send_events t events).queued) (send_event_room c e p)
      ∙ send_events_added events c'
      ∙ append_assoc c.queued (e ∷ []) (take (c.buffer - length c'.queued) events)
      ∙ ap (λ k. c.queued ++ (e ∷ take k events)) free
      ∙ ap (λ es. c.queued ++ es)
          (sym (take_suc (c.buffer - length c.queued) e events (omega arith)))
  | no p ↦
      let full : c.buffer - length c.queued ≡ 0 = omega arith in
      ap (λ (t : EventChannel). (send_events t events).queued) (send_event_full c e (omega arith))
      ∙ send_events_added events c
      ∙ ap (λ k. c.queued ++ take k events) full
      ∙ ap (λ k. c.queued ++ take k (e ∷ events)) (sym full)
]

-- The handler of `NewEventLogOneError` prints one line with the first error of any sequence of events, and
-- nothing else.
pub on_events-first :
    (events : List Event)
    → (on_events new_log_one_error events).printed ≡ map one_error_line (take 1 (errors_of events))
unfolding new_log_one_error
on_events-first events = on_events_lem events new_log_one_error
