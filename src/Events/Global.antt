-- ===== src/Events/Global.antt =====
-- event_handlers.go: the global handler, and what each handler sees of the events. A handler is an index, since a
-- handler that is set again keeps its state.
use lightstep_tracer_go.Events.{Event, event_err}
use lightstep_tracer_go.Events.Handlers.{
  LogOneError, new_log_one_error, on_event, EventChannel, send_event, on_events, send_events,
  errors_of, one_error_line, on_events_lem, send_events_added,
}
use lightstep_tracer_go.Events.Texts.{event_text}
use lightstep_tracer_go.Time.{Time}
use lightstep_tracer_go.Base.{
  ℕ, Text, List, ◌∷◌, [], ◌++◌, ◌==◌, if◌then◌else◌, ◌≡◌, refl, codes, some, none, map, take,
  Bool-cases, inl, ◌∙◌, inr, ap, sym, append-nil, append_assoc, ◌-◌, subst, length,
}

-- The handlers of this file with their states, and a handler of the user with the events it was called with.
pub data EventHandler : Type 0 where
  log_events : List Text → EventHandler
  log_one_error : LogOneError → EventHandler
  event_channel : EventChannel → EventHandler
  user_handler : List Event → EventHandler

pub record GlobalHandler : Type 0 where
  pub current : ℕ
  pub handlers : ℕ → EventHandler

-- `init`, with the handlers that the program makes later.
unfoldable pub init : (ℕ → EventHandler) → GlobalHandler
init others = record {
  current = 0;
  handlers = λ i. if i == 0 then log_one_error new_log_one_error else others i;
}

-- `SetGlobalEventHandler`
unfoldable pub set_global_event_handler : GlobalHandler → ℕ → GlobalHandler
set_global_event_handler g i = record g { current = i }

pub data HandlerStep : Type 0 where
  setting : ℕ → HandlerStep
  emitting : Event → HandlerStep

module _ (time_text : Time → Text) where
  -- The line that `logOnEvent` prints.
  unfoldable pub event_line : Event → Text
  unfolding event_err event_text
  event_line e = elim (event_err e) [
    | some err ↦ codes "LS Tracer error:  " ++ event_text time_text e
    | none ↦ codes "LS Tracer event:  " ++ event_text time_text e
  ]

  unfoldable pub handle : EventHandler → Event → EventHandler
  unfolding event_line
  handle (log_events lines) e = log_events (lines ++ (event_line e ∷ []))
  handle (log_one_error l) e = log_one_error (on_event l e)
  handle (event_channel c) e = event_channel (send_event c e)
  handle (user_handler events) e = user_handler (events ++ (e ∷ []))

  -- `emitEvent`
  unfoldable pub emit_event : GlobalHandler → Event → GlobalHandler
  unfolding handle
  emit_event g e = record g {
    handlers = λ i. if i == g.current then handle (g.handlers i) e else g.handlers i;
  }

  unfoldable pub run_steps : List HandlerStep → GlobalHandler → GlobalHandler
  unfolding emit_event set_global_event_handler
  run_steps [] g = g
  run_steps (setting i ∷ steps) g = run_steps steps (set_global_event_handler g i)
  run_steps (emitting e ∷ steps) g = run_steps steps (emit_event g e)

  -- The events that are emitted while the handler is set.
  abbrev pub seen : ℕ → ℕ → List HandlerStep → List Event
  seen i current [] = []
  seen i current (setting j ∷ steps) = seen i j steps
  seen i current (emitting e ∷ steps) =
      if i == current then e ∷ seen i current steps else seen i current steps

  unfoldable pub handle_all : EventHandler → List Event → EventHandler
  unfolding handle
  handle_all h [] = h
  handle_all h (e ∷ events) = handle_all (handle h e) events

  run_steps_lem :
      (i : ℕ) (steps : List HandlerStep) (g : GlobalHandler)
      → (run_steps steps g).handlers i ≡ handle_all (g.handlers i) (seen i g.current steps)
  unfolding run_steps emit_event set_global_event_handler handle_all
  run_steps_lem i [] g = refl
  run_steps_lem i (setting j ∷ steps) g = run_steps_lem i steps (set_global_event_handler g j)
  run_steps_lem i (emitting e ∷ steps) g =
      run_steps_lem i steps (emit_event g e)
      ∙ elim (Bool-cases (i == g.current)) [ inl same ↦ rw same refl | inr other ↦ rw other refl ]

  handle_all-channel :
      (c : EventChannel) (events : List Event)
      → handle_all (event_channel c) events ≡ event_channel (send_events c events)
  unfolding handle_all send_events
  handle_all-channel c [] = refl
  handle_all-channel c (e ∷ events) = handle_all-channel (send_event c e) events

  handle_all-one_error :
      (l : LogOneError) (events : List Event)
      → handle_all (log_one_error l) events ≡ log_one_error (on_events l events)
  unfolding handle_all on_events
  handle_all-one_error l [] = refl
  handle_all-one_error l (e ∷ events) = handle_all-one_error (on_event l e) events

  handle_all-user :
      (before events : List Event)
      → handle_all (user_handler before) events ≡ user_handler (before ++ events)
  unfolding handle_all
  handle_all-user before [] = ap user_handler (sym (append-nil before))
  handle_all-user before (e ∷ events) =
      handle_all-user (before ++ (e ∷ [])) events
      ∙ ap user_handler (append_assoc before (e ∷ []) events)

  handle_all-logger :
      (lines : List Text) (events : List Event)
      → handle_all (log_events lines) events ≡ log_events (lines ++ map event_line events)
  unfolding handle_all
  handle_all-logger lines [] = ap log_events (sym (append-nil lines))
  handle_all-logger lines (e ∷ events) =
      handle_all-logger (lines ++ (event_line e ∷ [])) events
      ∙ ap log_events (append_assoc lines (event_line e ∷ []) (map event_line events))

  -- What a handler that saw the events has become.
  unfoldable pub Handled : EventHandler → List Event → EventHandler → Type 0
  Handled (log_events lines) events h = h ≡ log_events (lines ++ map event_line events)
  Handled (log_one_error l) events h =
      (l' : LogOneError) × (h ≡ log_one_error l')
      × (l'.printed
          ≡ l.printed ++ (if l.done then [] else map one_error_line (take 1 (errors_of events))))
  Handled (event_channel c) events h =
      (c' : EventChannel) × (h ≡ event_channel c')
      × (c'.queued ≡ c.queued ++ take (c.buffer - length c.queued) events)
  Handled (user_handler before) events h = h ≡ user_handler (before ++ events)

  handle_all-Handled :
      (h : EventHandler) (events : List Event) → Handled h events (handle_all h events)
  unfolding Handled
  handle_all-Handled (log_events lines) events = handle_all-logger lines events
  handle_all-Handled (log_one_error l) events =
      (on_events l events, handle_all-one_error l events, on_events_lem events l)
  handle_all-Handled (event_channel c) events =
      (send_events c events, handle_all-channel c events, send_events_added events c)
  handle_all-Handled (user_handler before) events = handle_all-user before events

  -- Over any changes of the global handler and any events, each handler gets exactly the events that are
  -- emitted while it is set, in their order: a logger prints a line for each, `NewEventLogOneError` prints
  -- the first error if it has printed none, a channel that nobody reads takes the first events that it has
  -- room for, and a handler of the user is called with each.
  pub run_steps-Handled :
      (steps : List HandlerStep) (g : GlobalHandler) (i : ℕ)
      → Handled (g.handlers i) (seen i g.current steps) ((run_steps steps g).handlers i)
  run_steps-Handled steps g i =
      subst (Handled (g.handlers i) (seen i g.current steps)) (sym (run_steps_lem i steps g))
        (handle_all-Handled (g.handlers i) (seen i g.current steps))
