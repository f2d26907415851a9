-- ===== src/Session.antt =====
-- internal/core/state.go: the session state machine. A call of `Transition` holds the mutex, so it
-- is one step of the model.
pub mod Tests
pub mod Table
use mi_ster_groovy_relay.Prelude.{Option, none, some, List, [], ◌∷◌}

pub data State : Type 0 where
  idle : State
  playing : State
  paused : State

-- An event is a string; `other` is any that is not one of the constants.
pub data Event : Type 0 where
  play_media : Event
  pause : Event
  play : Event
  stop : Event
  seek : Event
  eof : Event
  error : Event
  other : Event

pub data TransitionError : Type 0 where
  cannot_pause : State → TransitionError
  cannot_play : State → TransitionError
  cannot_seek : TransitionError
  unknown_event : TransitionError

-- `New`
abbrev pub new : State
new = idle

-- The state after the event, and the error, if any.
unfoldable pub transition : State → Event → State × Option TransitionError
transition s play_media = (playing, none)
transition playing pause = (paused, none)
transition s pause = (s, some (cannot_pause s))
transition paused play = (playing, none)
transition s play = (s, some (cannot_play s))
transition s stop = (idle, none)
transition s eof = (idle, none)
transition s error = (idle, none)
transition idle seek = (idle, some cannot_seek)
transition s seek = (s, none)
transition s other = (s, some unknown_event)

-- A sequence of calls.
unfoldable pub run : State → List Event → State
unfolding transition
run s [] = s
run s (e ∷ es) = run (transition s e).0 es
