-- ===== src/Session/Table.antt =====
-- internal/core/state.go: the transition table that the comment of `StateMachine` documents.
use mathlib.Core.Path.{subst}
use mi_ster_groovy_relay.Prelude.{
  ◌≡◌, refl, sym, ap, ◌↔◌, ◌⊎◌, inl, inr, Option, none, some, List, [], ◌∷◌,
}
use mi_ster_groovy_relay.Session.{
  State, idle, playing, paused, Event, play_media, pause, play, stop, seek, eof, error, other,
  TransitionError, transition, run,
}

pub data Step : State → Event → State → Type 0 where
  preempts : {s : State} → Step s play_media playing
  pauses : Step playing pause paused
  resumes : Step paused play playing
  stops : {s : State} → Step s stop idle
  ends : {s : State} → Step s eof idle
  fails : {s : State} → Step s error idle
  seeks_playing : Step playing seek playing
  seeks_paused : Step paused seek paused

transition-Step : {s t : State} {e : Event} → Step s e t → transition s e ≡ (t, none)
unfolding transition
transition-Step (preempts {s}) = refl
transition-Step pauses = refl
transition-Step resumes = refl
transition-Step (stops {s}) = refl
transition-Step (ends {s}) = refl
transition-Step (fails {s}) = refl
transition-Step seeks_playing = refl
transition-Step seeks_paused = refl

-- What `transition` does with an event: a step of the table, or an error that leaves the state.
abbrev Outcome : State → State × Option TransitionError → Event → Type 0
Outcome s (t, none) e = Step s e t
Outcome s (t, some x) e = t ≡ s

transition-Outcome : (s : State) (e : Event) → Outcome s (transition s e) e
unfolding transition
transition-Outcome s play_media = preempts
transition-Outcome idle pause = refl
transition-Outcome playing pause = pauses
transition-Outcome paused pause = refl
transition-Outcome idle play = refl
transition-Outcome playing play = refl
transition-Outcome paused play = resumes
transition-Outcome s stop = stops
transition-Outcome s eof = ends
transition-Outcome s error = fails
transition-Outcome idle seek = refl
transition-Outcome playing seek = seeks_playing
transition-Outcome paused seek = seeks_paused
transition-Outcome s other = refl

-- `Transition` succeeds exactly on the steps of the documented table, with the table's new state.
pub transition_iff : (s : State) (e : Event) (t : State) → (transition s e ≡ (t, none)) ↔ Step s e t
transition_iff s e t = (λ h. subst (λ r. Outcome s r e) h (transition-Outcome s e), transition-Step)

-- An event that `Transition` rejects leaves the state as it was.
pub transition_rejected :
    (s : State) (e : Event) (x : TransitionError)
    → (transition s e).1 ≡ some x
    → (transition s e).0 ≡ s
transition_rejected s e x h =
    let at : transition s e ≡ ((transition s e).0, some x) = ap (λ o. ((transition s e).0, o)) h in
    subst (λ r. Outcome s r e) at (transition-Outcome s e)

abbrev pub Mem : Event → List Event → Type 0
Mem e [] = ⊥
Mem e (x ∷ xs) = (e ≡ x) ⊎ Mem e xs

leaves_idle : (e : Event) → (e ≡ play_media) ⊎ ((transition idle e).0 ≡ idle)
unfolding transition
leaves_idle play_media = inl refl
leaves_idle pause = inr refl
leaves_idle play = inr refl
leaves_idle stop = inr refl
leaves_idle seek = inr refl
leaves_idle eof = inr refl
leaves_idle error = inr refl
leaves_idle other = inr refl

-- From idle, a sequence of calls without a play-media event ends idle: however the calls before
-- went, a session that is not idle was started by one.
pub run_idle : (es : List Event) → (run idle es ≡ idle) ⊎ Mem play_media es
unfolding run
run_idle [] = inl refl
run_idle (e ∷ es) = elim (leaves_idle e) [
  | inl p ↦ inr (inl (sym p))
  | inr i ↦ elim (run_idle es) [ inl done ↦ inl (rw i done) | inr m ↦ inr (inr m) ]
]
