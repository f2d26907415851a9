-- ===== src/Session/Tests.antt =====
-- internal/core/state.go: the theorems at concrete sessions.
use mi_ster_groovy_relay.Prelude.{◌≡◌, refl, ◌↔◌, ◌⊎◌, none, some, [], ◌∷◌}
use mi_ster_groovy_relay.Session.{
  idle, playing, seek, pause, eof, cannot_seek, transition, run, play_media,
}
use mi_ster_groovy_relay.Session.Table.{Step, transition_iff, run_idle, Mem}

transition_iff_example : (transition playing seek ≡ (playing, none)) ↔ Step playing seek playing
transition_iff_example = transition_iff playing seek playing

rejects : (transition idle seek).1 ≡ some cannot_seek
unfolding transition
rejects = refl

run_idle_example : (run idle (pause ∷ eof ∷ []) ≡ idle) ⊎ Mem play_media (pause ∷ eof ∷ [])
run_idle_example = run_idle (pause ∷ eof ∷ [])
