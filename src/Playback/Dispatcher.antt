-- ===== src/Playback/Dispatcher.antt =====
-- internal/playback/dispatcher.go: the shared playback view and the guard of its actions. The
-- status viewer gives a snapshot, or is nil; a snapshot's other fields, which only pass through,
-- are `rest`. Adapters, providers, views, results and errors are argument types.
pub mod Guard
use mi_ster_groovy_relay.Prelude.{
  ℕ, ◌/◌, Bool, true, false, not, ◌&&◌, ◌||◌, Option, none, some, List, [], ◌∷◌, ◌==◌,
  if◌then◌else◌,
}
use Prim.Native.String.{String, ◌++◌ as append}
use text.Mathlib.Text.{◌==◌ as str_eq, starts_with}
use mi_ster_groovy_relay.Prelude.Int.{ℤ, pos, negsuc}
use mi_ster_groovy_relay.Session.{State, idle, playing, paused}
use mi_ster_groovy_relay.Playback.Registry.{Registry, get, list}

pub record Snapshot (X : Type 0) : Type 0 where
  pub state : State
  pub adapter_ref : String
  pub source : String
  pub generation : ℕ
  pub rest : X

pub record Request : Type 0 where
  pub action : String
  pub adapter_ref : String
  pub generation : ℕ
  pub offset_ms : ℤ

-- What the dispatcher knows of errors: its two sentinels, `errors.Is` with the first, `Error()`.
pub record Errors (E : Type 0) : Type 0 where
  pub session_changed : E
  pub unsupported : E
  pub is_session_changed : E → Bool
  pub message : E → String

-- What an adapter is to the dispatcher: its name, and its provider if it is one.
pub record Adapter (P : Type 0) : Type 0 where
  pub name : String
  pub provider : Option P

abbrev pub session_changed_message : String
session_changed_message = "active session changed"

abbrev is_idle : State → Bool
is_idle idle = true
is_idle playing = false
is_idle paused = false

unfoldable pub adapter_ref_belongs_to : String → String → Bool
adapter_ref_belongs_to adapter_name ref =
    starts_with ref (append adapter_name ":") || starts_with ref (append adapter_name "/")

-- The first adapter that the reference belongs to. A nil one would panic on `Name()`: a registry
-- lists none.
first_owner : {P : Type 0} → List (Option (Adapter P)) → String → Option P
unfolding adapter_ref_belongs_to
first_owner [] ref = none
first_owner (none ∷ rest) ref = none
first_owner (some a ∷ rest) ref =
    if adapter_ref_belongs_to a.name ref then a.provider else first_owner rest ref

-- A negative offset is 0.
abbrev clamp_offset : ℤ → ℤ
clamp_offset (pos n) = pos n
clamp_offset (negsuc n) = pos 0

abbrev pub clamp : Request → Request
clamp req = record req { offset_ms = clamp_offset req.offset_ms }

-- The provider's error, typed.
unfoldable pub typed : {R E : Type 0} → Errors E → R → R × Option E → R × Option E
typed errors empty (result, none) = (result, none)
typed errors empty (result, some e) =
    if not (errors.is_session_changed e) && str_eq (errors.message e) session_changed_message
    then (empty, some errors.session_changed)
    else (result, some e)

module _ {P X : Type 0} where
  -- A registry that is nil is `none`.
  unfoldable pub provider_for_snapshot : Option (Registry (Adapter P)) → Snapshot X → Option P
  unfolding first_owner get list
  provider_for_snapshot none snap = none
  provider_for_snapshot (some r) snap =
      let scan = first_owner (list r) snap.adapter_ref in
      if str_eq snap.adapter_ref ""
      then none
      else if str_eq snap.source ""
      then scan
      else (elim (get r snap.source) [ some a ↦ a.provider | none ↦ scan ])

  module _ {V : Type 0} (banner : P → Snapshot X → Option V) where
    unfoldable pub playback_view_for_snapshot :
        Option (Registry (Adapter P)) → Snapshot X → Option V
    unfolding provider_for_snapshot
    playback_view_for_snapshot registry snap =
        if is_idle snap.state
        then none
        else (elim (provider_for_snapshot registry snap) [ none ↦ none | some p ↦ banner p snap ])

    unfoldable pub playback_view : Option (Snapshot X) → Option (Registry (Adapter P)) → Option V
    unfolding playback_view_for_snapshot
    playback_view none registry = none
    playback_view (some snap) registry = playback_view_for_snapshot registry snap

  module _ {R E : Type 0} (errors : Errors E) (empty : R) (act : P → Request → R × Option E) where
    -- The provider that is called and its request, if any, and what is returned.
    unfoldable pub handle_playback_action :
        Option (Snapshot X)
        → Option (Registry (Adapter P))
        → Request
        → Option (P × Request) × (R × Option E)
    unfolding provider_for_snapshot typed
    handle_playback_action none registry raw = (none, (empty, some errors.session_changed))
    handle_playback_action (some snap) registry raw =
        let req = clamp raw in
        if is_idle snap.state
        then (none, (empty, some errors.session_changed))
        else if not (str_eq snap.adapter_ref req.adapter_ref)
            || not (snap.generation == req.generation)
        then (none, (empty, some errors.session_changed))
        else (elim (provider_for_snapshot registry snap) [
          | none ↦ (none, (empty, some errors.unsupported))
          | some p ↦ (some (p, req), typed errors empty (act p req))
        ])
