-- ===== src/Playback/Tests.antt =====
-- internal/adapters/registry.go and internal/playback: the theorems at small values.
use mi_ster_groovy_relay.Prelude.{ℕ, ◌≡◌, refl, ◌≢◌, true, Option, some, [], ◌∷◌, arith}
use Prim.Native.String.{String}
use text.Mathlib.Text.{◌==◌ as str_eq}
use text.Mathlib.TextEquality.{eq_iff}
use mi_ster_groovy_relay.Prelude.Int.{negsuc}
use mi_ster_groovy_relay.Session.{playing}
use mi_ster_groovy_relay.Playback.Registry.{Registry, new_registry, register}
use mi_ster_groovy_relay.Playback.Registry.Listing.{
  Registered, register-Registered, new_registry-Holds,
}
use mi_ster_groovy_relay.Playback.Dispatcher.{
  Snapshot, Request, Errors, Adapter, session_changed_message, handle_playback_action,
}
use mi_ster_groovy_relay.Playback.Dispatcher.Guard.{
  Called, IsTyped, handle_playback_action-Called, handle_playback_action-IsTyped,
}

-- A provider is a number here, and so is a result; an error is its message.
abbrev plex : Adapter ℕ
plex = record { name = "plex"; provider = some 7 }

register-Registered_example :
    Registered
      (λ (a : Adapter ℕ). a.name)
      []
      plex
      (register (λ (a : Adapter ℕ). a.name) new_registry plex)
register-Registered_example =
    register-Registered (λ (a : Adapter ℕ). a.name) new_registry [] plex
      (new_registry-Holds (λ (a : Adapter ℕ). a.name))

abbrev registry : Registry (Adapter ℕ)
registry = record { order = "plex" ∷ []; adapters = ("plex", plex) ∷ [] }

abbrev texts : Errors String
texts = record {
  session_changed = session_changed_message;
  unsupported = "unsupported";
  is_session_changed = λ e. str_eq e session_changed_message;
  message = λ e. e;
}

abbrev snapshot : Snapshot Unit
snapshot = record {
  state = playing;
  adapter_ref = "plex:1";
  source = "";
  generation = 3;
  rest = tt;
}

abbrev request : Request
request = record { action = "seek"; adapter_ref = "plex:1"; generation = 3; offset_ms = negsuc 4 }

abbrev refuse : ℕ → Request → ℕ × Option String
refuse p r = (0, some session_changed_message)

handle_playback_action-Called_example :
    Called texts 0 refuse
      (some snapshot)
      (some registry)
      request
      (handle_playback_action texts 0 refuse (some snapshot) (some registry) request)
handle_playback_action-Called_example =
    handle_playback_action-Called texts 0 refuse (some snapshot) (some registry) request

own : texts.is_session_changed texts.session_changed ≡ true
own = refl

apart : texts.message texts.unsupported ≢ session_changed_message
apart = ground (arith, eq_iff "unsupported" session_changed_message)

handle_playback_action-IsTyped_example :
    IsTyped texts
      (handle_playback_action texts 0 refuse (some snapshot) (some registry) request).1.1
handle_playback_action-IsTyped_example =
    handle_playback_action-IsTyped texts 0 refuse (some snapshot) (some registry) request own apart
