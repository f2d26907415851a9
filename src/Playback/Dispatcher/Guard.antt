-- ===== src/Playback/Dispatcher/Guard.antt =====
-- internal/playback/dispatcher.go: when a provider is called, and the errors that come back.
use mi_ster_groovy_relay.Prelude.{
  ◌≡◌, refl, sym, ap, ◌∙◌, ◌≢◌, ◌⊎◌, inl, inr, Bool, true, false, not, ◌||◌, Option, none, some,
  ◌==◌, ==_iff, Bool-cases, Option-cases,
}
use text.Mathlib.Text.{◌==◌ as str_eq}
use text.Mathlib.TextEquality.{eq_iff}
use mi_ster_groovy_relay.Playback.Registry.{Registry}
use mi_ster_groovy_relay.Playback.Dispatcher.{
  Snapshot, Request, Errors, Adapter, session_changed_message, is_idle, provider_for_snapshot,
  clamp, typed, handle_playback_action,
}

neither_not : (a b : Bool) → (not a || not b) ≡ false → (a ≡ true) × (b ≡ true)
neither_not true true h = (refl, refl)
neither_not true false h = absurd cc
neither_not false b h = absurd cc

-- Whatever reads as the canonical message is the sentinel, as far as `errors.Is` can tell.
abbrev pub IsTyped : {E : Type 0} → Errors E → Option E → Type 0
IsTyped errors none = Unit
IsTyped errors (some e) =
    errors.message e ≡ session_changed_message → errors.is_session_changed e ≡ true

typed-IsTyped :
    {R E : Type 0} (errors : Errors E) (empty : R)
    → errors.is_session_changed errors.session_changed ≡ true
    → (r : R × Option E) → IsTyped errors (typed errors empty r).1
unfolding typed
typed-IsTyped errors empty own (res, none) = tt
typed-IsTyped errors empty own (res, some x) = elim (Bool-cases (errors.is_session_changed x)) [
  | inl known ↦ rw (typed, known) (λ reads. known)
  | inr unknown ↦ elim (Bool-cases (str_eq (errors.message x) session_changed_message)) [
    | inl alike ↦ rw (typed, unknown, alike) (λ reads. own)
    | inr unlike ↦
        rw (typed, unknown, unlike)
          (λ reads. absurd (let u : true ≡ false = sym ((eq_iff _ _).1 reads) ∙ unlike in cc))
  ]
]

module _ {P X R E : Type 0} (errors : Errors E) (empty : R) (act : P → Request → R × Option E) where
  -- The session that the request means is the active one, and its adapter has controls: `p`.
  pub record Guarded (status : Option (Snapshot X)) (registry : Option (Registry (Adapter P)))
      (raw : Request) (p : P) : Type 0 where
    pub snap : Snapshot X
    pub active : status ≡ some snap
    pub busy : is_idle snap.state ≡ false
    pub same_ref : snap.adapter_ref ≡ raw.adapter_ref
    pub same_generation : snap.generation ≡ raw.generation
    pub provider : provider_for_snapshot registry snap ≡ some p

  -- What a call of the handler does: it calls a provider exactly where there is one to call.
  abbrev pub Called :
      Option (Snapshot X)
      → Option (Registry (Adapter P))
      → Request
      → Option (P × Request) × (R × Option E)
      → Type 0
  Called status registry raw (none, out) =
      ((p : P) → ¬ Guarded status registry raw p)
      × ((out ≡ (empty, some errors.session_changed)) ⊎ (out ≡ (empty, some errors.unsupported)))
  Called status registry raw (some (p, req), out) =
      Guarded status registry raw p × (req ≡ clamp raw) × (out ≡ typed errors empty (act p req))

  rejected :
      (snap : Snapshot X) (registry : Option (Registry (Adapter P))) (raw : Request)
      → ((not (str_eq snap.adapter_ref raw.adapter_ref) || not (snap.generation == raw.generation))
          ≡ true)
      → (p : P) → ¬ Guarded (some snap) registry raw p
  rejected snap registry raw h p g =
      let same : snap ≡ g.snap = (let e = g.active in cc) in
      let ref : str_eq snap.adapter_ref raw.adapter_ref ≡ true =
        (eq_iff _ _).1 (ap (λ s. s.adapter_ref) same ∙ g.same_ref) in
      let gen : (snap.generation == raw.generation) ≡ true =
        (==_iff _ _).1 (ap (λ s. s.generation) same ∙ g.same_generation) in
      absurd (let u : false ≡ true = rw (ref, gen) at h in cc)

  unserved :
      (snap : Snapshot X) (registry : Option (Registry (Adapter P))) (raw : Request)
      → provider_for_snapshot registry snap ≡ none
      → (p : P) → ¬ Guarded (some snap) registry raw p
  unserved snap registry raw lost p g =
      let same : snap ≡ g.snap = (let e = g.active in cc) in
      let e : none ≡ some p = sym lost ∙ ap (provider_for_snapshot registry) same ∙ g.provider in
      absurd cc

  guarded :
      (snap : Snapshot X) (registry : Option (Registry (Adapter P))) (raw : Request) (p : P)
      → is_idle snap.state ≡ false
      → ((not (str_eq snap.adapter_ref raw.adapter_ref) || not (snap.generation == raw.generation))
          ≡ false)
      → provider_for_snapshot registry snap ≡ some p
      → Guarded (some snap) registry raw p
  guarded snap registry raw p busy same found =
      let (ref, gen) = neither_not _ _ same in
      record {
        snap = snap;
        active = refl;
        busy = busy;
        same_ref = (eq_iff _ _).0 ref;
        same_generation = (==_iff _ _).0 gen;
        provider = found;
      }

  -- HandlePlaybackAction calls a provider exactly where there is an active session that is not
  -- idle, of the request's adapter reference and generation, whose adapter has controls; then it is
  -- that provider, with the request and no negative offset, and the answer is the provider's, its
  -- error typed. Otherwise nothing is called and the error is one of the two sentinels.
  pub handle_playback_action-Called :
      (status : Option (Snapshot X)) (registry : Option (Registry (Adapter P))) (raw : Request)
      → Called status registry raw (handle_playback_action errors empty act status registry raw)
  unfolding handle_playback_action
  handle_playback_action-Called none registry raw =
      (λ p g. absurd (let e = g.active in cc), inl refl)
  handle_playback_action-Called (some snap) registry raw = elim (Bool-cases (is_idle snap.state)) [
    | inl resting ↦
        rw (handle_playback_action, resting)
          (
            λ p g.
                let same : snap ≡ g.snap = (let e = g.active in cc) in
                let u : true ≡ false = sym resting ∙ ap (λ s. is_idle s.state) same ∙ g.busy in
                absurd cc,
            inl refl,
          )
    | inr busy ↦
        elim (Bool-cases (
          not (str_eq snap.adapter_ref raw.adapter_ref)
          || not (snap.generation == raw.generation))) [
            | inl other ↦
                rw (handle_playback_action, busy, other)
                  (rejected snap registry raw other, inl refl)
            | inr same ↦ elim (Option-cases (provider_for_snapshot registry snap)) [
              | inl lost ↦
                  rw (handle_playback_action, busy, same, lost)
                    (unserved snap registry raw lost, inr refl)
              | inr (p, found) ↦
                  rw (handle_playback_action, busy, same, found)
                    (guarded snap registry raw p busy same found, refl, refl)
            ]
          ]
  ]

  Called-IsTyped :
      (status : Option (Snapshot X)) (registry : Option (Registry (Adapter P))) (raw : Request)
      → errors.is_session_changed errors.session_changed ≡ true
      → errors.message errors.unsupported ≢ session_changed_message
      → (call : Option (P × Request) × (R × Option E)) → Called status registry raw call
      → IsTyped errors call.1.1
  Called-IsTyped status registry raw own apart (none, out) (refused, inl e) = rw e (λ reads. own)
  Called-IsTyped status registry raw own apart (none, out) (refused, inr e) =
      rw e (λ reads. absurd (apart reads))
  Called-IsTyped status registry raw own apart (some (p, req), out) (g, same, e) =
      rw e (typed-IsTyped errors empty own (act p req))

  -- Where `errors.Is` finds the session-changed sentinel in itself and the other sentinel reads
  -- otherwise: any error of HandlePlaybackAction that reads as the canonical message is one in
  -- which `errors.Is` finds the sentinel.
  pub handle_playback_action-IsTyped :
      (status : Option (Snapshot X)) (registry : Option (Registry (Adapter P))) (raw : Request)
      → errors.is_session_changed errors.session_changed ≡ true
      → errors.message errors.unsupported ≢ session_changed_message
      → IsTyped errors (handle_playback_action errors empty act status registry raw).1.1
  handle_playback_action-IsTyped status registry raw own apart =
      Called-IsTyped status registry raw own apart
        (handle_playback_action errors empty act status registry raw)
        (handle_playback_action-Called status registry raw)
