-- ===== src/Dataplane/FieldParity.antt =====
-- internal/dataplane/fieldparity.go: the tracker of the relation between the field bit that is sent
-- and the raster field that is reported. A relation is 0 or 1; -1 is `none`.
pub mod Lock
use Prim.Native.Nat.{bit_and, bit_xor}
use mi_ster_groovy_relay.Prelude.{
  ℕ, ◌+◌, ◌%◌, ◌^◌, Bool, true, false, not, ◌||◌, Option, none, some, List, ltb, ◌==◌,
  if◌then◌else◌, set, get_or, replicate,
}

abbrev pub field_parity_history : ℕ
field_parity_history = 64

abbrev pub field_parity_lock_samples : ℕ
field_parity_lock_samples = 30

pub record SentField : Type 0 where
  pub frame : ℕ
  pub field : ℕ
  pub recorded : Bool

pub record Tracker : Type 0 where
  pub sent : List SentField
  pub stable : Option ℕ
  pub candidate : Option ℕ
  pub candidate_run : ℕ
  pub slips : ℕ
  pub flutter : ℕ

abbrev pub blank : SentField
blank = record { frame = 0; field = 0; recorded = false }

unfoldable pub new_tracker : Tracker
new_tracker = record {
  sent = replicate field_parity_history blank;
  stable = none;
  candidate = none;
  candidate_run = 0;
  slips = 0;
  flutter = 0;
}

unfoldable pub record_sent : Tracker → ℕ → ℕ → Tracker
record_sent t frame field = record t {
  sent =
      set t.sent (frame % field_parity_history)
        (record { frame = frame; field = bit_and field 1; recorded = true });
}

abbrev pub is_relation : Option ℕ → ℕ → Bool
is_relation none rel = false
is_relation (some s) rel = s == rel

-- One agreeing sample more for a relation, or the first one.
unfoldable pub count_sample : Tracker → ℕ → Tracker
count_sample t rel =
    if is_relation t.candidate rel
    then record t { candidate_run = t.candidate_run + 1 }
    else record t { candidate = some rel; candidate_run = 1 }

unfoldable pub count_flutter : Tracker → Tracker
count_flutter t = elim t.stable [
  | none ↦ t
  | some s ↦ record t { flutter = (t.flutter + 1) % 2 ^ 64 }
]

-- The end of `observe`: nothing, the first lock, or a slip.
unfoldable pub settle : Tracker → ℕ → Tracker × Bool × Bool
settle t rel =
    let t' = record t { stable = some rel; candidate = none; candidate_run = 0 } in
    if ltb t.candidate_run field_parity_lock_samples then (t, false, false) else (elim t.stable [
      | none ↦ (t', true, false)
      | some s ↦ (record t' { slips = (t.slips + 1) % 2 ^ 64 }, false, true)
    ])

-- `observe` from the comparison with the locked relation on.
unfoldable pub observe_relation : Tracker → ℕ → Tracker × Bool × Bool
unfolding count_sample count_flutter settle
observe_relation t rel =
    if is_relation t.stable rel
    then (record t { candidate = none; candidate_run = 0 }, false, false)
    else settle (count_sample (count_flutter t) rel) rel

-- The tracker, and whether it locked first or slipped.
unfoldable pub observe : Tracker → ℕ → Bool → Tracker × Bool × Bool
unfolding observe_relation
observe t frame vga_f1 =
    let s = get_or t.sent (frame % field_parity_history) blank in
    let rel = (if vga_f1 then bit_xor s.field 1 else s.field) in
    if not s.recorded || not (s.frame == frame) then (t, false, false) else observe_relation t rel

-- `relation`
abbrev pub relation : Tracker → ℕ × Bool
relation t = elim t.stable [ none ↦ (0, false) | some s ↦ (s, true) ]
