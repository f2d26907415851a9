-- ===== src/Groovy/Modeline.antt =====
-- internal/groovy/builder.go: the modeline and the sizes that are derived from it.
-- `PClock` is the 64-bit pattern of the source's float64: the code copies it and never looks at its
-- digits, but for `FieldRate`, which is a parameter here (`FloatRate`).
use mi_ster_groovy_relay.Prelude.{
  ℕ, ◌+◌, ◌-◌, ◌*◌, ◌/◌, ◌%◌, ◌^◌, ◌<◌, Bool, not, ◌&&◌, Option, none, some, ◌==◌, if◌then◌else◌,
}

pub record Modeline : Type 0 where
  pub p_clock : ℕ
  pub h_active : ℕ
  pub h_begin : ℕ
  pub h_end : ℕ
  pub h_total : ℕ
  pub v_active : ℕ
  pub v_begin : ℕ
  pub v_end : ℕ
  pub v_total : ℕ
  pub interlace : ℕ

-- What a Go value of the struct can hold: a uint64 pattern, uint16 fields and a uint8.
pub record InRange (m : Modeline) : Type 0 where
  pub p_clock_fits : m.p_clock < 2 ^ 64
  pub h_active_fits : m.h_active < 2 ^ 16
  pub h_begin_fits : m.h_begin < 2 ^ 16
  pub h_end_fits : m.h_end < 2 ^ 16
  pub h_total_fits : m.h_total < 2 ^ 16
  pub v_active_fits : m.v_active < 2 ^ 16
  pub v_begin_fits : m.v_begin < 2 ^ 16
  pub v_end_fits : m.v_end < 2 ^ 16
  pub v_total_fits : m.v_total < 2 ^ 16
  pub interlace_fits : m.interlace < 2 ^ 8

unfoldable pub interlaced : Modeline → Bool
interlaced m = not (m.interlace == 0)

unfoldable pub field_lines : ℕ → ℕ → ℕ
field_lines v_active interlace = if not (interlace == 0) then v_active / 2 else v_active

unfoldable pub field_height : Modeline → ℕ
unfolding field_lines
field_height m = field_lines m.v_active m.interlace

unfoldable pub field_payload_bytes : ℕ → ℕ → ℕ → ℕ → ℕ
unfolding field_lines
field_payload_bytes h_active v_active interlace bytes_per_pixel =
    h_active * field_lines v_active interlace * bytes_per_pixel

-- The float part of `FieldRateRatio`: `int64(rate * 1000)` of the field rate, and `none` where the
-- rate is not positive. That is IEEE arithmetic, and no law of it is used.
abbrev pub FloatRate : Type 0
FloatRate = Modeline → Option ℕ

abbrev is_preset : ℕ → ℕ → ℕ → Modeline → Bool
is_preset h v i m = m.h_total == h && m.v_total == v && m.interlace == i

abbrev ratio_of_float : Option ℕ → ℕ × ℕ
ratio_of_float none = (1, 1)
ratio_of_float (some milli) = (milli, 1000)

unfoldable pub field_rate_ratio : FloatRate → Modeline → ℕ × ℕ
field_rate_ratio rate m =
    if is_preset 880 525 1 m
    then (60000, 1001)
    else if is_preset 880 263 0 m
    then (60000, 1001)
    else if is_preset 864 625 1 m
    then (50, 1)
    else if is_preset 864 312 0 m
    then (50, 1)
    else ratio_of_float (rate m)

-- The numerator is not negative, so Go's truncating division is the one on ℕ.
unfoldable pub source_fps : FloatRate → Modeline → ℕ
unfolding field_rate_ratio interlaced
source_fps rate m =
    let (n, d) = field_rate_ratio rate m in
    if d == 0 then 1 else if interlaced m then (n + 2 * d - 1) / (2 * d) else (n + d - 1) / d

unfoldable pub plex_transcode_size : Modeline → ℕ × ℕ
unfolding interlaced
plex_transcode_size m =
    let h = m.v_active in
    let w = h * 4 / 3 in
    if interlaced m then (m.h_active, h) else ((if not (w % 2 == 0) then w + 1 else w), h)

-- uint16 sums wrap.
abbrev add_u16 : ℕ → ℕ → ℕ
add_u16 a b = (a + b) % 2 ^ 16

unfoldable pub modeline_from_porches : ℕ → ℕ → ℕ → ℕ → ℕ → ℕ → ℕ → ℕ → ℕ → ℕ → Modeline
modeline_from_porches p_clock h_active h_front h_sync h_back v_active v_front v_sync v_back
      interlace =
    let h_begin = add_u16 h_active h_front in
    let h_end = add_u16 h_begin h_sync in
    let v_begin = add_u16 v_active v_front in
    let v_end = add_u16 v_begin v_sync in
    record {
      p_clock = p_clock;
      h_active = h_active;
      h_begin = h_begin;
      h_end = h_end;
      h_total = add_u16 h_end h_back;
      v_active = v_active;
      v_begin = v_begin;
      v_end = v_end;
      v_total = add_u16 v_end v_back;
      interlace = interlace;
    }
