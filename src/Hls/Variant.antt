-- ===== src/Hls/Variant.antt =====
-- internal/hlsbuffer/variant.go: which variant of a master playlist is played. Heights and
-- bandwidths are not negative: a negative one is treated like 0. `sort.SliceStable` is
-- the stable sort of Prelude/Sorting.
pub mod Choice
use mi_ster_groovy_relay.Prelude.{
  ℕ, ◌-◌, ◌^◌, Bool, true, false, not, ◌&&◌, ◌||◌, List, [], ◌∷◌, ltb, leb, ◌==◌, if◌then◌else◌,
}
use mi_ster_groovy_relay.Prelude.Sorting.{keep, slice_stable}
use mi_ster_groovy_relay.Prelude.Result.{Result, ok, err}
use mi_ster_groovy_relay.Hls.Text.{codes, has_prefix, trim_space, split, to_lower, same_text}

pub record Variant : Type 0 where
  pub uri : List ℕ
  pub bandwidth : ℕ
  pub width : ℕ
  pub height : ℕ
  pub codecs : List ℕ

pub data VariantError : Type 0 where
  no_compatible : VariantError

abbrev is_video : List ℕ → Bool
is_video c =
    ((has_prefix c (codes "avc1") || has_prefix c (codes "avc3"))
      || (has_prefix c (codes "hvc1") || has_prefix c (codes "hev1")))
    || has_prefix c (codes "mp4v")

any_video : List (List ℕ) → Bool
unfolding to_lower trim_space has_prefix
any_video [] = false
any_video (codec ∷ rest) = is_video (to_lower (trim_space codec)) || any_video rest

is_empty : List ℕ → Bool
is_empty [] = true
is_empty (c ∷ cs) = false

unfoldable pub variant_has_video_codec : Variant → Bool
unfolding any_video is_empty trim_space split
variant_has_video_codec v =
    let codecs = trim_space v.codecs in
    if is_empty codecs then true else any_video (split b',' codecs)

-- `math.MaxInt` where the bandwidth is not known.
abbrev pub bandwidth_rank : Variant → ℕ
bandwidth_rank v = if v.bandwidth == 0 then 2 ^ 63 - 1 else v.bandwidth

abbrev pub lower : Variant → Variant → Bool
lower a b =
    if not (a.height == b.height)
    then ltb a.height b.height
    else ltb (bandwidth_rank a) (bandwidth_rank b)

abbrev pub higher : Variant → Variant → Bool
higher a b =
    if not (a.height == b.height)
    then ltb b.height a.height
    else ltb (bandwidth_rank a) (bandwidth_rank b)

abbrev pub narrower : Variant → Variant → Bool
narrower a b = ltb a.bandwidth b.bandwidth

unfoldable pub is_candidate : ℕ → Variant → Bool
unfolding variant_has_video_codec
is_candidate max_height v =
    not (ltb 0 max_height && ltb max_height v.height) && variant_has_video_codec v

-- The first of the elements, or else the other choice.
abbrev first_or : List Variant → Result VariantError Variant → Result VariantError Variant
first_or [] other = other
first_or (v ∷ vs) other = ok v

abbrev pub has_height : Variant → Bool
has_height v = ltb 0 v.height

abbrev pub has_bandwidth : Variant → Bool
has_bandwidth v = ltb 0 v.bandwidth

unfoldable pub select_variant : List Variant → ℕ → ℕ → Result VariantError Variant
unfolding keep slice_stable is_candidate
select_variant variants output_height max_height =
    let candidates = keep (is_candidate max_height) variants in
    let with_height = keep has_height candidates in
    let adequate = keep (λ v. leb output_height v.height) with_height in
    let with_bandwidth = keep has_bandwidth candidates in
    first_or (slice_stable lower adequate) (
      first_or (slice_stable higher with_height)
        (first_or (slice_stable narrower with_bandwidth) (first_or candidates (err no_compatible))))

-- `strings.EqualFold` compares the lower case of ASCII text.
unfoldable pub variant_compatible : Variant → Variant → Bool
unfolding same_text to_lower trim_space
variant_compatible old next =
    (same_text old.uri next.uri && (old.width == next.width))
    && ((old.height == next.height)
        && same_text (to_lower (trim_space old.codecs)) (to_lower (trim_space next.codecs)))
