-- ===== src/Hls/Playlist/Tags.antt =====
-- internal/hlsbuffer/playlist.go: the tags of a playlist and their attributes, on ASCII text.
use mi_ster_groovy_relay.Prelude.{
  ℕ, Bool, true, false, not, ◌&&◌, ◌||◌, Option, none, some, List, [], ◌∷◌, ◌==◌, if◌then◌else◌,
  length, drop,
}
use mi_ster_groovy_relay.Prelude.Int.{ℤ, pos_part}
use mi_ster_groovy_relay.Hls.Text.{
  codes, has_prefix, trim_space, split, to_lower, to_upper, same_text, contains, cut, ext, trim,
}
use mi_ster_groovy_relay.Hls.Variant.{Variant}

-- `raw[start:i]` of the loop is what was read since the last comma outside of quotes.
split_attrs_loop : Bool → List ℕ → List (List ℕ)
split_attrs_loop in_quote [] = [] ∷ []
split_attrs_loop in_quote (c ∷ cs) =
    let rest = split_attrs_loop (if c == b'"' then not in_quote else in_quote) cs in
    if (c == b',') && not in_quote
    then [] ∷ rest
    else (elim rest [ [] ↦ (c ∷ []) ∷ [] | part ∷ parts ↦ (c ∷ part) ∷ parts ])

unfoldable pub trim_all : List (List ℕ) → List (List ℕ)
unfolding trim_space
trim_all [] = []
trim_all (part ∷ parts) = trim_space part ∷ trim_all parts

unfoldable pub split_hls_attrs : List ℕ → List (List ℕ)
unfolding split_attrs_loop trim_all
split_hls_attrs raw = trim_all (split_attrs_loop false raw)

-- The pairs of a map, the latest first, which hides an earlier one of the same key.
attrs_loop : List (List ℕ) → List (List ℕ × List ℕ) → List (List ℕ × List ℕ)
unfolding cut to_upper trim_space trim
attrs_loop [] out = out
attrs_loop (part ∷ parts) out =
    let (k, v) = cut b'=' part in
    elim v [
      | none ↦ attrs_loop parts out
      | some val ↦ attrs_loop parts ((to_upper (trim_space k), trim b'"' (trim_space val)) ∷ out)
    ]

unfoldable pub parse_attr_list : List ℕ → List (List ℕ × List ℕ)
unfolding attrs_loop split_hls_attrs
parse_attr_list raw = attrs_loop (split_hls_attrs raw) []

unfoldable pub attr : List ℕ → List (List ℕ × List ℕ) → Option (List ℕ)
unfolding same_text
attr key [] = none
attr key ((k, v) ∷ rest) = if same_text k key then some v else attr key rest

-- `attrs[key]`, which is empty for a missing key.
attr_or_empty : List ℕ → List (List ℕ × List ℕ) → List ℕ
unfolding attr
attr_or_empty key attrs = elim (attr key attrs) [ none ↦ [] | some v ↦ v ]

unfoldable pub any_prefix : List (List ℕ) → List ℕ → Bool
unfolding has_prefix
any_prefix [] text = false
any_prefix (p ∷ ps) text = has_prefix text p || any_prefix ps text

abbrev pub unsupported_prefixes : List (List ℕ)
unsupported_prefixes =
    codes "#EXT-X-KEY"
    ∷ codes "#EXT-X-BYTERANGE"
    ∷ codes "#EXT-X-MAP"
    ∷ codes "#EXT-X-PART"
    ∷ codes "#EXT-X-PRELOAD-HINT"
    ∷ []

-- `line[len(prefix):]`
abbrev pub behind : List ℕ → List ℕ → List ℕ
behind prefix line = drop (length prefix) line

abbrev pub is_some : {A : Type 0} → Option A → Bool
is_some none = false
is_some (some a) = true

unfoldable pub rejects_tag : List ℕ → List ℕ → Bool
unfolding any_prefix has_prefix attr parse_attr_list contains
rejects_tag line upper =
    let stream_inf = codes "#EXT-X-STREAM-INF:" in
    let attrs = parse_attr_list (behind stream_inf line) in
    if any_prefix unsupported_prefixes upper
    then true
    else if has_prefix upper (codes "#EXT-X-MEDIA:")
    then true
    else if has_prefix upper stream_inf
    then is_some (attr (codes "URI") attrs)
    else contains upper (codes "URI=")

unfoldable pub is_audio_only_segment_uri : List ℕ → Bool
unfolding to_lower ext cut same_text
is_audio_only_segment_uri uri =
    let e = to_lower (ext ((cut b'?' uri).0)) in
    (same_text e (codes ".aac") || same_text e (codes ".mp3")) || same_text e (codes ".m4a")

unfoldable pub is_empty : List ℕ → Bool
is_empty [] = true
is_empty (c ∷ cs) = false

module _ {D : Type 0} (seconds : List ℕ → Option D) where
  unfoldable pub parse_hls_duration : List ℕ → Option D
  unfolding trim_space
  parse_hls_duration raw = seconds (trim_space raw)

  unfoldable pub parse_extinf_duration : List ℕ → Option D
  unfolding parse_hls_duration cut trim_space
  parse_extinf_duration line =
      parse_hls_duration ((cut b',' (trim_space (behind (codes "#EXTINF:") line))).0)

module _ (atoi : List ℕ → Option ℤ) where
  -- A number that is not there is 0; a negative one is treated like 0.
  number_or_zero : List ℕ → Option ℕ
  unfolding is_empty
  number_or_zero raw =
      if is_empty raw
      then some 0
      else (elim (atoi raw) [ none ↦ none | some n ↦ some (pos_part n) ])

  resolution : List ℕ → Option (ℕ × ℕ)
  unfolding is_empty split
  resolution raw = if is_empty raw then some (0, 0) else (elim (split b'x' raw) [
    | [] ↦ none
    | w ∷ ws ↦ elim ws [
      | [] ↦ none
      | h ∷ hs ↦ elim hs [
        | more ∷ rest ↦ none
        | [] ↦ elim (atoi w) [
          | none ↦ none
          | some width ↦ elim (atoi h) [
            | none ↦ none
            | some height ↦ some (pos_part width, pos_part height)
          ]
        ]
      ]
    ]
  ])

  unfoldable pub parse_stream_inf : List ℕ → Option Variant
  unfolding number_or_zero resolution attr_or_empty parse_attr_list
  parse_stream_inf line =
      let attrs = parse_attr_list (behind (codes "#EXT-X-STREAM-INF:") line) in
      elim (number_or_zero (attr_or_empty (codes "BANDWIDTH") attrs)) [
        | none ↦ none
        | some bandwidth ↦ elim (resolution (attr_or_empty (codes "RESOLUTION") attrs)) [
          | none ↦ none
          | some (w, h) ↦ some (record {
            uri = [];
            bandwidth = bandwidth;
            width = w;
            height = h;
            codecs = attr_or_empty (codes "CODECS") attrs;
          })
        ]
      ]
