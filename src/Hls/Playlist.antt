-- ===== src/Hls/Playlist.antt =====
-- internal/hlsbuffer/playlist.go: an HLS playlist as a record, on ASCII text. The standard library's
-- number parsers are parameters: `seconds` is `ParseFloat` with the conversion to a duration.
pub mod Tags
pub mod Refused
pub mod Unmoved
pub mod Entries
pub mod Accepted
use mi_ster_groovy_relay.Prelude.{
  ℕ, zero, suc, ◌+◌, ◌-◌, ◌^◌, Bool, true, false, Option, none, some, List, [], ◌∷◌, ◌++◌, ◌==◌,
  if◌then◌else◌,
}
use mi_ster_groovy_relay.Prelude.Int.{ℤ, pos, negsuc}
use mi_ster_groovy_relay.Prelude.Result.{Result, ok, err}
use mi_ster_groovy_relay.Hls.Text.{codes, has_prefix, trim_space, split, to_upper, same_text}
use mi_ster_groovy_relay.Hls.Variant.{Variant}
use mi_ster_groovy_relay.Hls.Playlist.Tags.{
  trim_all, rejects_tag, is_audio_only_segment_uri, is_empty, behind, parse_hls_duration,
  parse_extinf_duration, parse_stream_inf,
}

pub data PlaylistKind : Type 0 where
  playlist_media : PlaylistKind
  playlist_master : PlaylistKind

pub record Segment (D : Type 0) : Type 0 where
  pub uri : List ℕ
  pub duration : D
  pub sequence : ℤ
  pub discontinuity : Bool

pub record Playlist (D : Type 0) : Type 0 where
  pub kind : PlaylistKind
  pub target : Option D
  pub media_seq : ℤ
  pub segments : List (Segment D)
  pub variants : List Variant

pub data PlaylistError : Type 0 where
  missing_header : PlaylistError
  unsupported_tag : PlaylistError
  bad_target : PlaylistError
  bad_sequence : PlaylistError
  bad_extinf : PlaylistError
  bad_variant : PlaylistError
  uri_without_extinf : PlaylistError
  audio_only : PlaylistError
  missing_variant_uri : PlaylistError
  mixed_entries : PlaylistError
  nothing_found : PlaylistError

-- `nextSequence++` on an int64.
abbrev next_int64 : ℤ → ℤ
next_int64 (pos n) = if n + 1 == 2 ^ 63 then negsuc (2 ^ 63 - 1) else pos (n + 1)
next_int64 (negsuc zero) = pos 0
next_int64 (negsuc (suc n)) = negsuc n

-- A value that is set, or the error where there is none.
unfoldable pub set_or : {A B : Type 0} → Option B → PlaylistError → (B → A) → Result PlaylistError A
set_or none e f = err e
set_or (some b) e f = ok (f b)

-- The first line that is not empty has to be the header; the lines behind it.
unfoldable pub behind_header : List (List ℕ) → Result PlaylistError (List (List ℕ))
unfolding same_text is_empty
behind_header [] = err missing_header
behind_header (line ∷ lines) =
    let rest = behind_header lines in
    if is_empty line
    then rest
    else if same_text line (codes "#EXTM3U")
    then ok lines
    else err missing_header

module _ {D : Type 0} (seconds : List ℕ → Option D) (parse_int atoi : List ℕ → Option ℤ) where
  -- The variables of the loop. `pending_variant` is there where its URI is expected.
  pub record Loop : Type 0 where
    pub target : Option D
    pub media_seq : ℤ
    pub segments : List (Segment D)
    pub variants : List Variant
    pub pending_variant : Option Variant
    pub pending_duration : Option D
    pub pending_discontinuity : Bool
    pub next_sequence : ℤ

  -- The cases of a tag that is not rejected.
  unfoldable pub tag_case : Loop → List ℕ → List ℕ → Result PlaylistError Loop
  unfolding has_prefix trim_space same_text parse_hls_duration parse_extinf_duration
      parse_stream_inf
  tag_case l line upper =
      let target = codes "#EXT-X-TARGETDURATION:" in
      let sequence = codes "#EXT-X-MEDIA-SEQUENCE:" in
      if has_prefix upper target
      then set_or (parse_hls_duration seconds (trim_space (behind target line))) bad_target
          (λ d. record l { target = some d })
      else if has_prefix upper sequence
      then set_or (parse_int (trim_space (behind sequence line))) bad_sequence
          (λ n. record l { media_seq = n; next_sequence = n })
      else if has_prefix upper (codes "#EXTINF:")
      then set_or (parse_extinf_duration seconds line) bad_extinf
          (λ d. record l { pending_duration = some d })
      else if same_text upper (codes "#EXT-X-DISCONTINUITY")
      then ok (record l { pending_discontinuity = true })
      else if has_prefix upper (codes "#EXT-X-STREAM-INF:")
      then set_or (parse_stream_inf atoi line) bad_variant
          (λ v. record l { pending_variant = some v })
      else ok l

  unfoldable pub uri_line : Loop → List ℕ → Result PlaylistError Loop
  unfolding is_audio_only_segment_uri
  uri_line l line = elim l.pending_variant [
    | some v ↦ ok (record l {
      variants = l.variants ++ (record v { uri = line } ∷ []);
      pending_variant = none;
    })
    | none ↦ elim l.pending_duration [
      | none ↦ err uri_without_extinf
      | some d ↦
          if is_audio_only_segment_uri line
          then err audio_only
          else ok (record l {
            segments =
                l.segments
                ++ (record {
                  uri = line;
                  duration = d;
                  sequence = l.next_sequence;
                  discontinuity = l.pending_discontinuity;
                }
                    ∷ []);
            next_sequence = next_int64 l.next_sequence;
            pending_duration = none;
            pending_discontinuity = false;
          })
    ]
  ]

  -- A line behind the header that is not empty.
  unfoldable pub content_line : Loop → List ℕ → Result PlaylistError Loop
  unfolding rejects_tag tag_case uri_line has_prefix to_upper
  content_line l line =
      let upper = to_upper line in
      if has_prefix line (codes "#")
      then (if rejects_tag line upper then err unsupported_tag else tag_case l line upper)
      else uri_line l line

  -- The lines behind the header, trimmed.
  unfoldable pub parse_lines : List (List ℕ) → Loop → Result PlaylistError Loop
  unfolding content_line is_empty
  parse_lines [] l = ok l
  parse_lines (line ∷ lines) l =
      let skipped = parse_lines lines l in
      if is_empty line
      then skipped
      else (elim (content_line l line) [ err e ↦ err e | ok l' ↦ parse_lines lines l' ])

  -- What the loop leaves, checked.
  unfoldable pub finish_playlist : Loop → Result PlaylistError (Playlist D)
  finish_playlist l = elim l.pending_variant [
    | some v ↦ err missing_variant_uri
    | none ↦ elim l.variants [
      | v ∷ vs ↦ elim l.segments [
        | s ∷ ss ↦ err mixed_entries
        | [] ↦ ok (record {
          kind = playlist_master;
          target = l.target;
          media_seq = l.media_seq;
          segments = [];
          variants = v ∷ vs;
        })
      ]
      | [] ↦ elim l.segments [
        | [] ↦ err nothing_found
        | s ∷ ss ↦ ok (record {
          kind = playlist_media;
          target = l.target;
          media_seq = l.media_seq;
          segments = s ∷ ss;
          variants = [];
        })
      ]
    ]
  ]

  abbrev pub start_loop : Loop
  start_loop = record {
    target = none;
    media_seq = pos 0;
    segments = [];
    variants = [];
    pending_variant = none;
    pending_duration = none;
    pending_discontinuity = false;
    next_sequence = pos 0;
  }

  unfoldable pub parse_playlist : List ℕ → Result PlaylistError (Playlist D)
  unfolding behind_header parse_lines finish_playlist trim_all split
  parse_playlist body = elim (behind_header (trim_all (split 10 body))) [
    | err e ↦ err e
    | ok lines ↦ elim (parse_lines lines start_loop) [ err e ↦ err e | ok l ↦ finish_playlist l ]
  ]
