-- ===== src/Hls/Playlist/Accepted.antt =====
-- internal/hlsbuffer/playlist.go: what an accepted playlist holds.
use mi_ster_groovy_relay.Prelude.{
  ℕ, ◌<◌, ◌≡◌, refl, sym, ◌≢◌, ◌⊎◌, inl, inr, Bool, true, false, Option, none, some, List, [], ◌∷◌,
  ◌++◌, arith, Bool-cases, Option-cases, length,
}
use mathlib.Core.Path.{subst}
use mi_ster_groovy_relay.Prelude.Int.{ℤ}
use mi_ster_groovy_relay.Prelude.Result.{Result, ok, err, Result-cases}
use mi_ster_groovy_relay.Hls.Text.{codes, has_prefix, to_upper, split}
use mi_ster_groovy_relay.Hls.Variant.{Variant}
use mi_ster_groovy_relay.Hls.Playlist.{
  PlaylistKind, playlist_media, playlist_master, Segment, Playlist, PlaylistError, Loop, uri_line,
  content_line, parse_lines, finish_playlist, behind_header, parse_playlist, start_loop,
  unsupported_tag,
}
use mi_ster_groovy_relay.Hls.Playlist.Refused.{
  IsVideo, IsAllowed, Headed, is_audio_only_segment_uri-IsVideo, rejects_tag-IsAllowed,
  behind_header-Headed,
}
use mi_ster_groovy_relay.Hls.Playlist.Unmoved.{SameEntries, tag_case-Unmoved}
use mi_ster_groovy_relay.Hls.Playlist.Entries.{
  uri_lines, segment_uris, variant_uris, Merged, entries_lem, OnGrown, Grown-Merged,
  parse_lines-OnGrown,
}
use mi_ster_groovy_relay.Hls.Playlist.Tags.{
  rejects_tag, is_audio_only_segment_uri, trim_all, is_empty,
}

is_empty-eq : (line : List ℕ) → is_empty line ≡ true → line ≡ []
unfolding is_empty
is_empty-eq [] h = refl
is_empty-eq (c ∷ cs) h = cc

-- No segment is audio only.
abbrev pub AllVideo : {D : Type 0} → List (Segment D) → Type 0
AllVideo [] = Unit
AllVideo (s ∷ ss) = IsVideo s.uri × AllVideo ss

AllVideo-end :
    {D : Type 0} (ss : List (Segment D)) (s : Segment D)
    → AllVideo ss
    → IsVideo s.uri
    → AllVideo (ss ++ (s ∷ []))
AllVideo-end [] s h k = (k, tt)
AllVideo-end (t ∷ ss) s (h, hs) k = (h, AllVideo-end ss s hs k)

-- No tag of the lines is an unsupported one.
abbrev pub AllAllowed : List (List ℕ) → Type 0
AllAllowed [] = Unit
AllAllowed (line ∷ lines) =
    (line ≢ [] → has_prefix line (codes "#") ≡ true → IsAllowed line) × AllAllowed lines

abbrev pub HoldsOnly : {D : Type 0} → PlaylistKind → List (Segment D) → List Variant → Type 0
HoldsOnly playlist_media ss vs = (0 < length ss) × (vs ≡ [])
HoldsOnly playlist_master ss vs = (0 < length vs) × (ss ≡ [])

module _ {D : Type 0} (seconds : List ℕ → Option D) (parse_int atoi : List ℕ → Option ℤ) where
  abbrev State : Type 0
  State = Loop seconds parse_int atoi

  abbrev KeepsVideo : Result PlaylistError State → Type 0
  KeepsVideo (err e) = Unit
  KeepsVideo (ok l) = AllVideo l.segments

  uri_line-KeepsVideo :
      (l : State) (line : List ℕ)
      → AllVideo l.segments
      → KeepsVideo (uri_line seconds parse_int atoi l line)
  unfolding uri_line
  uri_line-KeepsVideo l line h = elim (Option-cases l.pending_variant) [
    | inr (v, e) ↦ rw (uri_line, e) h
    | inl e ↦ elim (Option-cases l.pending_duration) [
      | inl d ↦ rw (uri_line, e, d) tt
      | inr (dur, d) ↦ elim (Bool-cases (is_audio_only_segment_uri line)) [
        | inl audio ↦ rw (uri_line, e, d, audio) tt
        | inr video ↦
            rw (uri_line, e, d, video)
              (AllVideo-end l.segments _ h (is_audio_only_segment_uri-IsVideo line video))
      ]
    ]
  ]

  KeepsVideo-SameEntries :
      (l : State) (r : Result PlaylistError State)
      → AllVideo l.segments
      → SameEntries seconds parse_int atoi l r
      → KeepsVideo r
  KeepsVideo-SameEntries l (err e) h k = tt
  KeepsVideo-SameEntries l (ok l') h k = subst AllVideo (sym k.0) h

  -- A line that is accepted keeps the segments free of audio, and is no unsupported tag.
  content_line-KeepsVideo :
      (l : State) (line : List ℕ)
      → AllVideo l.segments
      → KeepsVideo (content_line seconds parse_int atoi l line)
  unfolding content_line
  content_line-KeepsVideo l line h = elim (Bool-cases (has_prefix line (codes "#"))) [
    | inr uri ↦ rw (content_line, uri) (uri_line-KeepsVideo l line h)
    | inl tag ↦ elim (Bool-cases (rejects_tag line (to_upper line))) [
      | inl bad ↦ rw (content_line, tag, bad) tt
      | inr good ↦
          rw (content_line, tag, good)
            (KeepsVideo-SameEntries l _ h
              (tag_case-Unmoved seconds parse_int atoi l line (to_upper line)).same)
    ]
  ]

  content_line-allowed :
      (l l' : State) (line : List ℕ)
      → content_line seconds parse_int atoi l line ≡ ok l'
      → has_prefix line (codes "#") ≡ true
      → rejects_tag line (to_upper line) ≡ false
  unfolding content_line
  content_line-allowed l l' line h tag = elim (Bool-cases (rejects_tag line (to_upper line))) [
    | inr good ↦ good
    | inl bad ↦
        let refused : Result PlaylistError State = err unsupported_tag in
        absurd (let u : refused ≡ ok l' = rw (content_line, tag, bad) at h in cc)
  ]

  abbrev Parsed : List (List ℕ) → Result PlaylistError State → Type 0
  Parsed lines (err e) = Unit
  Parsed lines (ok l) = AllVideo l.segments × AllAllowed lines

  Parsed-cons :
      (line : List ℕ) (lines : List (List ℕ)) (r : Result PlaylistError State)
      → (line ≢ [] → has_prefix line (codes "#") ≡ true → IsAllowed line)
      → Parsed lines r
      → Parsed (line ∷ lines) r
  Parsed-cons line lines (err e) h k = tt
  Parsed-cons line lines (ok l) h (video, allowed) = (video, (h, allowed))

  parse_lines-Parsed :
      (lines : List (List ℕ)) (l : State)
      → AllVideo l.segments
      → Parsed lines (parse_lines seconds parse_int atoi lines l)
  unfolding parse_lines
  parse_lines-Parsed [] l h = (h, tt)
  parse_lines-Parsed (line ∷ lines) l h = elim (Bool-cases (is_empty line)) [
    | inl blank ↦
        rw (parse_lines, blank)
          (Parsed-cons line lines _ (λ k. absurd (k (is_empty-eq line blank)))
            (parse_lines-Parsed lines l h))
    | inr full ↦ elim (Result-cases (content_line seconds parse_int atoi l line)) [
      | inr (e, q) ↦ rw (parse_lines, full, q) tt
      | inl (l', q) ↦
          let video : AllVideo l'.segments =
            subst KeepsVideo q (content_line-KeepsVideo l line h) in
          rw (parse_lines, full, q)
            (Parsed-cons line lines _
              (λ k tag. rejects_tag-IsAllowed line (content_line-allowed l l' line q tag))
              (parse_lines-Parsed lines l' video))
    ]
  ]

  abbrev Finished : List (Segment D) → List Variant → Result PlaylistError (Playlist D) → Type 0
  Finished ss vs (err e) = Unit
  Finished ss vs (ok p) =
      (p.segments ≡ ss) × (p.variants ≡ vs) × HoldsOnly p.kind p.segments p.variants

  finish_playlist-Finished :
      (target : Option D) (media_seq next : ℤ) (segments : List (Segment D))
      (variants : List Variant) (pv : Option Variant) (pd : Option D) (discontinuity : Bool)
      → Finished segments variants (
          finish_playlist seconds parse_int atoi (record {
            target = target;
            media_seq = media_seq;
            segments = segments;
            variants = variants;
            pending_variant = pv;
            pending_duration = pd;
            pending_discontinuity = discontinuity;
            next_sequence = next;
          }))
  unfolding finish_playlist
  finish_playlist-Finished t m n ss vs (some v) pd c = tt
  finish_playlist-Finished t m n (s ∷ ss) (v ∷ vs) none pd c = tt
  finish_playlist-Finished t m n [] (v ∷ vs) none pd c = (refl, refl, (ground arith, refl))
  finish_playlist-Finished t m n [] [] none pd c = tt
  finish_playlist-Finished t m n (s ∷ ss) [] none pd c = (refl, refl, (ground arith, refl))

  -- The lines behind the header, none of which is an unsupported tag, and a playlist of one kind
  -- with one entry for each URI among the lines, whose segments are not audio only.
  pub record Accepted (body : List ℕ) (p : Playlist D) : Type 0 where
    pub lines : List (List ℕ)
    pub header : Headed (trim_all (split 10 body)) lines
    pub allowed : AllAllowed lines
    pub video : AllVideo p.segments
    pub one_kind : HoldsOnly p.kind p.segments p.variants
    pub entries : segment_uris p.segments ++ variant_uris p.variants ≡ uri_lines lines

  HoldsOnly-empty :
      (kind : PlaylistKind) (ss : List (Segment D)) (vs : List Variant)
      → HoldsOnly kind ss vs
      → (ss ≡ []) ⊎ (vs ≡ [])
  HoldsOnly-empty playlist_media ss vs h = inr h.1
  HoldsOnly-empty playlist_master ss vs h = inl h.1

  finish_playlist-Accepted :
      (body : List ℕ) (lines : List (List ℕ)) (l : State) (p : Playlist D)
      → behind_header (trim_all (split 10 body)) ≡ ok lines
      → Parsed lines (ok l)
      → Merged (segment_uris l.segments) (variant_uris l.variants) (uri_lines lines)
      → finish_playlist seconds parse_int atoi l ≡ ok p
      → Accepted body p
  finish_playlist-Accepted body lines l p h (video, allowed) m q =
      let f : Finished l.segments l.variants (ok p) = subst (Finished l.segments l.variants) q (
        finish_playlist-Finished l.target l.media_seq l.next_sequence l.segments l.variants
          l.pending_variant l.pending_duration l.pending_discontinuity) in
      let all : Merged (segment_uris p.segments) (variant_uris p.variants) (uri_lines lines) =
        subst (λ t. Merged (segment_uris t) (variant_uris p.variants) (uri_lines lines)) (sym f.0)
          (subst (λ t. Merged (segment_uris l.segments) (variant_uris t) (uri_lines lines))
            (sym f.1) m) in
      record {
        lines = lines;
        header = behind_header-Headed _ lines h;
        allowed = allowed;
        video = subst AllVideo (sym f.0) video;
        one_kind = f.2;
        entries =
            entries_lem p.segments p.variants (uri_lines lines)
              (HoldsOnly-empty p.kind p.segments p.variants f.2) all;
      }

  -- A playlist that `ParsePlaylist` accepts: its first line that is not empty is the header, no
  -- line behind that is an unsupported tag, no segment's URI is an audio file's, and it holds
  -- either media segments or variants, at least one and none of the other kind, whose URIs are
  -- exactly the lines that are neither empty nor begin with `#`, in order.
  pub parse_playlist-Accepted :
      (body : List ℕ) (p : Playlist D)
      → parse_playlist seconds parse_int atoi body ≡ ok p
      → Accepted body p
  unfolding parse_playlist
  parse_playlist-Accepted body p h =
      elim (Result-cases (behind_header (trim_all (split 10 body)))) [
        | inr (e, q) ↦
            let refused : Result PlaylistError (Playlist D) = err e in
            absurd (let u : refused ≡ ok p = rw (parse_playlist, q) at h in cc)
        | inl (lines, q) ↦
            let start = start_loop seconds parse_int atoi in
            elim (Result-cases (parse_lines seconds parse_int atoi lines start)) [
              | inr (e, r) ↦
                  let refused : Result PlaylistError (Playlist D) = err e in
                  absurd (let u : refused ≡ ok p = rw (parse_playlist, q, r) at h in cc)
              | inl (l, r) ↦
                  finish_playlist-Accepted body lines l p q
                    (subst (Parsed lines) r (parse_lines-Parsed lines start tt))
                    (Grown-Merged seconds parse_int atoi start l (uri_lines lines) refl refl (
                      subst (OnGrown seconds parse_int atoi start (uri_lines lines)) r
                        (parse_lines-OnGrown seconds parse_int atoi lines start)))
                    (rw (parse_playlist, q, r) at h)
            ]
      ]
