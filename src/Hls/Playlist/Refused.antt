-- ===== src/Hls/Playlist/Refused.antt =====
-- internal/hlsbuffer/playlist.go: the tags, the URIs and the beginnings that are refused, described
-- without the parser's own tests.
use mi_ster_groovy_relay.Prelude.{
  ℕ, suc, ◌≡◌, refl, sym, ap, ap₂, ◌∙◌, ◌≢◌, inl, inr, Bool, true, false, ◌||◌, Option, none, some,
  List, [], ◌∷◌, ◌++◌, ◌==◌, ==_iff, Bool-cases, replicate,
}
use mathlib.Core.Path.{subst}
use mi_ster_groovy_relay.Prelude.Result.{Result, ok, err}
use mi_ster_groovy_relay.Hls.Text.{
  codes, has_prefix, to_upper, to_lower, same_text, contains, cut, ext,
}
use mi_ster_groovy_relay.Hls.Playlist.Tags.{
  any_prefix, unsupported_prefixes, is_some, rejects_tag, is_audio_only_segment_uri, is_empty, attr,
  parse_attr_list, behind,
}
use mi_ster_groovy_relay.Hls.Playlist.{PlaylistError, missing_header, behind_header}

same_text_refl : (a : List ℕ) → same_text a a ≡ true
unfolding same_text
same_text_refl [] = refl
same_text_refl (c ∷ cs) =
    let e : (c == c) ≡ true = (==_iff _ _).1 refl in rw (e, same_text_refl cs) refl

same_text-eq : (a b : List ℕ) → same_text a b ≡ true → a ≡ b
unfolding same_text
same_text-eq [] [] h = refl
same_text-eq [] (d ∷ ds) h = cc
same_text-eq (c ∷ cs) [] h = cc
same_text-eq (c ∷ cs) (d ∷ ds) h = elim (Bool-cases (c == d)) [
  | inl e ↦
      let k : same_text cs ds ≡ true = rw e at h in
      ap₂ (λ x xs. x ∷ xs) ((==_iff _ _).0 e) (same_text-eq cs ds k)
  | inr n ↦ let k : false ≡ true = rw n at h in cc
]

same_text-ne : (a b : List ℕ) → same_text a b ≡ false → a ≢ b
same_text-ne a b h e =
    let k : same_text a b ≡ true = subst (λ t. same_text a t ≡ true) e (same_text_refl a) in
    let c : true ≡ false = sym k ∙ h in cc

-- The extension of the path in front of a query is none of three.
abbrev pub IsVideo : List ℕ → Type 0
IsVideo uri =
    let e = to_lower (ext ((cut b'?' uri).0)) in
    (e ≢ codes ".aac") × (e ≢ codes ".mp3") × (e ≢ codes ".m4a")

or-false : (a b : Bool) → (a || b) ≡ false → (a ≡ false) × (b ≡ false)
or-false true b h = cc
or-false false b h = (refl, h)

pub is_audio_only_segment_uri-IsVideo :
    (uri : List ℕ) → is_audio_only_segment_uri uri ≡ false → IsVideo uri
unfolding is_audio_only_segment_uri
is_audio_only_segment_uri-IsVideo uri h =
    let e = to_lower (ext ((cut b'?' uri).0)) in
    let (both, m4a) = or-false _ _ h in
    let (aac, mp3) = or-false _ _ both in
    (same_text-ne e _ aac, same_text-ne e _ mp3, same_text-ne e _ m4a)

abbrev stream_inf : List ℕ
stream_inf = codes "#EXT-X-STREAM-INF:"

-- A line that begins like none of the tags that are refused, and has no URI attribute.
pub record IsAllowed (line : List ℕ) : Type 0 where
  pub key : has_prefix (to_upper line) (codes "#EXT-X-KEY") ≡ false
  pub byte_range : has_prefix (to_upper line) (codes "#EXT-X-BYTERANGE") ≡ false
  pub map_tag : has_prefix (to_upper line) (codes "#EXT-X-MAP") ≡ false
  pub part : has_prefix (to_upper line) (codes "#EXT-X-PART") ≡ false
  pub preload_hint : has_prefix (to_upper line) (codes "#EXT-X-PRELOAD-HINT") ≡ false
  pub media : has_prefix (to_upper line) (codes "#EXT-X-MEDIA:") ≡ false
  pub variant_uri :
      has_prefix (to_upper line) stream_inf ≡ true
      → attr (codes "URI") (parse_attr_list (behind stream_inf line)) ≡ none
  pub uri :
      has_prefix (to_upper line) stream_inf ≡ false
      → contains (to_upper line) (codes "URI=") ≡ false

is_some-false : {A : Type 0} (o : Option A) → is_some o ≡ false → o ≡ none
is_some-false none h = refl
is_some-false (some a) h = cc

-- What is left of the tests of a tag that the prefixes do not refuse.
uri_tests :
    (line : List ℕ)
    → any_prefix unsupported_prefixes (to_upper line) ≡ false
    → has_prefix (to_upper line) (codes "#EXT-X-MEDIA:") ≡ false
    → rejects_tag line (to_upper line) ≡ false
    → (has_prefix (to_upper line) stream_inf ≡ true
        → attr (codes "URI") (parse_attr_list (behind stream_inf line)) ≡ none)
      × (has_prefix (to_upper line) stream_inf ≡ false
          → contains (to_upper line) (codes "URI=") ≡ false)
unfolding rejects_tag
uri_tests line p m h =
    (λ s. is_some-false _ (rw (rejects_tag, p, m, s) at h), λ s. rw (rejects_tag, p, m, s) at h)

allowed_prefixes :
    (line : List ℕ)
    → rejects_tag line (to_upper line) ≡ false
    → (any_prefix unsupported_prefixes (to_upper line) ≡ false)
      × (has_prefix (to_upper line) (codes "#EXT-X-MEDIA:") ≡ false)
unfolding rejects_tag
allowed_prefixes line h = elim (Bool-cases (any_prefix unsupported_prefixes (to_upper line))) [
  | inl bad ↦ absurd (let u : true ≡ false = rw (rejects_tag, bad) at h in cc)
  | inr good ↦ elim (Bool-cases (has_prefix (to_upper line) (codes "#EXT-X-MEDIA:"))) [
    | inl bad ↦ absurd (let u : true ≡ false = rw (rejects_tag, good, bad) at h in cc)
    | inr fine ↦ (good, fine)
  ]
]

pub rejects_tag-IsAllowed :
    (line : List ℕ) → rejects_tag line (to_upper line) ≡ false → IsAllowed line
unfolding any_prefix
rejects_tag-IsAllowed line h =
    let (p, m) = allowed_prefixes line h in
    let (k, p₁) = or-false _ _ p in
    let (b, p₂) = or-false _ _ p₁ in
    let (t, p₃) = or-false _ _ p₂ in
    let (q, p₄) = or-false _ _ p₃ in
    let (v, u) = uri_tests line p m h in
    record {
      key = k;
      byte_range = b;
      map_tag = t;
      part = q;
      preload_hint = (or-false _ _ p₄).0;
      media = m;
      variant_uri = v;
      uri = u;
    }

-- Blank lines, then the header, then the lines.
pub record Headed (all lines : List (List ℕ)) : Type 0 where
  pub blanks : ℕ
  pub whole : all ≡ replicate blanks [] ++ (codes "#EXTM3U" ∷ lines)

pub behind_header-Headed :
    (all lines : List (List ℕ)) → behind_header all ≡ ok lines → Headed all lines
unfolding behind_header is_empty
behind_header-Headed [] lines h = cc
behind_header-Headed ([] ∷ all) lines h =
    let r = behind_header-Headed all lines h in
    record { blanks = suc r.blanks; whole = ap (λ t. [] ∷ t) r.whole }
behind_header-Headed ((c ∷ cs) ∷ all) lines h =
    elim (Bool-cases (same_text (c ∷ cs) (codes "#EXTM3U"))) [
      | inl e ↦
          let found : Result PlaylistError (List (List ℕ)) = ok all in
          let u : found ≡ ok lines = rw (behind_header, e) at h in
          let k : all ≡ lines = cc in
          record {
            blanks = 0;
            whole = ap₂ (λ x xs. x ∷ xs) (same_text-eq (c ∷ cs) (codes "#EXTM3U") e) k;
          }
      | inr n ↦
          let refused : Result PlaylistError (List (List ℕ)) = err missing_header in
          absurd (let u : refused ≡ ok lines = rw (behind_header, n) at h in cc)
    ]
