-- ===== src/Hls/Playlist/Entries.antt =====
-- internal/hlsbuffer/playlist.go: the entries of a playlist through one line of it.
use mi_ster_groovy_relay.Prelude.{
  ℕ, ◌≡◌, refl, sym, ap, ◌∙◌, ◌⊎◌, inl, inr, true, false, ◌||◌, Option, List, [], ◌∷◌, ◌++◌,
  append_assoc, append-nil, if◌then◌else◌, Bool-cases, Option-cases,
}
use mathlib.Core.Path.{subst}
use mi_ster_groovy_relay.Prelude.Int.{ℤ}
use mi_ster_groovy_relay.Prelude.Result.{Result-cases, Result, ok, err}
use mi_ster_groovy_relay.Hls.Text.{codes, has_prefix}
use mi_ster_groovy_relay.Hls.Variant.{Variant}
use mi_ster_groovy_relay.Hls.Playlist.{
  unsupported_tag, to_upper, rejects_tag, parse_lines, content_line, PlaylistError, Loop, Segment,
  uri_line,
}
use mi_ster_groovy_relay.Hls.Playlist.Unmoved.{SameEntries, tag_case-Unmoved}
use mi_ster_groovy_relay.Hls.Playlist.Tags.{is_audio_only_segment_uri, is_empty}

-- The lines that are URIs, in order: those that are not empty and begin with no `#`.
abbrev pub uri_lines : List (List ℕ) → List (List ℕ)
uri_lines [] = []
uri_lines (line ∷ lines) =
    let rest = uri_lines lines in
    if is_empty line || has_prefix line (codes "#") then rest else line ∷ rest

abbrev pub segment_uris : {D : Type 0} → List (Segment D) → List (List ℕ)
segment_uris [] = []
segment_uris (s ∷ ss) = s.uri ∷ segment_uris ss

abbrev pub variant_uris : List Variant → List (List ℕ)
variant_uris [] = []
variant_uris (v ∷ vs) = v.uri ∷ variant_uris vs

segment_uris-append :
    {D : Type 0} (ss ts : List (Segment D))
    → segment_uris (ss ++ ts) ≡ segment_uris ss ++ segment_uris ts
segment_uris-append [] ts = refl
segment_uris-append (s ∷ ss) ts = ap (λ t. s.uri ∷ t) (segment_uris-append ss ts)

variant_uris-append :
    (vs ws : List Variant) → variant_uris (vs ++ ws) ≡ variant_uris vs ++ variant_uris ws
variant_uris-append [] ws = refl
variant_uris-append (v ∷ vs) ws = ap (λ t. v.uri ∷ t) (variant_uris-append vs ws)

-- The third list is the first two, shuffled.
abbrev pub Merged : List (List ℕ) → List (List ℕ) → List (List ℕ) → Type 0
Merged xs ys [] = (xs ≡ []) × (ys ≡ [])
Merged xs ys (z ∷ zs) =
    ((t : List (List ℕ)) × (xs ≡ z ∷ t) × Merged t ys zs)
    ⊎ ((t : List (List ℕ)) × (ys ≡ z ∷ t) × Merged xs t zs)

Merged-left : (xs ys zs : List (List ℕ)) → Merged xs ys zs → ys ≡ [] → xs ≡ zs
Merged-left xs ys [] (e, f) h = e
Merged-left xs ys (z ∷ zs) (inl (t, e, m)) h = e ∙ ap (λ r. z ∷ r) (Merged-left t ys zs m h)
Merged-left xs ys (z ∷ zs) (inr (t, e, m)) h = absurd (let u : z ∷ t ≡ [] = sym e ∙ h in cc)

Merged-right : (xs ys zs : List (List ℕ)) → Merged xs ys zs → xs ≡ [] → ys ≡ zs
Merged-right xs ys [] (e, f) h = f
Merged-right xs ys (z ∷ zs) (inr (t, e, m)) h = e ∙ ap (λ r. z ∷ r) (Merged-right xs t zs m h)
Merged-right xs ys (z ∷ zs) (inl (t, e, m)) h = absurd (let u : z ∷ t ≡ [] = sym e ∙ h in cc)

-- In a playlist of one kind, the merged URIs are those of the entries.
pub entries_lem :
    {D : Type 0} (ss : List (Segment D)) (vs : List Variant) (uris : List (List ℕ))
    → (ss ≡ []) ⊎ (vs ≡ [])
    → Merged (segment_uris ss) (variant_uris vs) uris
    → segment_uris ss ++ variant_uris vs ≡ uris
entries_lem ss vs uris (inl e) m =
    ap (λ t. segment_uris t ++ variant_uris vs) e
    ∙ Merged-right (segment_uris ss) (variant_uris vs) uris m (ap segment_uris e)
entries_lem ss vs uris (inr e) m =
    ap (λ t. segment_uris ss ++ variant_uris t) e
    ∙ append-nil (segment_uris ss)
    ∙ Merged-left (segment_uris ss) (variant_uris vs) uris m (ap variant_uris e)

module _ {D : Type 0} (seconds : List ℕ → Option D) (parse_int atoi : List ℕ → Option ℤ) where
  abbrev State : Type 0
  State = Loop seconds parse_int atoi

  -- The entries of `l'` are those of `l`, and new ones that merge to `uris`.
  pub record Grown (l l' : State) (uris : List (List ℕ)) : Type 0 where
    pub new_segments : List (List ℕ)
    pub new_variants : List (List ℕ)
    pub in_segments : segment_uris l'.segments ≡ segment_uris l.segments ++ new_segments
    pub in_variants : variant_uris l'.variants ≡ variant_uris l.variants ++ new_variants
    pub merged : Merged new_segments new_variants uris

  abbrev pub OnGrown : State → List (List ℕ) → Result PlaylistError State → Type 0
  OnGrown l uris (err e) = Unit
  OnGrown l uris (ok l') = Grown l l' uris

  -- What one URI adds: a segment or a variant of it.
  abbrev Added : State → List ℕ → State → Type 0
  Added l line l' =
      ((segment_uris l'.segments ≡ segment_uris l.segments ++ (line ∷ []))
        × (variant_uris l'.variants ≡ variant_uris l.variants))
      ⊎ ((segment_uris l'.segments ≡ segment_uris l.segments)
          × (variant_uris l'.variants ≡ variant_uris l.variants ++ (line ∷ [])))

  abbrev OnAdded : State → List ℕ → Result PlaylistError State → Type 0
  OnAdded l line (err e) = Unit
  OnAdded l line (ok l') = Added l line l'

  uri_line-OnAdded :
      (l : State) (line : List ℕ) → OnAdded l line (uri_line seconds parse_int atoi l line)
  unfolding uri_line
  uri_line-OnAdded l line = elim (Option-cases l.pending_variant) [
    | inr (v, e) ↦ rw (uri_line, e) (inr (refl, variant_uris-append l.variants _))
    | inl e ↦ elim (Option-cases l.pending_duration) [
      | inl d ↦ rw (uri_line, e, d) tt
      | inr (dur, d) ↦ elim (Bool-cases (is_audio_only_segment_uri line)) [
        | inl audio ↦ rw (uri_line, e, d, audio) tt
        | inr video ↦ rw (uri_line, e, d, video) (inl (segment_uris-append l.segments _, refl))
      ]
    ]
  ]

  Grown-same :
      (l l' l'' : State) (uris : List (List ℕ))
      → segment_uris l'.segments ≡ segment_uris l.segments
      → variant_uris l'.variants ≡ variant_uris l.variants
      → Grown l' l'' uris
      → Grown l l'' uris
  Grown-same l l' l'' uris h k g = record {
    new_segments = g.new_segments;
    new_variants = g.new_variants;
    in_segments = g.in_segments ∙ ap (λ t. t ++ g.new_segments) h;
    in_variants = g.in_variants ∙ ap (λ t. t ++ g.new_variants) k;
    merged = g.merged;
  }

  Grown-Added :
      (l l' l'' : State) (line : List ℕ) (uris : List (List ℕ))
      → Added l line l'
      → Grown l' l'' uris
      → Grown l l'' (line ∷ uris)
  Grown-Added l l' l'' line uris (inl (h, k)) g = record {
    new_segments = line ∷ g.new_segments;
    new_variants = g.new_variants;
    in_segments =
        g.in_segments
        ∙ ap (λ t. t ++ g.new_segments) h
        ∙ append_assoc (segment_uris l.segments) (line ∷ []) g.new_segments;
    in_variants = g.in_variants ∙ ap (λ t. t ++ g.new_variants) k;
    merged = inl (g.new_segments, refl, g.merged);
  }
  Grown-Added l l' l'' line uris (inr (h, k)) g = record {
    new_segments = g.new_segments;
    new_variants = line ∷ g.new_variants;
    in_segments = g.in_segments ∙ ap (λ t. t ++ g.new_segments) h;
    in_variants =
        g.in_variants
        ∙ ap (λ t. t ++ g.new_variants) k
        ∙ append_assoc (variant_uris l.variants) (line ∷ []) g.new_variants;
    merged = inr (g.new_variants, refl, g.merged);
  }

  OnGrown-same :
      (l l' : State) (uris : List (List ℕ)) (r : Result PlaylistError State)
      → SameEntries seconds parse_int atoi l (ok l')
      → OnGrown l' uris r
      → OnGrown l uris r
  OnGrown-same l l' uris (err e) h g = tt
  OnGrown-same l l' uris (ok l'') (h, k) g =
      Grown-same l l' l'' uris (ap segment_uris h) (ap variant_uris k) g

  OnGrown-Added :
      (l l' : State) (line : List ℕ) (uris : List (List ℕ)) (r : Result PlaylistError State)
      → Added l line l'
      → OnGrown l' uris r
      → OnGrown l (line ∷ uris) r
  OnGrown-Added l l' line uris (err e) h g = tt
  OnGrown-Added l l' line uris (ok l'') h g = Grown-Added l l' l'' line uris h g

  content_line-tag :
      (l l' : State) (line : List ℕ)
      → content_line seconds parse_int atoi l line ≡ ok l'
      → has_prefix line (codes "#") ≡ true
      → SameEntries seconds parse_int atoi l (ok l')
  unfolding content_line
  content_line-tag l l' line h tag = elim (Bool-cases (rejects_tag line (to_upper line))) [
    | inl bad ↦
        let refused : Result PlaylistError State = err unsupported_tag in
        absurd (let u : refused ≡ ok l' = rw (content_line, tag, bad) at h in cc)
    | inr good ↦
        subst (SameEntries seconds parse_int atoi l) (rw (content_line, tag, good) at h)
          (tag_case-Unmoved seconds parse_int atoi l line (to_upper line)).same
  ]

  content_line-uri :
      (l l' : State) (line : List ℕ)
      → content_line seconds parse_int atoi l line ≡ ok l'
      → has_prefix line (codes "#") ≡ false
      → Added l line l'
  unfolding content_line
  content_line-uri l l' line h uri =
      subst (OnAdded l line) (rw (content_line, uri) at h) (uri_line-OnAdded l line)

  pub parse_lines-OnGrown :
      (lines : List (List ℕ)) (l : State)
      → OnGrown l (uri_lines lines) (parse_lines seconds parse_int atoi lines l)
  unfolding parse_lines
  parse_lines-OnGrown [] l = record {
    new_segments = [];
    new_variants = [];
    in_segments = sym (append-nil (segment_uris l.segments));
    in_variants = sym (append-nil (variant_uris l.variants));
    merged = (refl, refl);
  }
  parse_lines-OnGrown (line ∷ lines) l = elim (Bool-cases (is_empty line)) [
    | inl blank ↦ rw (parse_lines, blank) (parse_lines-OnGrown lines l)
    | inr full ↦ elim (Result-cases (content_line seconds parse_int atoi l line)) [
      | inr (e, q) ↦ rw (parse_lines, full, q) tt
      | inl (l', q) ↦ elim (Bool-cases (has_prefix line (codes "#"))) [
        | inl tag ↦
            rw (parse_lines, full, q, tag)
              (OnGrown-same l l' (uri_lines lines) _ (content_line-tag l l' line q tag)
                (parse_lines-OnGrown lines l'))
        | inr uri ↦
            rw (parse_lines, full, q, uri)
              (OnGrown-Added l l' line (uri_lines lines) _ (content_line-uri l l' line q uri)
                (parse_lines-OnGrown lines l'))
      ]
    ]
  ]

  -- Where there were no entries before, the new ones are all.
  pub Grown-Merged :
      (l l' : State) (uris : List (List ℕ))
      → l.segments ≡ []
      → l.variants ≡ []
      → Grown l l' uris
      → Merged (segment_uris l'.segments) (variant_uris l'.variants) uris
  Grown-Merged l l' uris h k g =
      let e : segment_uris l'.segments ≡ g.new_segments =
        g.in_segments ∙ ap (λ t. segment_uris t ++ g.new_segments) h in
      let f : variant_uris l'.variants ≡ g.new_variants =
        g.in_variants ∙ ap (λ t. variant_uris t ++ g.new_variants) k in
      subst (λ t. Merged t (variant_uris l'.variants) uris) (sym e)
        (subst (λ t. Merged g.new_segments t uris) (sym f) g.merged)
