-- ===== src/Hls/Playlist/Unmoved.antt =====
-- internal/hlsbuffer/playlist.go: a tag adds no entry to a playlist.
use mi_ster_groovy_relay.Prelude.{ℕ, ◌≡◌, inl, inr, Option, none, some, List, Bool-cases}
use mi_ster_groovy_relay.Prelude.Int.{ℤ}
use mi_ster_groovy_relay.Prelude.Result.{Result, ok, err}
use mi_ster_groovy_relay.Hls.Text.{codes, has_prefix, same_text}
use mi_ster_groovy_relay.Hls.Playlist.{PlaylistError, Loop, tag_case, set_or}

module _ {D : Type 0} (seconds : List ℕ → Option D) (parse_int atoi : List ℕ → Option ℤ) where
  abbrev State : Type 0
  State = Loop seconds parse_int atoi

  abbrev pub SameEntries : State → Result PlaylistError State → Type 0
  SameEntries l (err e) = Unit
  SameEntries l (ok l') = (l'.segments ≡ l.segments) × (l'.variants ≡ l.variants)

  pub record Unmoved (l : State) (r : Result PlaylistError State) : Type 0 where
    pub same : SameEntries l r

  set_or-Unmoved :
      {B : Type 0}
      → (l : State) (o : Option B) (e : PlaylistError) (f : B → State)
      → ((b : B) → ((f b).segments ≡ l.segments) × ((f b).variants ≡ l.variants))
      → Unmoved l (set_or o e f)
  unfolding set_or
  set_or-Unmoved l none e f h = record { same = tt }
  set_or-Unmoved l (some b) e f h = record { same = h b }

  ok-Unmoved :
      (l l' : State) → (l'.segments ≡ l.segments) × (l'.variants ≡ l.variants) → Unmoved l (ok l')
  ok-Unmoved l l' h = record { same = h }

  pub tag_case-Unmoved :
      (l : State) (line upper : List ℕ) → Unmoved l (tag_case seconds parse_int atoi l line upper)
  unfolding tag_case
  tag_case-Unmoved l line upper =
      elim (Bool-cases (has_prefix upper (codes "#EXT-X-TARGETDURATION:"))) [
        | inl a ↦
            rw (tag_case, a) (set_or-Unmoved l _ _ _ (λ d. ((λ i. l.segments), (λ i. l.variants))))
        | inr a ↦ elim (Bool-cases (has_prefix upper (codes "#EXT-X-MEDIA-SEQUENCE:"))) [
          | inl b ↦
              rw (tag_case, a, b)
                (set_or-Unmoved l _ _ _ (λ d. ((λ i. l.segments), (λ i. l.variants))))
          | inr b ↦ elim (Bool-cases (has_prefix upper (codes "#EXTINF:"))) [
            | inl c ↦
                rw (tag_case, a, b, c)
                  (set_or-Unmoved l _ _ _ (λ d. ((λ i. l.segments), (λ i. l.variants))))
            | inr c ↦ elim (Bool-cases (same_text upper (codes "#EXT-X-DISCONTINUITY"))) [
              | inl d ↦
                  rw (tag_case, a, b, c, d) (ok-Unmoved l _ ((λ i. l.segments), (λ i. l.variants)))
              | inr d ↦ elim (Bool-cases (has_prefix upper (codes "#EXT-X-STREAM-INF:"))) [
                | inl e ↦
                    rw (tag_case, a, b, c, d, e)
                      (set_or-Unmoved l _ _ _ (λ d. ((λ i. l.segments), (λ i. l.variants))))
                | inr e ↦
                    rw (tag_case, a, b, c, d, e)
                      (ok-Unmoved l _ ((λ i. l.segments), (λ i. l.variants)))
              ]
            ]
          ]
        ]
      ]
