-- ===== src/Torrent/Select.antt =====
-- internal/adapters/torrent/select.go: which file of a torrent is played. `filepath.Ext` is a
-- parameter; a path is the bytes of ASCII text, which Go's `<` compares, and a length is not negative.
use mi_ster_groovy_relay.Prelude.{
  ℕ, ◌≤◌, ◌≡◌, inl, inr, Bool, true, false, not, ◌||◌, List, [], ◌∷◌, arith, ltb, ◌==◌,
  if◌then◌else◌, Bool-cases,
}
use mathlib.Core.Path.{subst}
use mi_ster_groovy_relay.Prelude.Result.{Result, ok, err}
use mi_ster_groovy_relay.Prelude.Sorting.{
  keep, slice_stable, In, IsFirst, keep-In, In-keep, slice_stable-IsFirst,
}
use mi_ster_groovy_relay.Hls.Text.{codes, to_lower, same_text}

pub record FileCandidate : Type 0 where
  pub display_path : List ℕ
  pub length : ℕ
  pub index : ℕ

pub data TorrentError : Type 0 where
  no_playable_file : TorrentError

abbrev playable_extensions : List (List ℕ)
playable_extensions =
    codes ".mp4"
    ∷ codes ".m4v"
    ∷ codes ".mkv"
    ∷ codes ".avi"
    ∷ codes ".mov"
    ∷ codes ".mpg"
    ∷ codes ".mpeg"
    ∷ codes ".ts"
    ∷ codes ".webm"
    ∷ codes ".wmv"
    ∷ []

has_text : List (List ℕ) → List ℕ → Bool
unfolding same_text
has_text [] text = false
has_text (t ∷ ts) text = same_text t text || has_text ts text

-- Go's `<` on strings.
unfoldable pub text_below : List ℕ → List ℕ → Bool
text_below xs [] = false
text_below [] (y ∷ ys) = true
text_below (x ∷ xs) (y ∷ ys) = let rest = text_below xs ys in if x == y then rest else ltb x y

unfoldable pub larger : FileCandidate → FileCandidate → Bool
unfolding text_below same_text
larger a b =
    if not (a.length == b.length)
    then ltb b.length a.length
    else if not (same_text a.display_path b.display_path)
    then text_below a.display_path b.display_path
    else ltb a.index b.index

module _ (filepath_ext : List ℕ → List ℕ) where
  unfoldable pub is_playable : FileCandidate → Bool
  unfolding has_text to_lower
  is_playable f = has_text playable_extensions (to_lower (filepath_ext f.display_path))

  unfoldable pub pick_largest_playable : List FileCandidate → Result TorrentError FileCandidate
  unfolding is_playable keep slice_stable larger
  pick_largest_playable files = elim (slice_stable larger (keep is_playable files)) [
    | [] ↦ err no_playable_file
    | f ∷ fs ↦ ok f
  ]

abbrev AtLeast : FileCandidate → FileCandidate → Type 0
AtLeast a b = b.length ≤ a.length

larger-AtLeast : (a b : FileCandidate) → larger a b ≡ true → AtLeast a b
unfolding larger
larger-AtLeast a b h = ground arith

AtLeast-larger : (a b : FileCandidate) → larger a b ≡ false → AtLeast b a
unfolding larger
AtLeast-larger a b h = ground arith

larger-IsFirst : (files : List FileCandidate) → IsFirst AtLeast files (slice_stable larger files)
larger-IsFirst files =
    slice_stable-IsFirst larger AtLeast (λ a. omega arith) (λ a b c h k. omega (arith, h, k))
      larger-AtLeast AtLeast-larger files

module _ (filepath_ext : List ℕ → List ℕ) (files : List FileCandidate) where
  abbrev pub Picked : Result TorrentError FileCandidate → Type 0
  Picked (err e) = (f : FileCandidate) → In f files → is_playable filepath_ext f ≡ false
  Picked (ok f) =
      In f files
      × (is_playable filepath_ext f ≡ true)
      × ((g : FileCandidate) → In g files → is_playable filepath_ext g ≡ true → g.length ≤ f.length)

  first-Picked :
      (sorted : List FileCandidate)
      → IsFirst AtLeast (keep (is_playable filepath_ext) files) sorted
      → Picked (elim sorted [ [] ↦ err no_playable_file | f ∷ fs ↦ ok f ])
  first-Picked [] none_kept = λ f j. elim (Bool-cases (is_playable filepath_ext f)) [
    | inr refused ↦ refused
    | inl playable ↦
        absurd (subst (In f) none_kept (In-keep (is_playable filepath_ext) f files j playable))
  ]
  first-Picked (f ∷ fs) (i, best) =
      let (member, playable) = keep-In (is_playable filepath_ext) f files i in
      (member, playable, λ g j p. best g (In-keep (is_playable filepath_ext) g files j p))

  -- The file that is picked is among the torrent's playable ones, and none of those is longer.
  -- There is an error only where no file is playable.
  pub pick_largest_playable-Picked : Picked (pick_largest_playable filepath_ext files)
  unfolding pick_largest_playable
  pick_largest_playable-Picked =
      first-Picked _ (larger-IsFirst (keep (is_playable filepath_ext) files))
