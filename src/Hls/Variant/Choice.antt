-- ===== src/Hls/Variant/Choice.antt =====
-- internal/hlsbuffer/variant.go: what a chosen variant is among the others.
use mi_ster_groovy_relay.Prelude.{ℕ, ◌≤◌, ◌<◌, ◌≡◌, ◌≢◌, Bool, true, List, leb}
use mi_ster_groovy_relay.Prelude.Sorting.{In, keep}
use mi_ster_groovy_relay.Hls.Variant.{
  err, ok, VariantError, has_bandwidth, has_height, is_candidate, Result, Variant,
}

abbrev Lower : Variant → Variant → Type 0
Lower a b = a.height ≤ b.height

abbrev Higher : Variant → Variant → Type 0
Higher a b = b.height ≤ a.height

-- Any element may come first.
abbrev Any : Variant → Variant → Type 0
Any a b = Unit

-- The lowest of the candidates that reach the output's height, or else the highest of those whose
-- height is known.
pub record Chosen (variants : List Variant) (output_height max_height : ℕ) (v : Variant)
    : Type 0 where
  pub member : In v variants
  pub candidate : is_candidate max_height v ≡ true
  pub lowest :
      (w : Variant)
      → In w variants
      → is_candidate max_height w ≡ true
      → 0 < w.height
      → output_height ≤ w.height
      → (0 < v.height) × (output_height ≤ v.height) × (v.height ≤ w.height)
  pub highest :
      (w : Variant)
      → In w variants
      → is_candidate max_height w ≡ true
      → 0 < w.height
      → v.height < output_height
      → w.height ≤ v.height

-- A variant is chosen, or there is no candidate.
abbrev pub Outcome : List Variant → ℕ → ℕ → Result VariantError Variant → Type 0
Outcome variants output_height max_height (ok v) = Chosen variants output_height max_height v
Outcome variants output_height max_height (err x) =
    (w : Variant) → In w variants → is_candidate max_height w ≢ true

module _ (variants : List Variant) (output_height max_height : ℕ) where
  abbrev candidates : List Variant
  candidates = keep (is_candidate max_height) variants

  abbrev with_height : List Variant
  with_height = keep has_height candidates

  abbrev reaches : Variant → Bool
  reaches v = leb output_height v.height

  abbrev adequate : List Variant
  adequate = keep reaches with_height

  abbrev with_bandwidth : List Variant
  with_bandwidth = keep has_bandwidth candidates
