-- ===== src/Prelude/Slices.antt =====
-- Writes into a part of a list, and lists taken apart at their beginnings.
use mi_ster_groovy_relay.Prelude.Lists.{
  length, take, drop, set, get_or, take-append_length, drop-append_length,
}
use Prim.Native.Nat.{ℕ, zero, suc, ◌+◌, ◌<◌}
use mathlib.Core.Path.{◌≡◌, refl, ap, ap₂, ◌∙◌}
use mathlib.Core.List.{List, [], ◌∷◌, ◌++◌}
use native.Mathlib.Omega.{arith}

module _ {ℓ} {A : Type ℓ} where
  -- `copy(xs[i:], bs)`, where all of `bs` fits.
  abbrev pub copy_at : List A → ℕ → List A → List A
  copy_at xs i bs = take i xs ++ (bs ++ drop (i + length bs) xs)

  pub drop-append : (pre xs : List A) (n : ℕ) → drop (length pre + n) (pre ++ xs) ≡ drop n xs
  drop-append [] xs n = let e : 0 + n ≡ n = omega arith in ap (λ m. drop m xs) e
  drop-append (p ∷ pre) xs n =
      let e : suc (length pre) + n ≡ suc (length pre + n) = omega arith in
      ap (λ m. drop m (p ∷ (pre ++ xs))) e ∙ drop-append pre xs n

  pub copy_at-append :
      (pre xs bs : List A)
      → copy_at (pre ++ xs) (length pre) bs ≡ pre ++ (bs ++ drop (length bs) xs)
  copy_at-append pre xs bs =
      ap₂ (λ u v. u ++ (bs ++ v)) (take-append_length pre xs) (drop-append pre xs (length bs))

  pub set-append :
      (pre xs : List A) (j : ℕ) (v : A) → set (pre ++ xs) (length pre + j) v ≡ pre ++ set xs j v
  set-append [] xs j v = let e : 0 + j ≡ j = omega arith in ap (λ m. set xs m v) e
  set-append (p ∷ pre) xs j v =
      let e : suc (length pre) + j ≡ suc (length pre + j) = omega arith in
      ap (λ m. set (p ∷ (pre ++ xs)) m v) e ∙ ap (λ t. p ∷ t) (set-append pre xs j v)

  pub get_or-append :
      (pre xs : List A) (j : ℕ) (d : A) → get_or (pre ++ xs) (length pre + j) d ≡ get_or xs j d
  get_or-append [] xs j d = let e : 0 + j ≡ j = omega arith in ap (λ m. get_or xs m d) e
  get_or-append (p ∷ pre) xs j d =
      let e : suc (length pre) + j ≡ suc (length pre + j) = omega arith in
      ap (λ m. get_or (p ∷ (pre ++ xs)) m d) e ∙ get_or-append pre xs j d

  -- A part in the middle.
  pub slice-append :
      (pre xs post : List A) → take (length xs) (drop (length pre) (pre ++ (xs ++ post))) ≡ xs
  slice-append pre xs post =
      ap (take (length xs)) (drop-append_length pre (xs ++ post)) ∙ take-append_length xs post

  pub set-front :
      (xs ys : List A) (i : ℕ) (v : A) → i < length xs → set (xs ++ ys) i v ≡ set xs i v ++ ys
  set-front [] ys i v h = absurd (omega arith)
  set-front (x ∷ xs) ys zero v h = refl
  set-front (x ∷ xs) ys (suc i) v h = ap (λ t. x ∷ t) (set-front xs ys i v (omega arith))

  pub get_or-front :
      (xs ys : List A) (i : ℕ) (d : A) → i < length xs → get_or (xs ++ ys) i d ≡ get_or xs i d
  get_or-front [] ys i d h = absurd (omega arith)
  get_or-front (x ∷ xs) ys zero d h = refl
  get_or-front (x ∷ xs) ys (suc i) d h = get_or-front xs ys i d (omega arith)

  pub get_or-drop : (xs : List A) (n : ℕ) (d : A) → get_or xs n d ≡ get_or (drop n xs) 0 d
  get_or-drop [] zero d = refl
  get_or-drop [] (suc n) d = refl
  get_or-drop (x ∷ xs) zero d = refl
  get_or-drop (x ∷ xs) (suc n) d = get_or-drop xs n d
