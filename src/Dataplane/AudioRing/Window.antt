-- ===== src/Dataplane/AudioRing/Window.antt =====
-- internal/dataplane/audioring.go: the slots of a ring from a position on.
use native.Mathlib.Nat.{mod-eq_of_lt, add-mul-mod_self_right}
use mi_ster_groovy_relay.Prelude.{
  ℕ, zero, suc, ◌+◌, ◌-◌, ◌*◌, ◌%◌, ◌≤◌, ◌<◌, ◌≡◌, refl, sym, ap, ap₂, ◌∙◌, ◌≢◌, ◌⊎◌, inl, inr,
  Option, none, List, [], ◌∷◌, ◌++◌, arith, dec_lt, length, set, length-set, get_or,
}

-- An index into the ring is the sum, or the sum less the length.
wrap_cases :
    (h a l : ℕ)
    → h < l
    → a ≤ l
    → ((h + a < l) × ((h + a) % l ≡ h + a)) ⊎ ((l ≤ h + a) × ((h + a) % l ≡ h + a - l))
wrap_cases h a l p q = elim (dec_lt (h + a) l) [
  | yes below ↦ inl (below, mod-eq_of_lt below)
  | no over ↦
      let e : h + a ≡ h + a - l + 1 * l = omega arith in
      inr (
        omega arith,
        ap (λ m. m % l) e ∙ add-mul-mod_self_right (h + a - l) 1 l ∙ mod-eq_of_lt (omega arith),
      )
]

slot_ne : (h a b l : ℕ) → h < l → a < l → b < l → a ≢ b → (h + a) % l ≢ (h + b) % l
slot_ne h a b l p q r n e =
    let u = wrap_cases h a l p (omega arith) in
    let v = wrap_cases h b l p (omega arith) in n (ground (arith, u, v, e))

slot_next : (h k l : ℕ) → h < l → k + 1 ≤ l → ((h + 1) % l + k) % l ≡ (h + (k + 1)) % l
slot_next h k l p q = elim (wrap_cases h 1 l p (omega arith)) [
  | inl (below, e) ↦ let f : (h + 1) % l + k ≡ h + (k + 1) = omega (arith, e) in ap (λ m. m % l) f
  | inr (over, e) ↦
      let f : (h + 1) % l + k ≡ k = omega (arith, e) in
      let g : h + (k + 1) ≡ k + 1 * l = omega arith in
      ap (λ m. m % l) f ∙ sym (add-mul-mod_self_right k 1 l) ∙ ap (λ m. m % l) (sym g)
]

module _ {A : Type 0} where
  pub get_or-set_self :
      (xs : List (Option A)) (i : ℕ) (v : Option A) → i < length xs → get_or (set xs i v) i none ≡ v
  get_or-set_self [] i v h = absurd (omega arith)
  get_or-set_self (x ∷ xs) zero v h = refl
  get_or-set_self (x ∷ xs) (suc i) v h = get_or-set_self xs i v (omega arith)

  get_or-set_ne :
      (xs : List (Option A)) (i j : ℕ) (v : Option A)
      → i ≢ j
      → get_or (set xs i v) j none ≡ get_or xs j none
  get_or-set_ne [] i j v h = refl
  get_or-set_ne (x ∷ xs) zero zero v h = absurd (h refl)
  get_or-set_ne (x ∷ xs) zero (suc j) v h = refl
  get_or-set_ne (x ∷ xs) (suc i) zero v h = refl
  get_or-set_ne (x ∷ xs) (suc i) (suc j) v h = get_or-set_ne xs i j v (λ e. h (ap suc e))

  abbrev pub slot : List (Option A) → ℕ → ℕ → ℕ
  slot buf h k = (h + k) % length buf

  -- The slots from the `k`-th of the ring on.
  abbrev pub window : List (Option A) → ℕ → ℕ → ℕ → List (Option A)
  window buf h k zero = []
  window buf h k (suc n) = get_or buf (slot buf h k) none ∷ window buf h (k + 1) n

  pub window-snoc :
      (buf : List (Option A)) (h k n : ℕ)
      → window buf h k (suc n) ≡ window buf h k n ++ (get_or buf (slot buf h (k + n)) none ∷ [])
  window-snoc buf h k zero =
      let e : k ≡ k + 0 = omega arith in ap (λ m. get_or buf (slot buf h m) none ∷ []) e
  window-snoc buf h k (suc n) =
      let e : k + 1 + n ≡ k + suc n = omega arith in
      ap (λ t. get_or buf (slot buf h k) none ∷ t)
        (window-snoc buf h (k + 1) n
          ∙ ap (λ m. window buf h (k + 1) n ++ (get_or buf (slot buf h m) none ∷ [])) e)

  -- A store outside of the window.
  pub window-set :
      (buf : List (Option A)) (h j k n : ℕ) (v : Option A)
      → h < length buf
      → j < length buf
      → (j < k) ⊎ (k + n ≤ j)
      → k + n ≤ length buf
      → window (set buf (slot buf h j) v) h k n ≡ window buf h k n
  window-set buf h j k zero v p q r s = refl
  window-set buf h j k (suc n) v p q r s =
      let size = length-set buf (slot buf h j) v in
      let first : get_or (set buf (slot buf h j) v) (slot buf h k) none
          ≡ get_or buf (slot buf h k) none =
        get_or-set_ne buf (slot buf h j) (slot buf h k) v
          (slot_ne h j k (length buf) p q (omega arith) (omega (arith, r))) in
      ap₂ ◌∷◌ (ap (λ m. get_or (set buf (slot buf h j) v) ((h + k) % m) none) size ∙ first)
        (window-set buf h j (k + 1) n v p q (omega (arith, r)) (omega arith))

  pub window-next :
      (buf : List (Option A)) (h k n : ℕ)
      → h < length buf
      → k + 1 + n ≤ length buf
      → window buf ((h + 1) % length buf) k n ≡ window buf h (k + 1) n
  window-next buf h k zero p q = refl
  window-next buf h k (suc n) p q =
      ap₂ ◌∷◌ (ap (λ m. get_or buf m none) (slot_next h k (length buf) p (omega arith)))
        (window-next buf h (k + 1) n p (omega arith))
