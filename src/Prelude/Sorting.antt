-- ===== src/Prelude/Sorting.antt =====
-- `sort.SliceStable` as an insertion sort, which keeps the order of what is not less, the loops that
-- keep some elements, and what comes first in the result.
use mi_ster_groovy_relay.Prelude.{
  ◌≡◌, refl, sym, ap, ◌∙◌, ◌⊎◌, inl, inr, Bool, true, false, List, [], ◌∷◌, if◌then◌else◌,
  Bool-cases,
}
use mathlib.Core.Path.{subst}

-- The elements that pass a test, in order: the loops that append to a new slice.
unfoldable pub keep : {A : Type 0} → (A → Bool) → List A → List A
keep test [] = []
keep test (v ∷ vs) = if test v then v ∷ keep test vs else keep test vs

-- A stable sort.
unfoldable pub insert : {A : Type 0} → (A → A → Bool) → A → List A → List A
insert less v [] = v ∷ []
insert less v (w ∷ ws) = if less w v then w ∷ insert less v ws else v ∷ w ∷ ws

unfoldable pub slice_stable : {A : Type 0} → (A → A → Bool) → List A → List A
unfolding insert
slice_stable less [] = []
slice_stable less (v ∷ vs) = insert less v (slice_stable less vs)

abbrev pub In : {A : Type 0} → A → List A → Type 0
In v [] = ⊥
In v (w ∷ ws) = (v ≡ w) ⊎ In v ws

pub keep-In :
    {A : Type 0} (test : A → Bool) (v : A) (vs : List A)
    → In v (keep test vs)
    → In v vs × (test v ≡ true)
unfolding keep
keep-In test v [] h = elim h [ ]
keep-In test v (w ∷ ws) h = elim (Bool-cases (test w)) [
  | inl yes_w ↦
      let h' : (v ≡ w) ⊎ In v (keep test ws) = rw (keep, yes_w) at h in
      elim h' [
        | inl e ↦ (inl e, ap test e ∙ yes_w)
        | inr i ↦ let (j, t) = keep-In test v ws i in (inr j, t)
      ]
  | inr no_w ↦
      let h' : In v (keep test ws) = rw (keep, no_w) at h in
      let (j, t) = keep-In test v ws h' in (inr j, t)
]

pub In-keep :
    {A : Type 0} (test : A → Bool) (v : A) (vs : List A)
    → In v vs
    → test v ≡ true
    → In v (keep test vs)
unfolding keep
In-keep test v [] h t = h
In-keep test v (w ∷ ws) (inl e) t = let u : test w ≡ true = ap test (sym e) ∙ t in rw u (inl e)
In-keep test v (w ∷ ws) (inr i) t = elim (Bool-cases (test w)) [
  | inl yes_w ↦ rw yes_w (inr (In-keep test v ws i t))
  | inr no_w ↦ rw no_w (In-keep test v ws i t)
]

-- The first of a sorted list is one of the elements, and no element comes before it.
abbrev pub IsFirst : {A : Type 0} → (A → A → Type 0) → List A → List A → Type 0
IsFirst R vs [] = vs ≡ []
IsFirst {A = A} R vs (h ∷ t) = In h vs × ((w : A) → In w vs → R h w)

module _ {A : Type 0} (less : A → A → Bool) (R : A → A → Type 0) (self : (a : A) → R a a)
    (chain : (a b c : A) → R a b → R b c → R a c) (before : (a b : A) → less a b ≡ true → R a b)
    (after : (a b : A) → less a b ≡ false → R b a) where
  insert-IsFirst : (v : A) (vs l : List A) → IsFirst R vs l → IsFirst R (v ∷ vs) (insert less v l)
  unfolding insert
  insert-IsFirst v vs [] e = (
    inl refl,
    λ w i. elim i [
      | inl same ↦ subst (R v) (sym same) (self v)
      | inr j ↦ absurd (subst (In w) e j)
    ],
  )
  insert-IsFirst v vs (h ∷ t) (i, best) = elim (Bool-cases (less h v)) [
    | inl earlier ↦ rw earlier (
      inr i,
      λ w j. elim j [ inl same ↦ subst (R h) (sym same) (before h v earlier) | inr k ↦ best w k ],
    )
    | inr later ↦ rw later (
      inl refl,
      λ w j. elim j [
        | inl same ↦ subst (R v) (sym same) (self v)
        | inr k ↦ chain v h w (after h v later) (best w k)
      ],
    )
  ]

  pub slice_stable-IsFirst : (vs : List A) → IsFirst R vs (slice_stable less vs)
  unfolding slice_stable
  slice_stable-IsFirst [] = refl
  slice_stable-IsFirst (v ∷ vs) =
      insert-IsFirst v vs (slice_stable less vs) (slice_stable-IsFirst vs)

pub List-cases : {A : Type 0} → (l : List A) → (l ≡ []) ⊎ ((h : A) × (t : List A) × (l ≡ h ∷ t))
List-cases [] = inl refl
List-cases (h ∷ t) = inr (h, t, refl)
