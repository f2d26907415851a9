-- ===== src/Playback/Registry/Listing.antt =====
-- internal/adapters/registry.go: a registry as the list of its adapters.
use mi_ster_groovy_relay.Prelude.{
  ◌≡◌, refl, sym, ap, ap₂, ◌∙◌, ◌≢◌, inl, inr, Bool, true, false, Option, none, some, List, [], ◌∷◌,
  ◌++◌, map, arith, if◌then◌else◌, Bool-cases, Option-cases, length,
}
use mathlib.Core.Path.{subst}
use Prim.Native.String.{String}
use text.Mathlib.Text.{◌==◌ as str_eq}
use text.Mathlib.TextEquality.{eq_iff}
use text.Mathlib.TextPositions.{eq_refl}
use mi_ster_groovy_relay.Playback.Registry.{
  Registry, get, lookup, look_all, list, register, new_registry,
}

module _ {A : Type 0} (name_of : A → String) where
  -- The first adapter of that name.
  abbrev pub find : String → List A → Option A
  find name [] = none
  find name (a ∷ as') = if str_eq (name_of a) name then some a else find name as'

  abbrev pub names : List A → List String
  names [] = []
  names (a ∷ as') = name_of a ∷ names as'

  -- The registry holds exactly the adapters of the list, in the order of their registration.
  pub record Holds (r : Registry A) (as' : List A) : Type 0 where
    pub order : r.order ≡ names as'
    pub listed : list r ≡ map some as'
    pub found : (name : String) → get r name ≡ find name as'

  names-append : (xs ys : List A) → names (xs ++ ys) ≡ names xs ++ names ys
  names-append [] ys = refl
  names-append (x ∷ xs) ys = ap (λ l. name_of x ∷ l) (names-append xs ys)

  find_end :
      (name : String) (xs : List A) (a : A)
      → find name xs ≡ none
      → find name (xs ++ (a ∷ [])) ≡ (if str_eq (name_of a) name then some a else none)
  find_end name [] a h = refl
  find_end name (x ∷ xs) a h = elim (Bool-cases (str_eq (name_of x) name)) [
    | inl same ↦ absurd (let u : some x ≡ none = rw same at h in cc)
    | inr other ↦ rw other (find_end name xs a (rw other at h))
  ]

  find_kept :
      (name : String) (xs : List A) (a : A)
      → str_eq (name_of a) name ≡ false
      → find name (xs ++ (a ∷ [])) ≡ find name xs
  find_kept name [] a h = rw h refl
  find_kept name (x ∷ xs) a h = elim (Bool-cases (str_eq (name_of x) name)) [
    | inl same ↦ rw same refl
    | inr other ↦ rw other (find_kept name xs a h)
  ]

  pub new_registry-Holds : Holds new_registry []
  unfolding lookup list get
  new_registry-Holds = record { order = refl; listed = refl; found = λ name. refl }

  found_added :
      (r : Registry A) (as' : List A) (a : A)
      → Holds r as'
      → find (name_of a) as' ≡ none
      → (name : String)
      → (if str_eq (name_of a) name then some a else lookup name r.adapters)
        ≡ find name (as' ++ (a ∷ []))
  unfolding get
  found_added r as' a h free name = elim (Bool-cases (str_eq (name_of a) name)) [
    | inl same ↦
        let e : name_of a ≡ name = (eq_iff (name_of a) name).0 same in
        let free' : find name as' ≡ none = subst (λ n. find n as' ≡ none) e free in
        rw same (sym (find_end name as' a free' ∙ rw same refl))
    | inr other ↦ rw other (h.found name ∙ sym (find_kept name as' a other))
  ]

  -- A new pair does not change what the names that are listed give.
  look_all_kept :
      (m : List (String × A)) (a : A) (ns : List String) (xs : List A)
      → look_all m ns ≡ map some xs
      → lookup (name_of a) m ≡ none
      → look_all ((name_of a, a) ∷ m) ns ≡ look_all m ns
  unfolding look_all lookup
  look_all_kept m a [] xs h free = refl
  look_all_kept m a (n ∷ ns) [] h free =
      absurd (let u : length (look_all m (n ∷ ns)) ≡ 0 = ap length h in omega (arith, u))
  look_all_kept m a (n ∷ ns) (x ∷ xs) h free =
      let head : lookup n m ≡ some x = cc in
      let tail : look_all m ns ≡ map some xs = cc in
      let rest = look_all_kept m a ns xs tail free in
      elim (Bool-cases (str_eq (name_of a) n)) [
        | inl same ↦
            let e : name_of a ≡ n = (eq_iff (name_of a) n).0 same in
            let gone : lookup n m ≡ none = subst (λ k. lookup k m ≡ none) e free in
            absurd (let u : some x ≡ none = sym head ∙ gone in cc)
        | inr other ↦ rw other (ap (λ l. lookup n m ∷ l) rest)
      ]

  look_all-append :
      (m : List (String × A)) (ns ks : List String)
      → look_all m (ns ++ ks) ≡ look_all m ns ++ look_all m ks
  unfolding look_all
  look_all-append m [] ks = refl
  look_all-append m (n ∷ ns) ks = ap (λ l. lookup n m ∷ l) (look_all-append m ns ks)

  map-append_some : (xs ys : List A) → map some (xs ++ ys) ≡ map some xs ++ map some ys
  map-append_some [] ys = refl
  map-append_some (x ∷ xs) ys = ap (λ l. some x ∷ l) (map-append_some xs ys)

  listed_added :
      (r : Registry A) (as' : List A) (a : A)
      → Holds r as'
      → lookup (name_of a) r.adapters ≡ none
      → look_all ((name_of a, a) ∷ r.adapters) (r.order ++ (name_of a ∷ []))
        ≡ map some (as' ++ (a ∷ []))
  unfolding list lookup
  listed_added r as' a h free =
      let m : List (String × A) = (name_of a, a) ∷ r.adapters in
      let own : lookup (name_of a) m ≡ some a = rw (eq_refl (name_of a)) refl in
      look_all-append m r.order (name_of a ∷ [])
      ∙ ap₂ ◌++◌ (look_all_kept r.adapters a r.order as' h.listed free ∙ h.listed)
          (ap (λ o. o ∷ []) own)
      ∙ sym (map-append_some as' (a ∷ []))

  -- What a registration gives: the adapter at the end, or nothing where the name is taken.
  abbrev pub Registered : List A → A → Registry A × Bool → Type 0
  Registered as' a (r, true) = (find (name_of a) as' ≡ none) × Holds r (as' ++ (a ∷ []))
  Registered as' a (r, false) = (find (name_of a) as' ≢ none) × Holds r as'

  -- For a registry that holds a list of adapters (List gives them in order, and Get the one of each
  -- name): registering one of a name that is not taken gives a registry that holds the list and it
  -- at the end. Where the name is taken there is an error and the registry still holds the list.
  pub register-Registered :
      (r : Registry A) (as' : List A) (a : A)
      → Holds r as'
      → Registered as' a (register name_of r a)
  unfolding register list get
  register-Registered r as' a h = elim (Option-cases (lookup (name_of a) r.adapters)) [
    | inr (old, e) ↦
        rw (register, e)
          (
            λ none_found.
                absurd (let u : some old ≡ none = sym e ∙ h.found (name_of a) ∙ none_found in cc),
            h,
          )
    | inl e ↦
        let free : find (name_of a) as' ≡ none = sym (h.found (name_of a)) ∙ e in
        rw (register, e)
          (
            free,
            record {
              order = rw h.order (sym (names-append as' (a ∷ [])));
              listed = listed_added r as' a h e;
              found = λ name. found_added r as' a h free name;
            },
          )
  ]
