-- ===== src/Hls/Validator/Hops.antt =====
-- internal/hlsbuffer/validator.go: the requests of one validation.
use mi_ster_groovy_relay.Prelude.{
  ℕ, zero, suc, ◌+◌, ◌≤◌, ◌≡◌, refl, sym, ap, ◌∙◌, inl, inr, true, false, ◌||◌, Option, none, some,
  List, [], ◌∷◌, arith, ltb, ◌==◌, if◌then◌else◌, Bool-cases, Option-cases, length, set,
}
use mathlib.Core.Path.{subst}
use Prim.Native.String.{String}
use mi_ster_groovy_relay.Prelude.Result.{Result, ok, err, Result-cases}
use mi_ster_groovy_relay.Hls.Validator.{
  TrustMode, generic_public, Ip, AddressClass, class_public, class_private, class_disallowed,
  classify_address, World, UrlError, parse_absolute_http_url, resolve_host, resolve_public_ips,
  resolve_dial_ips, validate_reference, client_for_url, follow, hop_loop, validate, is_public,
  all_public,
}

abbrev pub AllPublic : List Ip → Type 0
AllPublic [] = Unit
AllPublic (ip ∷ ips) = (classify_address ip ≡ class_public) × AllPublic ips

is_public_lem : (c : AddressClass) → is_public c ≡ true → c ≡ class_public
is_public_lem class_public h = refl
is_public_lem class_private h = absurd cc
is_public_lem class_disallowed h = absurd cc

all_public_lem : (ips : List Ip) → all_public ips ≡ true → AllPublic ips
unfolding all_public
all_public_lem [] h = tt
all_public_lem (ip ∷ ips) h = elim (Bool-cases (is_public (classify_address ip))) [
  | inl yes_public ↦
      let rest : all_public ips ≡ true = rw (all_public, yes_public) at h in
      (is_public_lem (classify_address ip) yes_public, all_public_lem ips rest)
  | inr not_public ↦ absurd (let u : false ≡ true = rw (all_public, not_public) at h in cc)
]

-- Addresses that are given are public.
abbrev GivesPublic : Result UrlError (List Ip) → Type 0
GivesPublic (err e) = Unit
GivesPublic (ok ips) = AllPublic ips

resolve_public_ips_lem : (answer : Option (List Ip)) → GivesPublic (resolve_public_ips answer)
unfolding resolve_public_ips
resolve_public_ips_lem answer = elim (Result-cases (resolve_host answer)) [
  | inr (e, q) ↦ rw (resolve_public_ips, q) tt
  | inl (ips, q) ↦ elim (Bool-cases (all_public ips)) [
    | inl yes_public ↦ rw (resolve_public_ips, q, yes_public) (all_public_lem ips yes_public)
    | inr no_public ↦ rw (resolve_public_ips, q, no_public) tt
  ]
]

module _ (world : World) where
  client_for_url_lem : (url : String) → GivesPublic (client_for_url world generic_public url)
  unfolding client_for_url resolve_dial_ips
  client_for_url_lem url = elim (Result-cases (parse_absolute_http_url (world.parse url))) [
    | inr (e, q) ↦ rw (client_for_url, q) tt
    | inl (u, q) ↦ rw (client_for_url, q) (resolve_public_ips_lem (world.resolve_again u.hostname))
  ]

  -- The URL was approved as a reference, and in the public mode all addresses are public.
  pub record Approved (mode : TrustMode) (request : String × List Ip) : Type 0 where
    pub raw : String
    pub approved : validate_reference world mode raw ≡ ok request.0
    pub addresses : mode ≡ generic_public → AllPublic request.1

  abbrev pub AllApproved : TrustMode → List (String × List Ip) → Type 0
  AllApproved mode [] = Unit
  AllApproved mode (r ∷ rs) = Approved mode r × AllApproved mode rs

  -- The last request is to that URL.
  abbrev pub Ends : String → List (String × List Ip) → Type 0
  Ends url [] = ⊥
  Ends url (r ∷ []) = r.0 ≡ url
  Ends url (r ∷ s ∷ rs) = Ends url (s ∷ rs)

  abbrev pub EndsAt : List (String × List Ip) → Result UrlError String → Type 0
  EndsAt requests (err e) = Unit
  EndsAt requests (ok url) = Ends url requests

  pub record Safe (mode : TrustMode) (hops : ℕ)
      (out : List (String × List Ip) × Result UrlError String) : Type 0 where
    pub approved : AllApproved mode out.0
    pub bounded : length out.0 ≤ hops
    pub ends : EndsAt out.0 out.1

  client-Approved :
      (mode : TrustMode) (raw url : String) (ips : List Ip)
      → validate_reference world mode raw ≡ ok url
      → client_for_url world mode url ≡ ok ips
      → Approved mode (url, ips)
  client-Approved mode raw url ips v q = record {
    raw = raw;
    approved = v;
    addresses = λ m.
        subst GivesPublic (ap (λ n. client_for_url world n url) (sym m) ∙ q)
          (client_for_url_lem url);
  }

  EndsAt-cons :
      (r : String × List Ip) (rs : List (String × List Ip)) (out : Result UrlError String)
      → EndsAt rs out
      → EndsAt (r ∷ rs) out
  EndsAt-cons r rs (err e) h = tt
  EndsAt-cons r [] (ok url) h = elim h [ ]
  EndsAt-cons r (s ∷ rs) (ok url) h = h

  -- The next URL, if there is one, was approved as a reference.
  abbrev GivesNext : TrustMode → Result UrlError (Option String) → Type 0
  GivesNext mode (err e) = Unit
  GivesNext mode (ok none) = Unit
  GivesNext mode (ok (some next)) = (raw : String) × (validate_reference world mode raw ≡ ok next)

  follow-GivesNext : (mode : TrustMode) (url : String) → GivesNext mode (follow world mode url)
  unfolding follow
  follow-GivesNext mode url = elim (Option-cases (world.head url)) [
    | inl h ↦ rw (follow, h) tt
    | inr ((status, location), h) ↦ elim (Bool-cases (ltb status 300 || ltb 399 status)) [
      | inl final ↦ rw (follow, h, final) tt
      | inr moved ↦ elim (Option-cases location) [
        | inl l ↦ rw (follow, h, moved, l) tt
        | inr (place, l) ↦ elim (Option-cases (world.against url place)) [
          | inl p ↦ rw (follow, h, moved, l, p) tt
          | inr (next, p) ↦ elim (Result-cases (validate_reference world mode next)) [
            | inr (e, v) ↦ rw (follow, h, moved, l, p, v) tt
            | inl (approved, v) ↦ rw (follow, h, moved, l, p, v) (next, v)
          ]
        ]
      ]
    ]
  ]

  hop_loop-Safe :
      (mode : TrustMode) (hops : ℕ) (raw url : String)
      → validate_reference world mode raw ≡ ok url
      → Safe mode hops (hop_loop world mode hops url)
  unfolding hop_loop
  hop_loop-Safe mode zero raw url v = record { approved = tt; bounded = omega arith; ends = tt }
  hop_loop-Safe mode (suc hops) raw url v = elim (Result-cases (client_for_url world mode url)) [
    | inr (e, q) ↦ rw (hop_loop, q) (record { approved = tt; bounded = omega arith; ends = tt })
    | inl (ips, q) ↦
        let a = client-Approved mode raw url ips v q in
        elim (Result-cases (follow world mode url)) [
          | inr (e, f) ↦
              rw (hop_loop, q, f) (record { approved = (a, tt); bounded = omega arith; ends = tt })
          | inl (none, f) ↦
              rw (hop_loop, q, f)
                (record { approved = (a, tt); bounded = omega arith; ends = refl })
          | inl (some next, f) ↦
              let (place, w) = subst (GivesNext mode) f (follow-GivesNext mode url) in
              let rest = hop_loop-Safe mode hops place next w in
              rw (hop_loop, q, f)
                (record {
                  approved = (a, rest.approved);
                  bounded = omega (arith, rest.bounded);
                  ends = EndsAt-cons (url, ips) (hop_loop world mode hops next).0 _ rest.ends;
                })
        ]
  ]

  -- Whatever the server and the resolver answer, and even where the resolver answers the connection
  -- otherwise than the check: every request of a validation goes to a URL that was approved as a
  -- reference, in the public mode it is pinned to public addresses only, there is at most one
  -- request more than the redirects allowed (3, if none are set), and a URL that is returned is
  -- that of the last request.
  pub validate-Safe :
      (mode : TrustMode) (max_redirects : ℕ) (raw : String)
      → Safe mode
          (if max_redirects == 0 then 4 else max_redirects + 1)
          (validate world mode max_redirects raw)
  unfolding validate
  validate-Safe mode max_redirects raw = elim (Result-cases (validate_reference world mode raw)) [
    | inr (e, v) ↦ rw (validate, v) (record { approved = tt; bounded = omega arith; ends = tt })
    | inl (url, v) ↦ elim (Bool-cases (max_redirects == 0)) [
      | inl unset ↦ rw (validate, v, unset) (hop_loop-Safe mode 4 raw url v)
      | inr set ↦ rw (validate, v, set) (hop_loop-Safe mode (max_redirects + 1) raw url v)
    ]
  ]
