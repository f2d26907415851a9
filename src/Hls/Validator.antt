-- ===== src/Hls/Validator.antt =====
-- internal/hlsbuffer/validator.go: which URLs are requested. net/url, the name resolution and the
-- HTTP client are parameters; a URL is what `url.Parse` gives of it.
pub mod Hops
use mi_ster_groovy_relay.Prelude.{
  ℕ, zero, suc, ◌+◌, Bool, true, false, not, ◌&&◌, ◌||◌, Option, none, some, List, [], ◌∷◌, ltb,
  leb, ◌==◌, if◌then◌else◌,
}
use Prim.Native.String.{String}
use text.Mathlib.Text.{◌==◌ as str_eq}
use mi_ster_groovy_relay.Prelude.Result.{Result, ok, err}
use mi_ster_groovy_relay.Hls.Text.{codes, strip, has_prefix, to_lower}

pub data TrustMode : Type 0 where
  generic_public : TrustMode
  bundled_toonami : TrustMode
  other_mode : TrustMode

-- What net/netip tells of an address, after `Unmap`. `valid` is `AddrFromSlice`'s second result.
pub record Ip : Type 0 where
  pub valid : Bool
  pub unspecified : Bool
  pub loopback : Bool
  pub link_local_unicast : Bool
  pub link_local_multicast : Bool
  pub multicast : Bool
  pub is_private : Bool
  pub is_four : Bool
  pub in_cgnat : Bool

pub data AddressClass : Type 0 where
  class_disallowed : AddressClass
  class_private : AddressClass
  class_public : AddressClass

unfoldable pub classify_address : Ip → AddressClass
classify_address ip =
    if not ip.valid
    then class_disallowed
    else if ((ip.unspecified || ip.loopback) || (ip.link_local_unicast || ip.link_local_multicast))
        || ip.multicast
    then class_disallowed
    else if ip.is_private
    then class_private
    else if ip.is_four && ip.in_cgnat
    then class_private
    else class_public

-- A parsed URL. `text` is `String()`; `query_keys` are the keys of `Query()`.
pub record Url : Type 0 where
  pub text : String
  pub absolute : Bool
  pub scheme : List ℕ
  pub host : List ℕ
  pub hostname : List ℕ
  pub has_user : Bool
  pub has_fragment : Bool
  pub has_query : Bool
  pub query_keys : List (List ℕ)
  pub escaped_path : List ℕ

pub data UrlError : Type 0 where
  malformed : UrlError
  not_absolute : UrlError
  bad_scheme : UrlError
  no_hostname : UrlError
  userinfo : UrlError
  unknown_mode : UrlError
  unresolved : UrlError
  disallowed_address : UrlError
  toonami_fragment : UrlError
  toonami_query : UrlError
  toonami_path : UrlError
  toonami_host : UrlError
  request_failed : UrlError
  no_location : UrlError
  bad_reference : UrlError
  too_many_hops : UrlError

same : List ℕ → List ℕ → Bool
same [] [] = true
same [] (d ∷ ds) = false
same (c ∷ cs) [] = false
same (c ∷ cs) (d ∷ ds) = (c == d) && same cs ds

is_nil : List ℕ → Bool
is_nil [] = true
is_nil (c ∷ cs) = false

-- The checks behind `url.Parse`; none is a text that it rejects, the empty one included.
unfoldable pub parse_absolute_http_url : Option Url → Result UrlError Url
unfolding same is_nil to_lower
parse_absolute_http_url none = err malformed
parse_absolute_http_url (some u) =
    let scheme = to_lower u.scheme in
    if not u.absolute
    then err not_absolute
    else if not (same scheme (codes "http") || same scheme (codes "https"))
    then err bad_scheme
    else if is_nil u.hostname
    then err no_hostname
    else ok u

-- What `resolver` gives, where it gives an address at all.
unfoldable pub resolve_host : Option (List Ip) → Result UrlError (List Ip)
resolve_host none = err unresolved
resolve_host (some []) = err unresolved
resolve_host (some (ip ∷ ips)) = ok (ip ∷ ips)

abbrev is_public : AddressClass → Bool
is_public class_public = true
is_public class_private = false
is_public class_disallowed = false

all_public : List Ip → Bool
unfolding classify_address
all_public [] = true
all_public (ip ∷ ips) = is_public (classify_address ip) && all_public ips

unfoldable pub resolve_public_ips : Option (List Ip) → Result UrlError (List Ip)
unfolding all_public resolve_host
resolve_public_ips answer = elim (resolve_host answer) [
  | err e ↦ err e
  | ok ips ↦ if all_public ips then ok ips else err disallowed_address
]

any_prefix : List (List ℕ) → List ℕ → Bool
unfolding has_prefix
any_prefix [] path = false
any_prefix (p ∷ ps) path = has_prefix path p || any_prefix ps path

abbrev channels : List (List ℕ)
channels = codes "/est/" ∷ codes "/pst/" ∷ codes "/movies/" ∷ codes "/radio/" ∷ []

abbrev origin_channels : List (List ℕ)
origin_channels =
    codes "/livehttporigin/est/"
    ∷ codes "/livehttporigin/pst/"
    ∷ codes "/livehttporigin/movies/"
    ∷ codes "/livehttporigin/radio/"
    ∷ []

unfoldable pub check_toonami_path_prefix : Url → List (List ℕ) → Option UrlError
unfolding any_prefix
check_toonami_path_prefix u prefixes =
    if any_prefix prefixes u.escaped_path then none else some toonami_path

unfoldable pub check_toonami_origin_query : Url → Option UrlError
unfolding same
check_toonami_origin_query u = if not u.has_query then none else (elim u.query_keys [
  | [] ↦ some toonami_query
  | key ∷ keys ↦ elim keys [
    | [] ↦ if same key (codes "streamDelay") then none else some toonami_query
    | other ∷ more ↦ some toonami_query
  ]
])

abbrev in_label : ℕ → Bool
in_label c = ((leb b'a' c && leb c b'z') || (leb b'0' c && leb c b'9')) || (c == b'-')

-- `toonamiOriginHostRE`: the fixed host, behind labels that end with a dot. `started` tells whether
-- the label has a character; a dot ends one, so there is only one way to read a label.
labels_then_host : Bool → List ℕ → Bool
unfolding same
labels_then_host started [] = false
labels_then_host started (c ∷ cs) =
    let whole = not started && same (c ∷ cs) (codes "toonamiaftermath.com:1934") in
    let rest = labels_then_host (in_label c) cs in
    whole || (if in_label c then rest else ((c == b'.') && (started && rest)))

unfoldable pub toonami_origin_host : List ℕ → Bool
unfolding labels_then_host
toonami_origin_host host = labels_then_host false host

unfoldable pub validate_bundled_toonami_url : Url → Option UrlError
unfolding check_toonami_path_prefix check_toonami_origin_query toonami_origin_host same to_lower
validate_bundled_toonami_url u =
    let host = to_lower u.host in
    if u.has_fragment
    then some toonami_fragment
    else if same host (codes "api.toonamiaftermath.com:3000")
    then (if u.has_query then some toonami_query else check_toonami_path_prefix u channels)
    else if toonami_origin_host host
    then (elim (check_toonami_origin_query u) [
      | some e ↦ some e
      | none ↦ check_toonami_path_prefix u origin_channels
    ])
    else some toonami_host

-- What the parser of net/url, the resolver and the server answer. The resolver may answer otherwise
-- when it is asked for the connection (`resolve_again`). `head` is the status and the
-- `Location` of a HEAD request, if it does not fail; `against` resolves a reference.
pub record World : Type 0 where
  pub parse : String → Option Url
  pub resolve : List ℕ → Option (List Ip)
  pub resolve_again : List ℕ → Option (List Ip)
  pub head : String → Option (ℕ × Option String)
  pub against : String → String → Option String

module _ (world : World) (mode : TrustMode) where
  unfoldable pub validate_reference : String → Result UrlError String
  unfolding parse_absolute_http_url resolve_public_ips validate_bundled_toonami_url
  validate_reference raw = elim (parse_absolute_http_url (world.parse raw)) [
    | err e ↦ err e
    | ok u ↦ if u.has_user then err userinfo else (elim mode [
      | generic_public ↦ elim (resolve_public_ips (world.resolve u.hostname)) [
        | err e ↦ err e
        | ok ips ↦ ok u.text
      ]
      | bundled_toonami ↦ elim (validate_bundled_toonami_url u) [
        | some e ↦ err e
        | none ↦ ok u.text
      ]
      | other_mode ↦ err unknown_mode
    ])
  ]

  -- The addresses that the connection is pinned to.
  unfoldable pub resolve_dial_ips : List ℕ → Result UrlError (List Ip)
  unfolding resolve_public_ips resolve_host
  resolve_dial_ips host = elim mode [
    | generic_public ↦ resolve_public_ips (world.resolve_again host)
    | bundled_toonami ↦ resolve_host (world.resolve_again host)
    | other_mode ↦ err unknown_mode
  ]

  -- A client for the URL: the addresses, or the error.
  unfoldable pub client_for_url : String → Result UrlError (List Ip)
  unfolding parse_absolute_http_url resolve_dial_ips
  client_for_url raw = elim (parse_absolute_http_url (world.parse raw)) [
    | err e ↦ err e
    | ok u ↦ resolve_dial_ips u.hostname
  ]

  -- A HEAD request and its answer: none where the URL is final, or the next one.
  unfoldable pub follow : String → Result UrlError (Option String)
  unfolding validate_reference
  follow url = elim (world.head url) [
    | none ↦ err request_failed
    | some (status, location) ↦
        if ltb status 300 || ltb 399 status then ok none else (elim location [
          | none ↦ err no_location
          | some place ↦ elim (world.against url place) [
            | none ↦ err bad_reference
            | some next ↦ elim (validate_reference next) [
              | err e ↦ err e
              | ok approved ↦ ok (some approved)
            ]
          ]
        ])
  ]

  -- The loop, with the hops that are left, and the requests that it makes: the URL of each, and the
  -- addresses that its connection is pinned to.
  unfoldable pub hop_loop : ℕ → String → List (String × List Ip) × Result UrlError String
  unfolding follow client_for_url
  hop_loop zero url = ([], err too_many_hops)
  hop_loop (suc hops) url = elim (client_for_url url) [
    | err e ↦ ([], err e)
    | ok ips ↦ elim (follow url) [
      | err e ↦ ((url, ips) ∷ [], err e)
      | ok target ↦ elim target [
        | none ↦ ((url, ips) ∷ [], ok url)
        | some next ↦ let (requests, r) = hop_loop hops next in ((url, ips) ∷ requests, r)
      ]
    ]
  ]

  -- `max_redirects` is the validator's field, 0 where it is not positive.
  unfoldable pub validate : ℕ → String → List (String × List Ip) × Result UrlError String
  unfolding hop_loop validate_reference
  validate max_redirects raw =
      let hops = (if max_redirects == 0 then 3 else max_redirects) in
      elim (validate_reference raw) [ err e ↦ ([], err e) | ok url ↦ hop_loop (hops + 1) url ]
