-- ===== src/Hls/Cache.antt =====
-- internal/hlsbuffer/cache.go: the segments that are kept on disk, oldest first. A limit that is not
-- positive is 0 here, and sizes are not negative. path/filepath is a parameter, and so is what the
-- disk answers to a call of `Put`.
pub mod Limits
pub mod Put
use mi_ster_groovy_relay.Prelude.{
  ℕ, zero, suc, ◌+◌, ◌-◌, ◌/◌, ◌⊎◌, inl, inr, Bool, true, false, not, ◌&&◌, ◌||◌, Option, none,
  some, List, [], ◌∷◌, ◌++◌, ltb, leb, if◌then◌else◌, length,
}
use Prim.Native.String.{String, ◌++◌ as append}
use mi_ster_groovy_relay.Hls.Text.{codes, strip}
use text.Mathlib.Text.{◌==◌ as str_eq, starts_with}

pub record CacheEntry : Type 0 where
  pub name : String
  pub size : ℕ

pub record SegmentCache : Type 0 where
  pub root : String
  pub max_segments : ℕ
  pub max_bytes : ℕ
  pub entries : List CacheEntry
  pub total_bytes : ℕ

unfoldable pub new_segment_cache : String → ℕ → ℕ → SegmentCache
new_segment_cache root max_segments max_bytes = record {
  root = root;
  max_segments = max_segments;
  max_bytes = max_bytes;
  entries = [];
  total_bytes = 0;
}

pub data CacheError : Type 0 where
  too_large : CacheError
  unsafe_filename : CacheError
  escapes_root : CacheError
  create_root : CacheError
  write_segment : CacheError
  evict : CacheError

-- The functions of path/filepath.
pub record Filepath : Type 0 where
  pub base : String → String
  pub clean : String → String
  pub join : String → String → String

-- What `MkdirAll`, `WriteFile` and `Remove` answer: whether there is no error, where a file that
-- does not exist counts as removed.
pub record Disk : Type 0 where
  pub makes_root : Bool
  pub writes : Bool
  pub removes : String → Bool

-- The rest behind the first of the literals that fits.
strip_any : List (List ℕ) → List ℕ → Option (List ℕ)
unfolding strip
strip_any [] cs = none
strip_any (p ∷ ps) cs =
    let other = strip_any ps cs in elim (strip p cs) [ some rest ↦ some rest | none ↦ other ]

strip_digits : ℕ → List ℕ → Option (List ℕ)
strip_digits zero cs = some cs
strip_digits (suc n) [] = none
strip_digits (suc n) (c ∷ cs) =
    let rest = strip_digits n cs in if leb b'0' c && leb c b'9' then rest else none

is_nil : List ℕ → Bool
is_nil [] = true
is_nil (c ∷ cs) = false

-- `cacheNameRE`. No name of an extension begins with another, nor does any of the first part.
unfoldable pub cache_name_matches : String → Bool
unfolding strip_any strip_digits is_nil
cache_name_matches name =
    let start =
      strip_any (codes "playlist-" ∷ codes "segment-" ∷ codes "init-" ∷ []) (codes name) in
    let extensions =
      codes ".m3u8" ∷ codes ".ts" ∷ codes ".m4s" ∷ codes ".mp4" ∷ codes ".bin" ∷ [] in
    elim start [
      | none ↦ false
      | some number ↦ elim (strip_digits 6 number) [
        | none ↦ false
        | some extension ↦ elim (strip_any extensions extension) [
          | none ↦ false
          | some rest ↦ is_nil rest
        ]
      ]
    ]

module _ (files : Filepath) where
  -- The path, or the error.
  unfoldable pub safe_cache_path : String → String → String ⊎ CacheError
  unfolding cache_name_matches
  safe_cache_path root name =
      let base = files.base name in
      let clean_root = files.clean root in
      let joined = files.clean (files.join clean_root base) in
      if not (str_eq base name) || not (cache_name_matches base)
      then inr unsafe_filename
      else if str_eq joined clean_root || not (starts_with joined (append clean_root "/"))
      then inr escapes_root
      else inl joined

-- The first entry of that name, and the others.
pub remove_named : String → List CacheEntry → Option (CacheEntry × List CacheEntry)
remove_named name [] = none
remove_named name (e ∷ es) =
    let rest = remove_named name es in
    if str_eq e.name name
    then some (e, es)
    else (elim rest [ none ↦ none | some (found, others) ↦ some (found, e ∷ others) ])

unfoldable pub remove_entry : SegmentCache → String → SegmentCache
unfolding remove_named
remove_entry c name = elim (remove_named name c.entries) [
  | none ↦ c
  | some (e, es) ↦ record c { entries = es; total_bytes = c.total_bytes - e.size }
]

unfoldable pub over_limit : SegmentCache → Bool
over_limit c =
    (ltb 0 c.max_segments && ltb c.max_segments (length c.entries))
    || (ltb 0 c.max_bytes && ltb c.max_bytes c.total_bytes)

-- The loop, on the entries that it looks at.
pub evict_loop : Disk → SegmentCache → List CacheEntry → SegmentCache × Option CacheError
unfolding over_limit
evict_loop disk c [] = (c, none)
evict_loop disk c (e ∷ es) =
    let c' : SegmentCache = record c { entries = es; total_bytes = c.total_bytes - e.size } in
    let rest = evict_loop disk c' es in
    if over_limit c then (if disk.removes e.name then rest else (c', some evict)) else (c, none)

unfoldable pub enforce_limits : Disk → SegmentCache → SegmentCache × Option CacheError
unfolding evict_loop
enforce_limits disk c = evict_loop disk c c.entries

unfoldable pub put :
    Filepath → Disk → SegmentCache → String → List ℕ → SegmentCache × Option CacheError
unfolding safe_cache_path remove_entry enforce_limits
put files disk c name body =
    let size = length body in
    let c₁ = remove_entry c name in
    let c₂ : SegmentCache = record c₁ {
      entries = c₁.entries ++ (record { name = name; size = size } ∷ []);
      total_bytes = c₁.total_bytes + size;
    } in
    if ltb 0 c.max_bytes && ltb c.max_bytes size
    then (c, some too_large)
    else (elim (safe_cache_path files c.root name) [
      | inr e ↦ (c, some e)
      | inl path ↦
          if not disk.makes_root
          then (c, some create_root)
          else if not disk.writes
          then (c₁, some write_segment)
          else enforce_limits disk c₂
    ])
