-- ===== src/Hls/Cache/Limits.antt =====
-- internal/hlsbuffer/cache.go: the entries of a cache and its limits.
use mi_ster_groovy_relay.Prelude.{
  ℕ, ◌+◌, ◌-◌, ◌≤◌, ◌<◌, ◌≡◌, refl, sym, ap, ◌∙◌, ◌≢◌, inl, inr, true, false, Option, none, some,
  List, [], ◌∷◌, ◌++◌, arith, if◌then◌else◌, Bool-cases, Option-cases, length, length-append,
}
use mathlib.Core.Path.{subst}
use Prim.Native.String.{String}
use text.Mathlib.Text.{◌==◌ as str_eq}
use text.Mathlib.TextEquality.{eq_iff}
use mi_ster_groovy_relay.Hls.Cache.{
  CacheEntry, SegmentCache, CacheError, Disk, remove_named, remove_entry, over_limit, evict_loop,
}

abbrev pub sizes : List CacheEntry → ℕ
sizes [] = 0
sizes (e ∷ es) = e.size + sizes es

-- No entry has that name.
abbrev pub Absent : String → List CacheEntry → Type 0
Absent name [] = Unit
Absent name (e ∷ es) = (e.name ≢ name) × Absent name es

abbrev pub Distinct : List CacheEntry → Type 0
Distinct [] = Unit
Distinct (e ∷ es) = Absent e.name es × Distinct es

-- The total is the sum of the sizes, and no two entries have a name in common.
pub record IsCache (c : SegmentCache) : Type 0 where
  pub total : c.total_bytes ≡ sizes c.entries
  pub distinct : Distinct c.entries

-- The limits that are set hold.
abbrev pub IsWithin : SegmentCache → List CacheEntry → Type 0
IsWithin c es =
    (0 < c.max_segments → length es ≤ c.max_segments) × (0 < c.max_bytes → sizes es ≤ c.max_bytes)

pub sizes-append : (es fs : List CacheEntry) → sizes (es ++ fs) ≡ sizes es + sizes fs
sizes-append [] fs = omega arith
sizes-append (e ∷ es) fs = omega (arith, sizes-append es fs)

Absent-append :
    (name : String) (es fs : List CacheEntry)
    → Absent name es
    → Absent name fs
    → Absent name (es ++ fs)
Absent-append name [] fs h k = k
Absent-append name (e ∷ es) fs (h, hs) k = (h, Absent-append name es fs hs k)

pub Distinct-end :
    (es : List CacheEntry) (e : CacheEntry)
    → Distinct es
    → Absent e.name es
    → Distinct (es ++ (e ∷ []))
Distinct-end [] e h k = (tt, tt)
Distinct-end (f ∷ es) e (h, hs) (k, ks) =
    (Absent-append f.name es (e ∷ []) h (λ q. k (sym q), tt), Distinct-end es e hs ks)

-- The entries but the one of that name.
abbrev pub without : String → List CacheEntry → List CacheEntry
without name [] = []
without name (e ∷ es) = if str_eq e.name name then es else e ∷ without name es

Absent-without : (m name : String) (es : List CacheEntry) → Absent m es → Absent m (without name es)
Absent-without m name [] h = tt
Absent-without m name (e ∷ es) (h, hs) = elim (Bool-cases (str_eq e.name name)) [
  | inl same ↦ rw same hs
  | inr other ↦ rw other (h, Absent-without m name es hs)
]

pub without-Absent :
    (name : String) (es : List CacheEntry) → Distinct es → Absent name (without name es)
without-Absent name [] h = tt
without-Absent name (e ∷ es) (h, hs) = elim (Bool-cases (str_eq e.name name)) [
  | inl same ↦
      rw same (let q : e.name ≡ name = (eq_iff e.name name).0 same in subst (λ n. Absent n es) q h)
  | inr other ↦ rw other (
    λ q. let t = (eq_iff e.name name).1 q in absurd (let u : true ≡ false = sym t ∙ other in cc),
    without-Absent name es hs,
  )
]

without-Distinct : (name : String) (es : List CacheEntry) → Distinct es → Distinct (without name es)
without-Distinct name [] h = tt
without-Distinct name (e ∷ es) (h, hs) = elim (Bool-cases (str_eq e.name name)) [
  | inl same ↦ rw same hs
  | inr other ↦ rw other (Absent-without e.name name es h, without-Distinct name es hs)
]

-- What is removed is the entry of that name, and the others are kept in order.
abbrev Removed : String → List CacheEntry → Option (CacheEntry × List CacheEntry) → Type 0
Removed name es none = without name es ≡ es
Removed name es (some (e, rest)) = (rest ≡ without name es) × (sizes es ≡ e.size + sizes rest)

remove_named-Removed :
    (name : String) (es : List CacheEntry) → Removed name es (remove_named name es)
unfolding remove_named
remove_named-Removed name [] = refl
remove_named-Removed name (e ∷ es) = elim (Bool-cases (str_eq e.name name)) [
  | inl same ↦ rw same (rw same refl, refl)
  | inr other ↦
      let rest = remove_named-Removed name es in
      elim (Option-cases (remove_named name es)) [
        | inl r ↦
            let kept : without name es ≡ es = subst (Removed name es) r rest in
            rw (other, r) (rw other (ap (λ t. e ∷ t) kept))
        | inr ((f, fs), r) ↦
            let (kept, sum) = subst (Removed name es) r rest in
            rw (other, r) (rw other (ap (λ t. e ∷ t) kept), omega (arith, sum))
      ]
]

pub remove_entry-IsCache :
    (c : SegmentCache) (name : String)
    → IsCache c
    → IsCache (remove_entry c name) × ((remove_entry c name).entries ≡ without name c.entries)
unfolding remove_entry
remove_entry-IsCache c name i =
    let r = remove_named-Removed name c.entries in
    let distinct = without-Distinct name c.entries i.distinct in
    elim (Option-cases (remove_named name c.entries)) [
      | inl e ↦
          let kept : without name c.entries ≡ c.entries = subst (Removed name c.entries) e r in
          rw (remove_entry, e) (i, sym kept)
      | inr ((f, fs), e) ↦
          let (kept, sum) = subst (Removed name c.entries) e r in
          rw (remove_entry, e)
            (
              record {
                total = omega (arith, i.total, sum);
                distinct = subst Distinct (sym kept) distinct;
              },
              kept,
            )
    ]

over_limit-IsWithin : (c : SegmentCache) → IsCache c → over_limit c ≡ false → IsWithin c c.entries
unfolding over_limit
over_limit-IsWithin c i h = (λ k. ground (arith, i.total), λ k. ground (arith, i.total))

-- Nothing is dropped without need: an entry more would be beyond a limit.
abbrev pub Needed : SegmentCache → List CacheEntry → List CacheEntry → Type 0
Needed c dropped rest =
    (front : List CacheEntry) (f : CacheEntry)
    → dropped ≡ front ++ (f ∷ [])
    → ¬ IsWithin c (f ∷ rest)

-- The entries that are left when the loop ends: the newest, from the first that is kept.
pub record Evicted (c : SegmentCache) (r : SegmentCache × Option CacheError) : Type 0 where
  pub kept : IsCache r.0
  pub dropped : List CacheEntry
  pub suffix : dropped ++ r.0.entries ≡ c.entries
  pub within : r.1 ≡ none → IsWithin c r.0.entries
  pub needed : Needed c dropped r.0.entries

over_limit-not_IsWithin :
    (c : SegmentCache) → IsCache c → over_limit c ≡ true → ¬ IsWithin c c.entries
unfolding over_limit
over_limit-not_IsWithin c i h w = ground (arith, i.total)

Needed-nil : (c : SegmentCache) (rest : List CacheEntry) → Needed c [] rest
Needed-nil c rest front f q = absurd (omega (arith, ap length q, length-append front (f ∷ [])))

Needed-cons :
    (c : SegmentCache) (e : CacheEntry) (dropped rest : List CacheEntry)
    → ¬ IsWithin c (e ∷ (dropped ++ rest))
    → Needed c dropped rest
    → Needed c (e ∷ dropped) rest
Needed-cons c e dropped rest over more [] f q w =
    let same : e ≡ f = cc in
    let none_else : dropped ≡ [] = cc in
    let whole : e ∷ (dropped ++ rest) ≡ f ∷ rest = rw (none_else, same) refl in
    over (subst (IsWithin c) (sym whole) w)
Needed-cons c e dropped rest over more (g ∷ front) f q w =
    let tail : dropped ≡ front ++ (f ∷ []) = cc in more front f tail w

pub evict_loop-Evicted :
    (disk : Disk) (c : SegmentCache) (es : List CacheEntry)
    → c.entries ≡ es
    → IsCache c
    → Evicted c (evict_loop disk c es)
unfolding evict_loop
evict_loop-Evicted disk c [] h i = record {
  kept = i;
  dropped = [];
  suffix = refl;
  within = λ k. (λ a. omega (arith, ap length h), λ a. omega (arith, ap sizes h));
  needed = Needed-nil c c.entries;
}
evict_loop-Evicted disk c (e ∷ es) h i =
    let c' : SegmentCache = record c { entries = es; total_bytes = c.total_bytes - e.size } in
    let i' : IsCache c' = record {
      total = omega (arith, i.total, ap sizes h);
      distinct = (subst Distinct h i.distinct).1;
    } in
    elim (Bool-cases (over_limit c)) [
      | inr inside ↦ rw inside (record {
        kept = i;
        dropped = [];
        suffix = refl;
        within = λ k. over_limit-IsWithin c i inside;
        needed = Needed-nil c c.entries;
      })
      | inl over ↦
          let beyond : ¬ IsWithin c (e ∷ es) =
            subst (λ l. ¬ IsWithin c l) h (over_limit-not_IsWithin c i over) in
          elim (Bool-cases (disk.removes e.name)) [
            | inl removed ↦
                let r = evict_loop-Evicted disk c' es refl i' in
                rw (over, removed)
                  (record {
                    kept = r.kept;
                    dropped = e ∷ r.dropped;
                    suffix = ap (λ l. e ∷ l) r.suffix ∙ sym h;
                    within = r.within;
                    needed =
                        Needed-cons c e r.dropped (evict_loop disk c' es).0.entries
                          (subst (λ l. ¬ IsWithin c (e ∷ l)) (sym r.suffix) beyond) r.needed;
                  })
            | inr refused ↦
                rw (over, refused)
                  (record {
                    kept = i';
                    dropped = e ∷ [];
                    suffix = sym h;
                    within = λ k. absurd cc;
                    needed = Needed-cons c e [] es beyond (Needed-nil c es);
                  })
          ]
    ]
