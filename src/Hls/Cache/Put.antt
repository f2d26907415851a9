-- ===== src/Hls/Cache/Put.antt =====
-- internal/hlsbuffer/cache.go: what a call of Put does to a cache.
use mi_ster_groovy_relay.Prelude.{
  ℕ, ◌+◌, ◌<◌, ◌≡◌, refl, sym, ap, ◌∙◌, ◌⊎◌, inl, inr, Bool, false, ◌&&◌, none, some, List, [], ◌∷◌,
  ◌++◌, append-nil, arith, ltb, Bool-cases, Option-cases, length,
}
use Prim.Native.String.{String}
use mi_ster_groovy_relay.Hls.Cache.{
  CacheEntry, SegmentCache, CacheError, too_large, create_root, write_segment, remove_named, Disk,
  Filepath, remove_entry, enforce_limits, put, safe_cache_path,
}
use mi_ster_groovy_relay.Hls.Cache.Limits.{
  IsCache, IsWithin, without, Needed, remove_entry-IsCache, sizes-append, Distinct-end,
  without-Absent, evict_loop-Evicted,
}

⊎-cases : {A B : Type 0} → (s : A ⊎ B) → ((a : A) × (s ≡ inl a)) ⊎ ((b : B) × (s ≡ inr b))
⊎-cases (inl a) = inl (a, refl)
⊎-cases (inr b) = inr (b, refl)

abbrev pub entry_of : String → List ℕ → CacheEntry
entry_of name body = record { name = name; size = length body }

module _ (files : Filepath) (disk : Disk) (c : SegmentCache) (name : String) (body : List ℕ) where
  -- The segment is larger than all of the cache may be.
  abbrev too_big : Bool
  too_big = ltb 0 c.max_bytes && ltb c.max_bytes (length body)

  -- The cache with the segment, before any is evicted.
  abbrev added : SegmentCache
  added =
      let c₁ = remove_entry c name in
      record c₁ {
        entries = c₁.entries ++ (entry_of name body ∷ []);
        total_bytes = c₁.total_bytes + length body;
      }

  put_cases :
      ((e : CacheError) × (put files disk c name body ≡ (c, some e)))
      ⊎ ((put files disk c name body ≡ (remove_entry c name, some write_segment))
          ⊎ ((too_big ≡ false) × (put files disk c name body ≡ enforce_limits disk added)))
  unfolding put
  put_cases = elim (Bool-cases too_big) [
    | inl big ↦ inl (too_large, rw big refl)
    | inr small ↦ elim (⊎-cases (safe_cache_path files c.root name)) [
      | inr (e, q) ↦ inl (e, rw (put, small, q) refl)
      | inl (path, q) ↦ elim (Bool-cases disk.makes_root) [
        | inr failed ↦ inl (create_root, rw (put, small, q, failed) refl)
        | inl made ↦ elim (Bool-cases disk.writes) [
          | inr failed ↦ inr (inl (rw (put, small, q, made, failed) refl))
          | inl written ↦ inr (inr (small, rw (put, small, q, made, written) refl))
        ]
      ]
    ]
  ]

  added-IsCache : IsCache c → IsCache added
  added-IsCache i =
      let (j, kept) = remove_entry-IsCache c name i in
      record {
        total =
            omega (
              arith,
              j.total,
              sizes-append (remove_entry c name).entries (entry_of name body ∷ []),
            );
        distinct =
            Distinct-end (remove_entry c name).entries (entry_of name body) j.distinct
              (rw kept (without-Absent name c.entries i.distinct));
      }

  -- Whatever the disk answers, after a Put the total is still the sum of the sizes and the names
  -- are distinct, where they were before.
  pub put-IsCache : IsCache c → IsCache (put files disk c name body).0
  unfolding enforce_limits
  put-IsCache i = elim put_cases [
    | inl (e, q) ↦ rw q i
    | inr (inl q) ↦ rw q (remove_entry-IsCache c name i).0
    | inr (inr (small, q)) ↦
        rw q (evict_loop-Evicted disk added added.entries refl (added-IsCache i)).kept
  ]

  -- The segment is the newest of the entries, of which as many of the oldest as needed are dropped
  -- to keep the limits.
  pub record Stored (c' : SegmentCache) : Type 0 where
    pub dropped : List CacheEntry
    pub suffix : dropped ++ c'.entries ≡ without name c.entries ++ (entry_of name body ∷ [])
    pub some_left : 0 < length c'.entries
    pub within : IsWithin c c'.entries
    pub needed : Needed c dropped c'.entries

  alone-IsWithin : too_big ≡ false → IsWithin c (entry_of name body ∷ [])
  alone-IsWithin h = (λ k. omega (arith, k), λ k. ground arith)

  limits : (added.max_segments ≡ c.max_segments) × (added.max_bytes ≡ c.max_bytes)
  unfolding remove_entry
  limits = elim (Option-cases (remove_named name c.entries)) [
    | inl e ↦ rw (remove_entry, e) (refl, refl)
    | inr (found, e) ↦ rw (remove_entry, e) (refl, refl)
  ]

  IsWithin-added : (es : List CacheEntry) → IsWithin c es → IsWithin added es
  IsWithin-added es (few, small) = (
    λ k. omega (arith, limits, few (omega (arith, limits, k))),
    λ k. omega (arith, limits, small (omega (arith, limits, k))),
  )

  IsWithin-before : (es : List CacheEntry) → IsWithin added es → IsWithin c es
  IsWithin-before es (few, small) = (
    λ k. omega (arith, limits, few (omega (arith, limits, k))),
    λ k. omega (arith, limits, small (omega (arith, limits, k))),
  )

  -- The new entry, which keeps the limits alone, is never dropped.
  some_left :
      (xs dropped es : List CacheEntry)
      → dropped ++ es ≡ xs ++ (entry_of name body ∷ [])
      → Needed added dropped es
      → IsWithin added (entry_of name body ∷ [])
      → 0 < length es
  some_left xs dropped [] s n w =
      absurd (n xs (entry_of name body) (sym (append-nil dropped) ∙ s) w)
  some_left xs dropped (e ∷ es) s n w = omega arith

  -- A Put that succeeds, for a cache whose total is right and whose names are distinct: the entries
  -- are the others in order and then the new one, of which the oldest are dropped; the limits hold,
  -- the new one is left, and nothing is dropped without need, since with one entry more a limit
  -- would not hold.
  pub put-Stored :
      IsCache c → (put files disk c name body).1 ≡ none → Stored (put files disk c name body).0
  unfolding enforce_limits
  put-Stored i done = elim put_cases [
    | inl (e, q) ↦ absurd (let u : some e ≡ none = rw q at done in cc)
    | inr (inl q) ↦ absurd (let u : some write_segment ≡ none = rw q at done in cc)
    | inr (inr (small, q)) ↦
        let r = evict_loop-Evicted disk added added.entries refl (added-IsCache i) in
        let left = (enforce_limits disk added).0.entries in
        let end : (enforce_limits disk added).1 ≡ none = rw q at done in
        let kept = (remove_entry-IsCache c name i).1 in
        let suffix : r.dropped ++ left ≡ without name c.entries ++ (entry_of name body ∷ []) =
          r.suffix ∙ ap (λ l. l ++ (entry_of name body ∷ [])) kept in
        rw q (record {
          dropped = r.dropped;
          suffix = suffix;
          some_left =
              some_left (without name c.entries) r.dropped left suffix r.needed
                (IsWithin-added (entry_of name body ∷ []) (alone-IsWithin small));
          within = IsWithin-before left (r.within end);
          needed = λ front f d w. r.needed front f d (IsWithin-added (f ∷ left) w);
        })
  ]
