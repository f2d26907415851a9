-- ===== src/EventLog/Recent.antt =====
-- internal/eventlog/log.go: the snapshot of a log against the list of the events appended.
use mi_ster_groovy_relay.Prelude.{
  ℕ, zero, suc, ◌+◌, ◌-◌, ◌≤◌, ◌<◌, ◌≡◌, refl, sym, ap, ap₂, ◌∙◌, inl, inr, true, false, List, [],
  ◌∷◌, ◌++◌, append_assoc, append-nil, arith, dec_lt, ==_iff, Bool-cases, length, set,
  length-append, length-set, take, drop, length-take, length-drop, length-replicate, take_all,
  drop_add, take-set_end, drop-get_or,
}
use mi_ster_groovy_relay.EventLog.{Log, new, append, snapshot, append_all}

module _ {A : Type 0} where
  drop_id : (xs ys : List A) (n : ℕ) → n ≡ 0 → drop n xs ++ ys ≡ xs ++ ys
  drop_id xs ys zero h = refl
  drop_id xs ys (suc n) h = absurd (omega arith)

  drop-set : (xs : List A) (n : ℕ) (v : A) → drop (n + 1) (set xs n v) ≡ drop (n + 1) xs
  drop-set [] n v = refl
  drop-set (x ∷ xs) zero v = refl
  drop-set (x ∷ xs) (suc n) v =
      let e : suc n + 1 ≡ suc (n + 1) = omega arith in rw e (drop-set xs n v)

  drop_beyond : (n : ℕ) (xs : List A) → length xs ≤ n → drop n xs ≡ []
  drop_beyond zero [] h = refl
  drop_beyond zero (x ∷ xs) h = absurd (omega arith)
  drop_beyond (suc n) [] h = refl
  drop_beyond (suc n) (x ∷ xs) h = drop_beyond n xs (omega arith)

  drop-append_below : (n : ℕ) (xs ys : List A) → n ≤ length xs → drop n (xs ++ ys) ≡ drop n xs ++ ys
  drop-append_below zero xs ys h = refl
  drop-append_below (suc n) [] ys h = absurd (omega arith)
  drop-append_below (suc n) (x ∷ xs) ys h = drop-append_below n xs ys (omega arith)

  pub record IsValid (l : Log A) : Type 0 where
    pub inside : l.next < length l.buf

  -- The last `capacity` entries of a list.
  abbrev pub keep : ℕ → List A → List A
  keep capacity xs = drop (length xs - capacity) xs

  -- The entries from the oldest on, where the one before `n` is the newest and all are used.
  abbrev rotated : List A → ℕ → List A
  rotated buf n = drop n buf ++ take n buf

  module _ (l : Log A) (e : A) (v : IsValid l) where
    wraps :
        l.next + 1 ≡ length l.buf
        → append l e ≡ record { buf = set l.buf l.next e; next = 0; full = true }
    unfolding append
    wraps h = rw ((==_iff _ _).1 (h ∙ sym (length-set l.buf l.next e))) refl

    goes_on :
        l.next + 1 < length l.buf
        → append l e ≡ record l { buf = set l.buf l.next e; next = l.next + 1 }
    unfolding append
    goes_on h = ground (arith, length-set l.buf l.next e)

    pub append-IsValid : IsValid (append l e)
    append-IsValid = elim (dec_lt (l.next + 1) (length l.buf)) [
      | yes more ↦ rw (goes_on more) (record { inside = omega (arith, length-set l.buf l.next e) })
      | no end ↦
          rw (wraps (omega (arith, v.inside)))
            (record { inside = omega (arith, length-set l.buf l.next e, v.inside) })
    ]

    pub length-append_event : length (append l e).buf ≡ length l.buf
    length-append_event = elim (dec_lt (l.next + 1) (length l.buf)) [
      | yes more ↦ rw (goes_on more) (length-set l.buf l.next e)
      | no end ↦ rw (wraps (omega (arith, v.inside))) (length-set l.buf l.next e)
    ]

    snapshot_wrapped :
        l.next + 1 ≡ length l.buf → snapshot (append l e) ≡ take l.next l.buf ++ (e ∷ [])
    unfolding snapshot
    snapshot_wrapped h = rw (wraps h) (
        append-nil (set l.buf l.next e)
        ∙ sym
            (take_all (l.next + 1) (set l.buf l.next e) (omega (arith, length-set l.buf l.next e)))
        ∙ take-set_end l.buf l.next e v.inside)

  keep_exactly : (k : ℕ) (xs : List A) → length xs ≡ k + 1 → keep k xs ≡ drop 1 xs
  keep_exactly k xs h = let f : length xs - k ≡ 1 = omega (arith, h) in ap (λ n. drop n xs) f

  keep_within : (k : ℕ) (xs : List A) → length xs ≤ k → keep k xs ≡ xs
  keep_within k xs h = let f : length xs - k ≡ 0 = omega (arith, h) in ap (λ n. drop n xs) f

  module _ (l : Log A) (e : A) (v : IsValid l) where
    size : length (rotated l.buf l.next ++ (e ∷ [])) ≡ length l.buf + 1
    size = omega (
      arith,
      v.inside,
      length-append (rotated l.buf l.next) (e ∷ []),
      length-append (drop l.next l.buf) (take l.next l.buf),
      length-drop l.next l.buf,
      length-take l.next l.buf,
    )

    -- What a full log keeps: all but the oldest.
    kept_full :
        keep (length l.buf) (rotated l.buf l.next ++ (e ∷ []))
        ≡ drop (l.next + 1) l.buf ++ (take l.next l.buf ++ (e ∷ []))
    kept_full =
        keep_exactly (length l.buf) (rotated l.buf l.next ++ (e ∷ [])) size
        ∙ ap (λ t. drop 1 ((t ++ take l.next l.buf) ++ (e ∷ [])))
            (drop-get_or l.buf l.next e v.inside)
        ∙ append_assoc (drop (l.next + 1) l.buf) (take l.next l.buf) (e ∷ [])

    kept_growing :
        keep (length l.buf) (take l.next l.buf ++ (e ∷ [])) ≡ take l.next l.buf ++ (e ∷ [])
    kept_growing = keep_within (length l.buf) (take l.next l.buf ++ (e ∷ [])) (
        omega
          (arith, v.inside, length-append (take l.next l.buf) (e ∷ []), length-take l.next l.buf))

    snapshot_full :
        l.full ≡ true
        → snapshot (append l e) ≡ keep (length l.buf) (rotated l.buf l.next ++ (e ∷ []))
    snapshot_full full = elim (dec_lt (l.next + 1) (length l.buf)) [
      | yes more ↦
          unfold snapshot in
          rw (goes_on l e v more, full, drop-set l.buf l.next e)
            (ap (λ t. drop (l.next + 1) l.buf ++ t) (take-set_end l.buf l.next e v.inside)
              ∙ sym kept_full)
      | no end ↦
          snapshot_wrapped l e v (omega (arith, v.inside))
          ∙ ap (λ t. t ++ (take l.next l.buf ++ (e ∷ [])))
              (sym (drop_beyond (l.next + 1) l.buf (omega arith)))
          ∙ sym kept_full
    ]

    snapshot_growing :
        l.full ≡ false → snapshot (append l e) ≡ keep (length l.buf) (take l.next l.buf ++ (e ∷ []))
    snapshot_growing growing = elim (dec_lt (l.next + 1) (length l.buf)) [
      | yes more ↦
          unfold snapshot in
          rw (goes_on l e v more, growing) (take-set_end l.buf l.next e v.inside ∙ sym kept_growing)
      | no end ↦ snapshot_wrapped l e v (omega (arith, v.inside)) ∙ sym kept_growing
    ]

  -- A log that is valid takes an event at the end of its snapshot, of which it keeps as many of the
  -- last entries as its capacity is.
  pub snapshot-append :
      (l : Log A) (e : A)
      → IsValid l
      → snapshot (append l e) ≡ keep (length l.buf) (snapshot l ++ (e ∷ []))
  snapshot-append l e v = elim (Bool-cases l.full) [
    | inl full ↦
        snapshot_full l e v full
        ∙ ap (λ t. keep (length l.buf) (t ++ (e ∷ []))) (sym (unfold snapshot in rw full refl))
    | inr growing ↦
        snapshot_growing l e v growing
        ∙ ap (λ t. keep (length l.buf) (t ++ (e ∷ []))) (sym (unfold snapshot in rw growing refl))
  ]

  -- Keeping twice: what was lost before is lost anyway.
  keep-keep : (k : ℕ) (xs ys : List A) → keep k (keep k xs ++ ys) ≡ keep k (xs ++ ys)
  keep-keep k xs ys =
      let a = length xs - k in
      let e : a + (length (drop a xs ++ ys) - k) ≡ length (xs ++ ys) - k =
        omega (arith, length-append (drop a xs) ys, length-append xs ys, length-drop a xs) in
      ap (λ t. drop (length (drop a xs ++ ys) - k) t)
        (sym (drop-append_below a xs ys (omega arith)))
      ∙ drop_add (length (drop a xs ++ ys) - k) a (xs ++ ys)
      ∙ ap (λ n. drop n (xs ++ ys)) e

  length-snapshot : (l : Log A) → IsValid l → length (snapshot l) ≤ length l.buf
  unfolding snapshot
  length-snapshot l v = elim (Bool-cases l.full) [
    | inl full ↦ rw full (
        omega (
          arith,
          v.inside,
          length-append (drop l.next l.buf) (take l.next l.buf),
          length-drop l.next l.buf,
          length-take l.next l.buf,
        ))
    | inr growing ↦ rw growing (omega (arith, v.inside, length-take l.next l.buf))
  ]

  snapshot-append_all_from :
      (l : Log A) (es : List A)
      → IsValid l
      → snapshot (append_all l es) ≡ keep (length l.buf) (snapshot l ++ es)
  unfolding append_all
  snapshot-append_all_from l [] v = sym (
      ap (keep (length l.buf)) (append-nil (snapshot l))
      ∙ keep_within (length l.buf) (snapshot l) (length-snapshot l v))
  snapshot-append_all_from l (e ∷ es) v =
      snapshot-append_all_from (append l e) es (append-IsValid l e v)
      ∙ ap₂ (λ k t. keep k (t ++ es)) (length-append_event l e v) (snapshot-append l e v)
      ∙ keep-keep (length l.buf) (snapshot l ++ (e ∷ [])) es
      ∙ ap (keep (length l.buf)) (append_assoc (snapshot l) (e ∷ []) es)

  -- The snapshot of a log of a positive capacity is the sequence of the last events appended, as
  -- many as the capacity is, oldest first.
  pub snapshot-append_all :
      (blank : A) (capacity : ℕ) (es : List A)
      → 0 < capacity
      → snapshot (append_all (new blank capacity) es) ≡ keep capacity es
  snapshot-append_all blank capacity es h =
      let size : length (new blank capacity).buf ≡ capacity =
        (unfold new in length-replicate capacity blank) in
      let empty : snapshot (new blank capacity) ≡ [] = (unfold snapshot new in refl) in
      let v : IsValid (new blank capacity) =
        (unfold new in record { inside = omega (arith, h, length-replicate capacity blank) }) in
      snapshot-append_all_from (new blank capacity) es v ∙ ap₂ (λ k t. keep k (t ++ es)) size empty
