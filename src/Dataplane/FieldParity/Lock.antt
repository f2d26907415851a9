-- ===== src/Dataplane/FieldParity/Lock.antt =====
-- internal/dataplane/fieldparity.go: how many agreeing samples change the locked relation.
use mi_ster_groovy_relay.Prelude.{
  ℕ, zero, suc, ◌+◌, ◌<◌, ◌≡◌, refl, ◌≢◌, true, false, none, some, arith, ◌==◌, lt→ltb, ==_iff,
}
use mi_ster_groovy_relay.Dataplane.FieldParity.{
  Tracker, field_parity_lock_samples, count_sample, count_flutter, settle, observe_relation,
}

-- `k` samples of one relation.
abbrev pub samples : Tracker → ℕ → ℕ → Tracker
samples t rel zero = t
samples t rel (suc k) = samples (observe_relation t rel).0 rel k

-- The tracker is locked to `s`, and has counted `run` samples of another relation.
pub record Counts (s rel run : ℕ) (t : Tracker) : Type 0 where
  pub locked : t.stable ≡ some s
  pub counting : t.candidate ≡ some rel
  pub counted : t.candidate_run ≡ run

module _ (s rel : ℕ) (other : s ≢ rel) where
  differs : (s == rel) ≡ false
  differs = ground arith

  same : (rel == rel) ≡ true
  same = (==_iff rel rel).1 refl

  observe_first :
      (t : Tracker)
      → t.stable ≡ some s
      → t.candidate ≡ none
      → Counts s rel 1 (observe_relation t rel).0
  unfolding observe_relation count_sample count_flutter settle
  observe_first t l c =
      rw (l, differs, c) (record { locked = refl; counting = refl; counted = refl })

  observe_more :
      (t : Tracker) (run : ℕ)
      → Counts s rel run t
      → run + 1 < field_parity_lock_samples
      → Counts s rel (run + 1) (observe_relation t rel).0
  unfolding observe_relation count_sample count_flutter settle
  observe_more t run c h =
      rw (c.locked, differs, c.counting, same, c.counted, lt→ltb _ _ h)
        (record { locked = refl; counting = refl; counted = refl })

  observe_last :
      (t : Tracker)
      → Counts s rel 29 t
      → ((observe_relation t rel).0.stable ≡ some rel)
        × ((observe_relation t rel).1 ≡ false)
        × ((observe_relation t rel).2 ≡ true)
  unfolding observe_relation count_sample count_flutter settle
  observe_last t c = rw (c.locked, differs, c.counting, same, c.counted) (refl, refl, refl)

  samples-Counts :
      (k run : ℕ) (t : Tracker)
      → Counts s rel run t
      → run + k < field_parity_lock_samples
      → Counts s rel (run + k) (samples t rel k)
  samples-Counts zero run t c h = let e : run + 0 ≡ run = omega arith in rw e c
  samples-Counts (suc k) run t c h =
      let e : run + suc k ≡ run + 1 + k = omega arith in
      rw e (
        samples-Counts k (run + 1) (observe_relation t rel).0 (observe_more t run c (omega arith))
          (omega arith))

  -- A tracker that is locked to `s` and counts no candidate keeps its lock through up to 29
  -- consecutive samples of another relation; the 30th locks the other one and reports a slip.
  pub slips_after_thirty :
      (t : Tracker)
      → t.stable ≡ some s
      → t.candidate ≡ none
      → ((k : ℕ) → k < 30 → (samples t rel k).stable ≡ some s)
        × ((observe_relation (samples t rel 29) rel).0.stable ≡ some rel)
        × ((observe_relation (samples t rel 29) rel).2 ≡ true)
  slips_after_thirty t l c =
      let first = observe_first t l c in
      let last =
        observe_last (samples t rel 29)
          (samples-Counts 28 1 (observe_relation t rel).0 first (omega arith)) in
      (keeps, last.0, last.2)
    where
      keeps : (k : ℕ) → k < 30 → (samples t rel k).stable ≡ some s
      keeps zero h = l
      keeps (suc k) h =
          (samples-Counts k 1 (observe_relation t rel).0 (observe_first t l c) (omega arith)).locked

-- A sample that agrees with the lock forgets the candidate, and reports nothing.
agrees :
    (t : Tracker) (s : ℕ)
    → t.stable ≡ some s
    → ((observe_relation t s).0.candidate ≡ none) × ((observe_relation t s).2 ≡ false)
unfolding observe_relation
agrees t s l = let e : (s == s) ≡ true = (==_iff s s).1 refl in rw (l, e) (refl, refl)
