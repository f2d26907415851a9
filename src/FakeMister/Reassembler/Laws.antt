-- ===== src/FakeMister/Reassembler/Laws.antt =====
-- internal/fakemister/reassembler.go: what Write collects.
use mi_ster_groovy_relay.Prelude.{
  ℕ, ◌+◌, ◌-◌, ◌%◌, ◌^◌, ◌≤◌, ◌<◌, ◌≡◌, refl, inl, inr, List, ◌++◌, arith, ltb, leb, if◌then◌else◌,
  Bool-cases, length, length-append, take, length-take, ltb-false→le, take_all,
}
use mi_ster_groovy_relay.FakeMister.Reassembler.{Reassembler, new_reassembler, write}

-- `got` counts the collected bytes, and there are never more than expected.
pub record IsValid (r : Reassembler) : Type 0 where
  pub fits : r.expected < 2 ^ 32
  pub bounded : r.got ≤ r.expected
  pub counted : r.got ≡ length r.buf

pub new_reassembler-IsValid : (n : ℕ) → n < 2 ^ 32 → IsValid (new_reassembler n)
unfolding new_reassembler
new_reassembler-IsValid n h = omega arith

-- A datagram is far shorter than 2 ^ 32 bytes.
module _ (r : Reassembler) (chunk : List ℕ) (v : IsValid r) (short : length chunk < 2 ^ 32) where
  abbrev missing : ℕ
  missing = r.expected - r.got

  abbrev room : ℕ
  room = (r.expected + 2 ^ 32 - r.got) % 2 ^ 32

  trimmed :
      (if ltb room (length chunk % 2 ^ 32) then take room chunk else chunk) ≡ take missing chunk
  trimmed =
      let e : room ≡ missing = omega arith in
      let f : length chunk % 2 ^ 32 ≡ length chunk = omega arith in
      rw (e, f)
        (elim (Bool-cases (ltb missing (length chunk))) [
          | inl more ↦ rw more
          | inr all ↦ rw (all, take_all missing chunk (ltb-false→le missing (length chunk) all))
        ])

  -- One chunk, shorter than 2 ^ 32 bytes, for a valid reassembler: as much of it as is still
  -- missing is appended, no more is ever held than was asked for, and `done` is reported exactly
  -- when nothing is missing.
  pub write_lem :
      IsValid (write r chunk).0
      × ((write r chunk).0.expected ≡ r.expected)
      × ((write r chunk).0.buf ≡ r.buf ++ take (r.expected - r.got) chunk)
      × ((write r chunk).1 ≡ leb (r.expected - r.got) (length chunk))
  unfolding write
  write_lem = rw trimmed (
    record {
      fits = v.fits;
      bounded = omega (arith, length-take missing chunk);
      counted = omega (arith, length-take missing chunk, length-append r.buf (take missing chunk));
    },
    refl,
    refl,
    ground (arith, length-take missing chunk),
  )
