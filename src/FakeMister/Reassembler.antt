-- ===== src/FakeMister/Reassembler.antt =====
-- internal/fakemister/reassembler.go: a payload of known size out of datagrams.
-- `expected` and `got` are uint32.
pub mod Laws
use mi_ster_groovy_relay.Prelude.{
  ℕ, ◌+◌, ◌-◌, ◌%◌, ◌^◌, Bool, List, [], ◌++◌, ltb, leb, if◌then◌else◌, length, take,
}

pub record Reassembler : Type 0 where
  pub expected : ℕ
  pub got : ℕ
  pub buf : List ℕ

unfoldable pub new_reassembler : ℕ → Reassembler
new_reassembler expected_size = record { expected = expected_size; got = 0; buf = [] }

unfoldable pub write : Reassembler → List ℕ → Reassembler × Bool
write r chunk =
    let remaining = (r.expected + 2 ^ 32 - r.got) % 2 ^ 32 in
    let chunk = if ltb remaining (length chunk % 2 ^ 32) then take remaining chunk else chunk in
    let got = (r.got + length chunk % 2 ^ 32) % 2 ^ 32 in
    (record r { buf = r.buf ++ chunk; got = got }, leb r.expected got)
