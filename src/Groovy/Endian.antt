-- ===== src/Groovy/Endian.antt =====
-- The little-endian reads and writes of encoding/binary, on lists of bytes.
use mi_ster_groovy_relay.Prelude.{
  ℕ, suc, ◌+◌, ◌*◌, ◌/◌, ◌%◌, ◌^◌, ◌<◌, ◌≡◌, refl, ap, ◌∙◌, List, [], ◌∷◌, ◌++◌, arith, length, set,
  get_or,
}

abbrev pub u16_bytes : ℕ → List ℕ
u16_bytes v = v % 256 ∷ (v / 256 % 256) ∷ []

abbrev pub u32_bytes : ℕ → List ℕ
u32_bytes v = v % 256 ∷ (v / 256 % 256) ∷ (v / 2 ^ 16 % 256) ∷ (v / 2 ^ 24 % 256) ∷ []

abbrev pub u64_bytes : ℕ → List ℕ
u64_bytes v = u32_bytes v ++ u32_bytes (v / 2 ^ 32)

-- The slices that are read are in range wherever the program reads them.
abbrev pub u16_at : List ℕ → ℕ → ℕ
u16_at pkt i = get_or pkt i 0 + 256 * get_or pkt (i + 1) 0

abbrev pub u32_at : List ℕ → ℕ → ℕ
u32_at pkt i = u16_at pkt i + 2 ^ 16 * u16_at pkt (i + 2)

abbrev pub u64_at : List ℕ → ℕ → ℕ
u64_at pkt i = u32_at pkt i + 2 ^ 32 * u32_at pkt (i + 4)

-- Stores the bytes `bs` in `h` from index `i` on.
abbrev pub write_at : List ℕ → ℕ → List ℕ → List ℕ
write_at h i [] = h
write_at h i (b ∷ bs) = write_at (set h i b) (suc i) bs

write_at-cons :
    (x : ℕ) (h : List ℕ) (i : ℕ) (bs : List ℕ) → write_at (x ∷ h) (suc i) bs ≡ x ∷ write_at h i bs
write_at-cons x h i [] = refl
write_at-cons x h i (b ∷ bs) = write_at-cons x (set h i b) (suc i) bs

-- Writing every byte leaves nothing of what was there.
pub write_at_cover : (h bs : List ℕ) → length h ≡ length bs → write_at h 0 bs ≡ bs
write_at_cover [] [] e = refl
write_at_cover [] (b ∷ bs) e = absurd (omega arith)
write_at_cover (x ∷ h) [] e = absurd (omega arith)
write_at_cover (x ∷ h) (b ∷ bs) e =
    write_at-cons b h 0 bs ∙ ap (λ r. b ∷ r) (write_at_cover h bs (omega arith))

pub u64_lem : (v : ℕ) → v < 2 ^ 64 → u64_at (u64_bytes v) 0 ≡ v
u64_lem v h = omega arith
