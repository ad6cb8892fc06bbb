-- ===== src/Crc32/Table.antt =====
-- The table of src/arch/arm_cortexm/rp2040/boot2/compCrc32.c against the polynomial.
use open_gpos.Base.{
  ℕ, zero, suc, ◌+◌, ◌^◌, ◌<◌, ◌≡◌, refl, List, [], ◌∷◌, bit_xor, u32, ◌<<<◌, get_or, leb,
  if◌then◌else◌, arith, ap, ◌∙◌,
}
use open_gpos.Crc32.{crc32_table}

-- `CRC32_POLYNOMIAL`
abbrev pub crc32_polynomial : ℕ
crc32_polynomial = 0x04c1_1db7

-- `n` shifts of the register: a bit that falls out subtracts the polynomial
abbrev pub divided : ℕ → ℕ → ℕ
divided zero crc = crc
divided (suc n) crc =
    divided n
      (if leb (2 ^ 31) crc then bit_xor (u32 (crc <<< 1)) crc32_polynomial else u32 (crc <<< 1))

abbrev entries : ℕ → ℕ → List ℕ
entries zero k = []
entries (suc n) k = divided 8 (k <<< 24) ∷ entries n (k + 1)

entries-lookup : (n k i : ℕ) → i < n → get_or (entries n k) i 0 ≡ divided 8 ((k + i) <<< 24)
entries-lookup zero k i h = absurd (omega arith)
entries-lookup (suc n) k zero h = let e : k + 0 ≡ k = omega arith in rw e refl
entries-lookup (suc n) k (suc i) h =
    let e : k + suc i ≡ k + 1 + i = omega arith in rw e (entries-lookup n (k + 1) i (omega arith))

table_entries : crc32_table ≡ entries 256 0
table_entries = refl

-- Entry `i` of the table is the remainder of the byte `i` by the CRC-32 polynomial.
pub crc32_table-divided : (i : ℕ) → i < 256 → get_or crc32_table i 0 ≡ divided 8 (i <<< 24)
crc32_table-divided i h =
    let e : 0 + i ≡ i = omega arith in
    ap (λ (t : List ℕ). get_or t i 0) table_entries ∙ rw e at (entries-lookup 256 0 i h)
