-- ===== src/HexUtils/Tests.antt =====
-- Runs of the readers and the printers.
use open_gpos.Base.{ℕ, ◌≡◌, refl, List, [], ◌∷◌, ◌++◌, length, arith}
use open_gpos.HexUtils.{hex_digit, byte_to_str, byte_to_dec, dec_loop, copy_back, int_to_dec}
use open_gpos.HexUtils.Laws.{shown, IsDecimal, IsCanonical, printers-value}

printed : (int_to_dec 1024 ≡ 49 ∷ 48 ∷ 50 ∷ 52 ∷ 0 ∷ []) × (byte_to_str 0x1f ≡ 49 ∷ 70 ∷ 0 ∷ [])
unfolding int_to_dec dec_loop copy_back byte_to_str hex_digit
printed = (refl, refl)

abbrev signature : List ℕ
signature = 0x00 ∷ 0x55 ∷ 0xaa ∷ 0x01 ∷ 0x02 ∷ []

printers-value_example :
    ((ds : List ℕ) × (int_to_dec 4096 ≡ shown ds ++ (0 ∷ [])) × IsDecimal 4096 ds × IsCanonical ds)
    × ((ds : List ℕ) × (byte_to_dec 203 ≡ shown ds ++ (0 ∷ []))
        × IsDecimal 203 ds
        × (length ds ≡ 3))
printers-value_example = printers-value 4096 203 (omega arith) (omega arith)
