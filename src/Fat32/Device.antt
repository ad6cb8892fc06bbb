-- ===== src/Fat32/Device.antt =====
-- The interface between the file system and the SD card driver: the calls that
-- src/driver/fs/FAT32.c makes, on a state of the card that only the driver knows.
use open_gpos.Base.{ℕ, zero, suc, ◌+◌, ◌≤◌, Bool, Option, some, List, [], ◌∷◌, ◌≡◌}

-- a read gives the bytes of the buffer, or nothing where the driver returns `false`
pub record Device (S : Type 0) : Type 0 where
  pub read_block : ℕ → S → Option (List ℕ) × S
  pub read_partial : ℕ → ℕ → ℕ → S → Option (List ℕ) × S
  pub write_block : ℕ → List ℕ → S → Bool × S

abbrev pub Step : Type 0 → Type 0 → Type 0
Step S A = S → A × S

module _ {S : Type 0} where
  abbrev pub pure : {A : Type 0} → A → Step S A
  pure a s = (a, s)

  infixl 5 ◌>>=◌
  abbrev pub ◌>>=◌ : {A B : Type 0} → Step S A → (A → Step S B) → Step S B
  ◌>>=◌ m f s = f (m s).0 (m s).1

-- the `n` bytes of a block from `i` on
abbrev pub span : (ℕ → ℕ) → ℕ → ℕ → List ℕ
span block i zero = []
span block i (suc n) = block i ∷ span block (i + 1) n

-- In a state of `Live`, reads succeed and give the bytes of `disk`, by block and by position.
pub record Serves {S : Type 0} (dev : Device S) (disk : ℕ → ℕ → ℕ) (Live : S → Type 0)
    : Type 0 where
  pub partly :
      (s : S) (block offset count : ℕ)
      → Live s
      → offset + count ≤ 512
      → ((dev.read_partial block offset count s).0 ≡ some (span (disk block) offset count))
        × Live (dev.read_partial block offset count s).1
  pub wholly :
      (s : S) (block : ℕ)
      → Live s
      → ((dev.read_block block s).0 ≡ some (span (disk block) 0 512))
        × Live (dev.read_block block s).1
