-- ===== src/Str.antt =====
-- libc/src/string: `strlen` and `strcmp`, on a memory of unsigned bytes. The fuel bounds the
-- characters that a loop visits; it runs out on a string without an end.
pub mod Memory
pub mod Copy
pub mod Append
pub mod Split
pub mod Laws
mod Tests
use open_gpos.Base.{
  ℕ, zero, suc, ◌+◌, ◌-◌, ◌^◌, Bool, ◌&&◌, Option, none, some, u32, ◌==◌, ◌!=◌, if◌then◌else◌,
}

-- the loop of `strlen`
unfoldable pub strlen_loop : ℕ → (ℕ → ℕ) → ℕ → ℕ → Option ℕ
strlen_loop zero mem str i = none
strlen_loop (suc fuel) mem str i =
    let rest = strlen_loop fuel mem str (i + 1) in if mem (str + i) == 0 then some i else rest

-- `strlen`
unfoldable pub strlen : ℕ → (ℕ → ℕ) → ℕ → Option ℕ
strlen fuel mem str = strlen_loop fuel mem str 0

-- `strcmp`: the difference of the characters where the loop ends, an `int` of 32 bits
unfoldable pub strcmp : ℕ → (ℕ → ℕ) → ℕ → ℕ → Option ℕ
strcmp zero mem str1 str2 = none
strcmp (suc fuel) mem str1 str2 =
    let rest = strcmp fuel mem (str1 + 1) (str2 + 1) in
    if (mem str1 != 0) && ((mem str2 != 0) && (mem str1 == mem str2))
    then rest
    else some (u32 (mem str1 + 2 ^ 32 - mem str2))
