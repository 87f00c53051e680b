-- ===== src/GSoap/Memory.antt =====
-- Strings in memory, as strcpy and strcat of <string.h> treat them. A block is the list of its bytes;
-- a write behind its end, or a search for a terminator that it lacks, is undefined behaviour.
use mathlib.Core.Option
pub use aws.Base.{codes}
use aws.Base.{
  ℕ, suc, ◌+◌, Option, none, some, List, [], ◌∷◌, ◌++◌, length, drop, take, leb, ◌==◌,
  if◌then◌else◌, ◌>>=◌,
}

abbrev pub Bytes : Type 0
Bytes = List ℕ

-- The number of bytes before the terminator.
unfoldable pub strlen : Bytes → Option ℕ
strlen [] = none
strlen (b ∷ bs) = if b == 0 then some 0 else Option.map suc (strlen bs)

-- A string of these bytes, written with its terminator at an offset.
unfoldable pub write_string : Bytes → ℕ → Bytes → Option Bytes
write_string dst at src =
    if leb (at + length src + 1) (length dst)
    then some (take at dst ++ (src ++ (0 ∷ drop (at + length src + 1) dst)))
    else none

unfoldable pub strcpy : Bytes → Bytes → Option Bytes
unfolding write_string
strcpy dst src = write_string dst 0 src

unfoldable pub strcat : Bytes → Bytes → Option Bytes
unfolding write_string strlen
strcat dst src = do at ← strlen dst; write_string dst at src

-- The string that a block holds, up to its terminator.
unfoldable pub c_string : Bytes → Option Bytes
c_string [] = none
c_string (b ∷ bs) = if b == 0 then some [] else Option.map (◌∷◌ b) (c_string bs)
