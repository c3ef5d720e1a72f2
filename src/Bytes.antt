-- ===== src/Bytes.antt =====
-- The `mem*` functions of libs/string.c, over a flat memory of bytes. An address is a number, null
-- is 0, and no address wraps or faults. A `while (count--)` loop recurs on `count`.
pub mod Move
pub mod Compare
mod Tests
use hlos.Base.{ℕ, zero, suc, ◌+◌, ◌%◌, ◌==◌, leb, if◌then◌else◌}
use hlos.Base.Int.{ℤ, pos, sub_ℕ}

abbrev pub Mem : Type 0
Mem = ℕ → ℕ

abbrev pub null : ℕ
null = 0

-- `*p = v`
abbrev pub poke : Mem → ℕ → ℕ → Mem
poke m p v a = if a == p then v else m a

unfoldable pub memset : Mem → (s c count : ℕ) → Mem
memset m s c zero = m
memset m s c (suc count) = memset (poke m s (c % 256)) (s + 1) c count

unfoldable pub memcpy : Mem → (dest src count : ℕ) → Mem
memcpy m dest src zero = m
memcpy m dest src (suc count) = memcpy (poke m dest (m src)) (dest + 1) (src + 1) count

-- The second loop of `memmove`: the pointers come down from `dest + count` and `src + count`.
unfoldable pub move_down : Mem → (dest src count : ℕ) → Mem
move_down m dest src zero = m
move_down m dest src (suc count) =
    move_down (poke m (dest + count) (m (src + count))) dest src count

-- The first loop of `memmove` is that of `memcpy`.
unfoldable pub memmove : Mem → (dest src count : ℕ) → Mem
unfolding memcpy move_down
memmove m dest src count =
    if leb dest src then memcpy m dest src count else move_down m dest src count

unfoldable pub memcmp : Mem → (cs ct count : ℕ) → ℤ
memcmp m cs ct zero = pos 0
memcmp m cs ct (suc count) =
    if m cs == m ct then memcmp m (cs + 1) (ct + 1) count else sub_ℕ (m cs) (m ct)

-- `c` is the bit pattern of an `int`; it is compared whole.
unfoldable pub memscan : Mem → (addr c size : ℕ) → ℕ
memscan m p c zero = p
memscan m p c (suc size) = if m p == c then p else memscan m (p + 1) c size

-- Here `c` is cut to an unsigned char.
unfoldable pub memchr : Mem → (s c n : ℕ) → ℕ
memchr m s c zero = null
memchr m s c (suc n) = if c % 256 == m s then s else memchr m (s + 1) c n
