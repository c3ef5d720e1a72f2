-- ===== src/StrEdit.antt =====
-- The functions of libs/string.c that write strings, over the memory of the `mem*` functions. Each
-- returns the memory, with the value of the call where that is not its first argument. `none` is a
-- loop that the fuel cuts short.
pub mod Copy
pub mod Trim
mod Tests
use mathlib.Core.Option
use hlos.Base.{ℕ, zero, suc, ◌+◌, ◌-◌, ◌%◌, ◌^◌, Bool, Option, none, some, ◌==◌, leb, if◌then◌else◌}
use hlos.Bytes.{Mem, null, poke, memcpy}
use hlos.Ctype.{isspace}
use hlos.Str.{strlen, strpbrk, skip_spaces}

unfoldable pub strcpy : ℕ → Mem → (dest src : ℕ) → Option Mem
strcpy zero m dest src = none
strcpy (suc fuel) m dest src =
    let written = poke m dest (m src) in
    let rest = strcpy fuel written (dest + 1) (src + 1) in if m src == 0 then some written else rest

unfoldable pub strncpy : Mem → (dest src count : ℕ) → Mem
strncpy m tmp src zero = m
strncpy m tmp src (suc count) =
    strncpy (poke m tmp (m src)) (tmp + 1) (if m src == 0 then src else src + 1) count

-- With the value of the call, the length of `src`.
unfoldable pub strlcpy : ℕ → Mem → (dest src size : ℕ) → Option (ℕ × Mem)
unfolding strlen memcpy
strlcpy fuel m dest src size = elim (strlen fuel m src) [
  | none ↦ none
  | some ret ↦
      let len = if leb size ret then size - 1 else ret in
      some (ret, if size == 0 then m else poke (memcpy m dest src len) (dest + len) 0)
]

-- `while (*dest) dest++`
unfoldable pub string_end : ℕ → Mem → ℕ → Option ℕ
string_end zero m dest = none
string_end (suc fuel) m dest =
    let rest = string_end fuel m (dest + 1) in if m dest == 0 then some dest else rest

unfoldable pub strcat : ℕ → Mem → (dest src : ℕ) → Option Mem
unfolding string_end strcpy
strcat fuel m dest src = elim (string_end fuel m dest) [
  | none ↦ none
  | some d ↦ strcpy fuel m d src
]

-- The second loop of `strncat`, for a `count` above 0.
unfoldable pub strncat_loop : Mem → (dest src count : ℕ) → Mem
strncat_loop m dest src zero = m
strncat_loop m dest src (suc count) =
    let written = poke m dest (m src) in
    let rest = strncat_loop written (dest + 1) (src + 1) count in
    if m src == 0 then written else if count == 0 then poke written (dest + 1) 0 else rest

unfoldable pub strncat : ℕ → Mem → (dest src count : ℕ) → Option Mem
unfolding string_end strncat_loop
strncat fuel m dest src count =
    if count == 0
    then some m
    else elim (string_end fuel m dest) [ none ↦ none | some d ↦ some (strncat_loop m d src count) ]

-- `count -= dsize` and `count-1` are on a `size_t`, and wrap. With the value of the call.
unfoldable pub strlcat : ℕ → Mem → (dest src count : ℕ) → Option (ℕ × Mem)
unfolding strlen memcpy
strlcat fuel m dest src count = elim (strlen fuel m dest) [
  | none ↦ none
  | some dsize ↦ elim (strlen fuel m src) [
    | none ↦ none
    | some len ↦
        let left = (count + 2 ^ 32 - dsize) % 2 ^ 32 in
        let taken = if leb left len then (left + 2 ^ 32 - 1) % 2 ^ 32 else len in
        some (
          (dsize + len) % 2 ^ 32,
          poke (memcpy m (dest + dsize) src taken) (dest + dsize + taken) 0,
        )
  ]
]

-- The `while (end >= s && isspace(*end))` of `strim`, with `end = s + k - 1`; it returns `end + 1`.
unfoldable pub trim_end : Mem → (s k : ℕ) → ℕ
trim_end m s zero = s
trim_end m s (suc k) = if isspace (m (s + k)) then trim_end m s k else s + suc k

-- The returned pointer, and the memory.
unfoldable pub strim : ℕ → Mem → ℕ → Option (ℕ × Mem)
unfolding strlen trim_end skip_spaces
strim fuel m s = elim (strlen fuel m s) [
  | none ↦ none
  | some size ↦
      let cut = poke m (trim_end m s size) 0 in
      if size == 0 then some (s, m) else Option.map (λ p. (p, cut)) (skip_spaces fuel cut s)
]

-- `s` is the value of `*s`. The result is the returned pointer, the new `*s` and the memory.
unfoldable pub strsep : (inner fuel : ℕ) → Mem → (s ct : ℕ) → Option (ℕ × ℕ × Mem)
unfolding strpbrk
strsep inner fuel m s ct =
    if s == null then some (null, null, m) else elim (strpbrk inner fuel m s ct) [
      | none ↦ none
      | some end ↦ if end == null then some (s, null, m) else some (s, end + 1, poke m end 0)
    ]
