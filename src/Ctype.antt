-- ===== src/Ctype.antt =====
-- libs/ctype.c and include/ctype.h: the table of character classes, and the macros that read it.
pub mod Laws
mod Tests
use hlos.Base.{
  ℕ, ◌+◌, ◌-◌, ◌%◌, Bool, not, ◌&&◌, List, [], ◌∷◌, ◌++◌, bit_and, bit_or, ◌==◌, leb, if◌then◌else◌,
  get_or,
}

-- `_ctype`, 16 codes to a line, with the masks added up.
abbrev pub ctype : List ℕ
ctype =
    0x8 ∷ 0x8 ∷ 0x8 ∷ 0x8 ∷ 0x8 ∷ 0x8 ∷ 0x8 ∷ 0x8 ∷ 0x8 ∷ 0x28 ∷ 0x28 ∷ 0x28 ∷ 0x28 ∷ 0x28 ∷ 0x8
    ∷ 0x8 ∷ 0x8 ∷ 0x8 ∷ 0x8 ∷ 0x8 ∷ 0x8 ∷ 0x8 ∷ 0x8 ∷ 0x8 ∷ 0x8 ∷ 0x8 ∷ 0x8 ∷ 0x8 ∷ 0x8 ∷ 0x8 ∷ 0x8
    ∷ 0x8 ∷ 0xa0 ∷ 0x10 ∷ 0x10 ∷ 0x10 ∷ 0x10 ∷ 0x10 ∷ 0x10 ∷ 0x10 ∷ 0x10 ∷ 0x10 ∷ 0x10 ∷ 0x10 ∷ 0x10
    ∷ 0x10 ∷ 0x10 ∷ 0x10 ∷ 0x4 ∷ 0x4 ∷ 0x4 ∷ 0x4 ∷ 0x4 ∷ 0x4 ∷ 0x4 ∷ 0x4 ∷ 0x4 ∷ 0x4 ∷ 0x10 ∷ 0x10
    ∷ 0x10 ∷ 0x10 ∷ 0x10 ∷ 0x10 ∷ 0x10 ∷ 0x41 ∷ 0x41 ∷ 0x41 ∷ 0x41 ∷ 0x41 ∷ 0x41 ∷ 0x1 ∷ 0x1 ∷ 0x1
    ∷ 0x1 ∷ 0x1 ∷ 0x1 ∷ 0x1 ∷ 0x1 ∷ 0x1 ∷ 0x1 ∷ 0x1 ∷ 0x1 ∷ 0x1 ∷ 0x1 ∷ 0x1 ∷ 0x1 ∷ 0x1 ∷ 0x1 ∷ 0x1
    ∷ 0x1 ∷ 0x10 ∷ 0x10 ∷ 0x10 ∷ 0x10 ∷ 0x10 ∷ 0x10 ∷ 0x42 ∷ 0x42 ∷ 0x42 ∷ 0x42 ∷ 0x42 ∷ 0x42 ∷ 0x2
    ∷ 0x2 ∷ 0x2 ∷ 0x2 ∷ 0x2 ∷ 0x2 ∷ 0x2 ∷ 0x2 ∷ 0x2 ∷ 0x2 ∷ 0x2 ∷ 0x2 ∷ 0x2 ∷ 0x2 ∷ 0x2 ∷ 0x2 ∷ 0x2
    ∷ 0x2 ∷ 0x2 ∷ 0x2 ∷ 0x10 ∷ 0x10 ∷ 0x10 ∷ 0x10 ∷ 0x8 ∷ 0x0 ∷ 0x0 ∷ 0x0 ∷ 0x0 ∷ 0x0 ∷ 0x0 ∷ 0x0
    ∷ 0x0 ∷ 0x0 ∷ 0x0 ∷ 0x0 ∷ 0x0 ∷ 0x0 ∷ 0x0 ∷ 0x0 ∷ 0x0 ∷ 0x0 ∷ 0x0 ∷ 0x0 ∷ 0x0 ∷ 0x0 ∷ 0x0 ∷ 0x0
    ∷ 0x0 ∷ 0x0 ∷ 0x0 ∷ 0x0 ∷ 0x0 ∷ 0x0 ∷ 0x0 ∷ 0x0 ∷ 0x0 ∷ 0xa0 ∷ 0x10 ∷ 0x10 ∷ 0x10 ∷ 0x10 ∷ 0x10
    ∷ 0x10 ∷ 0x10 ∷ 0x10 ∷ 0x10 ∷ 0x10 ∷ 0x10 ∷ 0x10 ∷ 0x10 ∷ 0x10 ∷ 0x10 ∷ 0x10 ∷ 0x10 ∷ 0x10
    ∷ 0x10 ∷ 0x10 ∷ 0x10 ∷ 0x10 ∷ 0x10 ∷ 0x10 ∷ 0x10 ∷ 0x10 ∷ 0x10 ∷ 0x10 ∷ 0x10 ∷ 0x10 ∷ 0x10 ∷ 0x1
    ∷ 0x1 ∷ 0x1 ∷ 0x1 ∷ 0x1 ∷ 0x1 ∷ 0x1 ∷ 0x1 ∷ 0x1 ∷ 0x1 ∷ 0x1 ∷ 0x1 ∷ 0x1 ∷ 0x1 ∷ 0x1 ∷ 0x1 ∷ 0x1
    ∷ 0x1 ∷ 0x1 ∷ 0x1 ∷ 0x1 ∷ 0x1 ∷ 0x1 ∷ 0x10 ∷ 0x1 ∷ 0x1 ∷ 0x1 ∷ 0x1 ∷ 0x1 ∷ 0x1 ∷ 0x1 ∷ 0x2 ∷ 0x2
    ∷ 0x2 ∷ 0x2 ∷ 0x2 ∷ 0x2 ∷ 0x2 ∷ 0x2 ∷ 0x2 ∷ 0x2 ∷ 0x2 ∷ 0x2 ∷ 0x2 ∷ 0x2 ∷ 0x2 ∷ 0x2 ∷ 0x2 ∷ 0x2
    ∷ 0x2 ∷ 0x2 ∷ 0x2 ∷ 0x2 ∷ 0x2 ∷ 0x2 ∷ 0x10 ∷ 0x2 ∷ 0x2 ∷ 0x2 ∷ 0x2 ∷ 0x2 ∷ 0x2 ∷ 0x2 ∷ 0x2 ∷ []

-- `__ismask(x)`: the argument is cut to an unsigned char.
unfoldable pub ismask : ℕ → ℕ
ismask x = get_or ctype (x % 256) 0

-- `(__ismask(c) & (mask)) != 0`
unfoldable pub has_mask : ℕ → ℕ → Bool
unfolding ismask
has_mask c mask = not (bit_and (ismask c) mask == 0)

-- mask _U | _L | _D
unfoldable pub isalnum : ℕ → Bool
unfolding has_mask
isalnum c = has_mask c 0x7

-- mask _U | _L
unfoldable pub isalpha : ℕ → Bool
unfolding has_mask
isalpha c = has_mask c 0x3

-- mask _C
unfoldable pub iscntrl : ℕ → Bool
unfolding has_mask
iscntrl c = has_mask c 0x8

-- mask _D
unfoldable pub isdigit : ℕ → Bool
unfolding has_mask
isdigit c = has_mask c 0x4

-- mask _P | _U | _L | _D
unfoldable pub isgraph : ℕ → Bool
unfolding has_mask
isgraph c = has_mask c 0x17

-- mask _L
unfoldable pub islower : ℕ → Bool
unfolding has_mask
islower c = has_mask c 0x2

-- mask _P | _U | _L | _D | _SP
unfoldable pub isprint : ℕ → Bool
unfolding has_mask
isprint c = has_mask c 0x97

-- mask _P
unfoldable pub ispunct : ℕ → Bool
unfolding has_mask
ispunct c = has_mask c 0x10

-- mask _S
unfoldable pub isspace : ℕ → Bool
unfolding has_mask
isspace c = has_mask c 0x20

-- mask _U
unfoldable pub isupper : ℕ → Bool
unfolding has_mask
isupper c = has_mask c 0x1

-- mask _D | _X
unfoldable pub isxdigit : ℕ → Bool
unfolding has_mask
isxdigit c = has_mask c 0x44

unfoldable pub isascii : ℕ → Bool
isascii c = leb (c % 256) 0x7f

unfoldable pub toascii : ℕ → ℕ
toascii c = bit_and (c % 256) 0x7f

-- `c -= 'A' - 'a'` on an unsigned char
unfoldable pub tolower : ℕ → ℕ
unfolding isupper
tolower c = if isupper c then (c + 32) % 256 else c

unfoldable pub toupper : ℕ → ℕ
unfolding islower
toupper c = if islower c then (c + 256 - 32) % 256 else c

-- `_tolower`
unfoldable pub quick_tolower : ℕ → ℕ
quick_tolower c = bit_or c 0x20

unfoldable pub isodigit : ℕ → Bool
isodigit c = leb b'0' c && leb c b'7'
