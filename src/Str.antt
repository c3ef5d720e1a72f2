-- ===== src/Str.antt =====
-- The functions of libs/string.c that read strings. A loop that runs to a NUL takes fuel, and `none`
-- is a loop cut short; a loop with a `size_t` bound recurs on it. Pointers and counts do not wrap.
pub mod Text
pub mod Length
pub mod Compare
pub mod Search
pub mod Find
mod Tests
use mathlib.Core.Option
use hlos.Base.{
  ℕ, zero, suc, ◌+◌, ◌-◌, ◌%◌, ◌^◌, Bool, true, false, ◌&&◌, ◌||◌, not, Option, none, some, ◌==◌,
  ltb, leb, if◌then◌else◌,
}
use hlos.Base.Int.{ℤ, pos, negsuc, sub_ℕ}
use hlos.Bytes.{Mem, null, memcmp}
use hlos.Ctype.{isspace, tolower}

-- `sc - s` at the end of the loop of `strlen`
unfoldable pub strlen_loop : ℕ → Mem → (sc s : ℕ) → Option ℕ
strlen_loop zero m sc s = none
strlen_loop (suc fuel) m sc s =
    let rest = strlen_loop fuel m (sc + 1) s in if m sc == 0 then some (sc - s) else rest

unfoldable pub strlen : ℕ → Mem → ℕ → Option ℕ
unfolding strlen_loop
strlen fuel m s = strlen_loop fuel m s s

unfoldable pub strnlen_loop : Mem → (sc s count : ℕ) → ℕ
strnlen_loop m sc s zero = sc - s
strnlen_loop m sc s (suc count) =
    let rest = strnlen_loop m (sc + 1) s count in if m sc == 0 then sc - s else rest

unfoldable pub strnlen : Mem → (s count : ℕ) → ℕ
unfolding strnlen_loop
strnlen m s count = strnlen_loop m s s count

unfoldable pub strcmp : ℕ → Mem → (cs ct : ℕ) → Option ℤ
strcmp zero m cs ct = none
strcmp (suc fuel) m cs ct =
    let rest = strcmp fuel m (cs + 1) (ct + 1) in
    if not (m cs == m ct)
    then some (if ltb (m cs) (m ct) then negsuc 0 else pos 1)
    else if m cs == 0
    then some (pos 0)
    else rest

unfoldable pub strncmp : Mem → (cs ct count : ℕ) → ℤ
strncmp m cs ct zero = pos 0
strncmp m cs ct (suc count) =
    let rest = strncmp m (cs + 1) (ct + 1) count in
    if not (m cs == m ct)
    then (if ltb (m cs) (m ct) then negsuc 0 else pos 1)
    else if m cs == 0
    then pos 0
    else rest

-- `last` is `c1 - c2` when the `while (--len)` ends the loop.
unfoldable pub strnicmp_loop : Mem → (s1 s2 len : ℕ) → ℤ → ℤ
strnicmp_loop m s1 s2 zero last = last
strnicmp_loop m s1 s2 (suc len) last =
    let c1 = m s1 in
    let c2 = m s2 in
    let l1 = tolower c1 in
    let l2 = tolower c2 in
    let rest = strnicmp_loop m (s1 + 1) (s2 + 1) len (if c1 == c2 then pos 0 else sub_ℕ l1 l2) in
    if (c1 == 0) || (c2 == 0)
    then sub_ℕ c1 c2
    else if c1 == c2
    then rest
    else if not (l1 == l2)
    then sub_ℕ l1 l2
    else rest

unfoldable pub strnicmp : Mem → (s1 s2 len : ℕ) → ℤ
unfolding strnicmp_loop
strnicmp m s1 s2 len = strnicmp_loop m s1 s2 len (pos 0)

unfoldable pub strcasecmp : ℕ → Mem → (s1 s2 : ℕ) → Option ℤ
strcasecmp zero m s1 s2 = none
strcasecmp (suc fuel) m s1 s2 =
    let c1 = tolower (m s1) in
    let c2 = tolower (m s2) in
    let rest = strcasecmp fuel m (s1 + 1) (s2 + 1) in
    if (c1 == c2) && not (c1 == 0) then rest else some (sub_ℕ c1 c2)

-- `--n > 0` on a `size_t`: at `n = 0` it wraps.
unfoldable pub strncasecmp : ℕ → Mem → (s1 s2 n : ℕ) → Option ℤ
strncasecmp zero m s1 s2 n = none
strncasecmp (suc fuel) m s1 s2 n =
    let c1 = tolower (m s1) in
    let c2 = tolower (m s2) in
    let left = (n + 2 ^ 32 - 1) % 2 ^ 32 in
    let rest = strncasecmp fuel m (s1 + 1) (s2 + 1) left in
    if ltb 0 left && (c1 == c2) && not (c1 == 0) then rest else some (sub_ℕ c1 c2)

unfoldable pub strchr : ℕ → Mem → (s c : ℕ) → Option ℕ
strchr zero m s c = none
strchr (suc fuel) m s c =
    let rest = strchr fuel m (s + 1) c in
    if m s == c % 256 then some s else if m s == 0 then some null else rest

-- The `do` loop of `strrchr`, with `p = s + k`.
unfoldable pub strrchr_loop : Mem → (s c k : ℕ) → ℕ
strrchr_loop m s c zero = if m s == c % 256 then s else null
strrchr_loop m s c (suc k) = if m (s + suc k) == c % 256 then s + suc k else strrchr_loop m s c k

unfoldable pub strrchr : ℕ → Mem → (s c : ℕ) → Option ℕ
unfolding strlen strrchr_loop
strrchr fuel m s c = Option.map (strrchr_loop m s c) (strlen fuel m s)

unfoldable pub strnchr : Mem → (s count c : ℕ) → ℕ
strnchr m s zero c = null
strnchr m s (suc count) c =
    if m s == 0 then null else if m s == c % 256 then s else strnchr m (s + 1) count c

unfoldable pub skip_spaces : ℕ → Mem → ℕ → Option ℕ
skip_spaces zero m s = none
skip_spaces (suc fuel) m s =
    let rest = skip_spaces fuel m (s + 1) in if isspace (m s) then rest else some s

-- The inner loop of `strspn`, `strcspn` and `strpbrk`: is `c` in the string at `a`?
unfoldable pub in_set : ℕ → Mem → (a c : ℕ) → Option Bool
in_set zero m a c = none
in_set (suc fuel) m a c =
    let rest = in_set fuel m (a + 1) c in
    if m a == 0 then some false else if c == m a then some true else rest

-- `inner` is the fuel of each inner loop.
module _ (inner : ℕ) where
  unfoldable pub strspn_loop : ℕ → Mem → (p accept count : ℕ) → Option ℕ
  unfolding in_set
  strspn_loop zero m p accept count = none
  strspn_loop (suc fuel) m p accept count =
      let rest = strspn_loop fuel m (p + 1) accept (count + 1) in
      if m p == 0 then some count else elim (in_set inner m accept (m p)) [
        | none ↦ none
        | some true ↦ rest
        | some false ↦ some count
      ]

  unfoldable pub strspn : ℕ → Mem → (s accept : ℕ) → Option ℕ
  unfolding strspn_loop
  strspn fuel m s accept = strspn_loop fuel m s accept 0

  unfoldable pub strcspn_loop : ℕ → Mem → (p reject count : ℕ) → Option ℕ
  unfolding in_set
  strcspn_loop zero m p reject count = none
  strcspn_loop (suc fuel) m p reject count =
      let rest = strcspn_loop fuel m (p + 1) reject (count + 1) in
      if m p == 0 then some count else elim (in_set inner m reject (m p)) [
        | none ↦ none
        | some true ↦ some count
        | some false ↦ rest
      ]

  unfoldable pub strcspn : ℕ → Mem → (s reject : ℕ) → Option ℕ
  unfolding strcspn_loop
  strcspn fuel m s reject = strcspn_loop fuel m s reject 0

  unfoldable pub strpbrk : ℕ → Mem → (cs ct : ℕ) → Option ℕ
  unfolding in_set
  strpbrk zero m cs ct = none
  strpbrk (suc fuel) m cs ct =
      let rest = strpbrk fuel m (cs + 1) ct in
      if m cs == 0
      then some null
      else elim (in_set inner m ct (m cs)) [ none ↦ none | some true ↦ some cs | some false ↦ rest ]

-- The tests of `sysfs_streq` where its loop stops.
unfoldable pub streq_end : Mem → (s1 s2 : ℕ) → Bool
streq_end m s1 s2 =
    if m s1 == m s2
    then true
    else if (m s1 == 0) && (m s2 == b'\n') && (m (s2 + 1) == 0)
    then true
    else (m s1 == b'\n') && (m (s1 + 1) == 0) && (m s2 == 0)

unfoldable pub sysfs_streq : ℕ → Mem → (s1 s2 : ℕ) → Option Bool
unfolding streq_end
sysfs_streq zero m s1 s2 = none
sysfs_streq (suc fuel) m s1 s2 =
    let rest = sysfs_streq fuel m (s1 + 1) (s2 + 1) in
    if not (m s1 == 0) && (m s1 == m s2) then rest else some (streq_end m s1 s2)

-- The new value of `*res`; `none` is the return of -EINVAL, which leaves it alone.
unfoldable pub strtobool : Mem → ℕ → Option Bool
strtobool m s =
    let c = m s in
    if (c == b'y') || (c == b'Y') || (c == b'1')
    then some true
    else if (c == b'n') || (c == b'N') || (c == b'0')
    then some false
    else none

abbrev pub is_zero : ℤ → Bool
is_zero (pos n) = n == 0
is_zero (negsuc n) = false

-- The `while (l1 >= l2)` of `strstr` and `strnstr`, for `l2` above 0.
unfoldable pub strstr_loop : Mem → (s1 s2 l2 l1 : ℕ) → ℕ
unfolding memcmp
strstr_loop m s1 s2 l2 zero = null
strstr_loop m s1 s2 l2 (suc l1) =
    let rest = strstr_loop m (s1 + 1) s2 l2 l1 in
    if leb l2 (suc l1) then (if is_zero (memcmp m s1 s2 l2) then s1 else rest) else null

unfoldable pub strstr : ℕ → Mem → (s1 s2 : ℕ) → Option ℕ
unfolding strlen strstr_loop
strstr fuel m s1 s2 = elim (strlen fuel m s2) [
  | none ↦ none
  | some l2 ↦ if l2 == 0 then some s1 else Option.map (strstr_loop m s1 s2 l2) (strlen fuel m s1)
]

unfoldable pub strnstr : ℕ → Mem → (s1 s2 len : ℕ) → Option ℕ
unfolding strlen strstr_loop
strnstr fuel m s1 s2 len = elim (strlen fuel m s2) [
  | none ↦ none
  | some l2 ↦ if l2 == 0 then some s1 else some (strstr_loop m s1 s2 l2 len)
]
