-- ===== src/Str/Tests.antt =====
-- Two short strings, searched and compared.
use hlos.Base.{ℕ, ◌≡◌, ◌↔◌, refl, not, List, [], ◌∷◌, some, arith, get_or, min}
use hlos.Base.Int.{pos}
use hlos.Ctype.{tolower}
use hlos.Bytes.{Mem}
use hlos.Links.Chain.{has}
use hlos.Str.{
  strlen, strnlen, strcmp, strncmp, strchr, strrchr, strspn, strcspn, strstr, strnstr, strcasecmp,
}
use hlos.Str.Text.{IsStr}
use hlos.Str.Length.{strlen-length, strnlen-length}
use hlos.Str.Compare.{order_of, take, strcmp-order_of, strcmp-eq-zero_iff, strncmp-order_of}
use hlos.Str.Search.{
  first_at, IsLast, run_length, strchr-first_at, strrchr-IsLast, strspn-run_length,
}
use hlos.Str.Find.{IsMatch, strstr-IsMatch, strnstr-IsMatch}

-- "abab" stands at 1 and "ba" at 6.
abbrev memory : Mem
memory a = get_or (0 ∷ b'a' ∷ b'b' ∷ b'a' ∷ b'b' ∷ 0 ∷ b'b' ∷ b'a' ∷ []) a 0

abbrev abab : List ℕ
abab = b'a' ∷ b'b' ∷ b'a' ∷ b'b' ∷ []

abbrev ba : List ℕ
ba = b'b' ∷ b'a' ∷ []

abab-IsStr : IsStr memory 1 abab
abab-IsStr =
    (refl, omega arith, (refl, omega arith, (refl, omega arith, (refl, omega arith, refl))))

ba-IsStr : IsStr memory 6 ba
ba-IsStr = (refl, omega arith, (refl, omega arith, refl))

strstr_finds : (strstr 9 memory 1 6 ≡ some 2) × (strstr 9 memory 6 1 ≡ some 0)
unfolding strstr
strstr_finds = (refl, refl)

strcasecmp_run : strcasecmp 9 memory 1 3 ≡ some (pos b'a')
unfolding strcasecmp tolower
strcasecmp_run = refl

strlen-length_run : strlen 5 memory 1 ≡ some 4
strlen-length_run = strlen-length 5 memory 1 abab abab-IsStr (omega arith)

strnlen-length_run : strnlen memory 1 3 ≡ min 4 3
strnlen-length_run = strnlen-length memory 1 3 abab abab-IsStr

strcmp-order_of_run : strcmp 5 memory 1 6 ≡ some (order_of abab ba)
strcmp-order_of_run = strcmp-order_of 5 memory 1 6 abab ba abab-IsStr ba-IsStr (omega arith)

strcmp-eq-zero_iff_run : (strcmp 5 memory 1 6 ≡ some (pos 0)) ↔ (abab ≡ ba)
strcmp-eq-zero_iff_run = strcmp-eq-zero_iff 5 memory 1 6 abab ba abab-IsStr ba-IsStr (omega arith)

strncmp-order_of_run : strncmp memory 1 6 2 ≡ order_of (take 2 abab) (take 2 ba)
strncmp-order_of_run = strncmp-order_of memory 1 6 2 abab ba abab-IsStr ba-IsStr

strchr-first_at_run : strchr 5 memory 1 b'b' ≡ some (first_at 1 b'b' abab)
strchr-first_at_run = strchr-first_at 5 memory 1 b'b' abab abab-IsStr (omega arith)

strrchr-IsLast_run : (p : ℕ) × (strrchr 5 memory 1 b'a' ≡ some p) × IsLast memory 1 b'a' 4 p
strrchr-IsLast_run = strrchr-IsLast 5 memory 1 b'a' abab abab-IsStr (omega arith)

strspn-run_length_run :
    (strspn 3 5 memory 1 6 ≡ some (run_length (λ x. has x ba) abab))
    × (strcspn 3 5 memory 1 6 ≡ some (run_length (λ x. not (has x ba)) abab))
strspn-run_length_run =
    strspn-run_length 3 memory 6 ba ba-IsStr (omega arith) 5 1 abab abab-IsStr (omega arith)

strstr-IsMatch_example : (p : ℕ) × (strstr 5 memory 1 6 ≡ some p) × IsMatch memory 1 4 6 2 p
strstr-IsMatch_example =
    strstr-IsMatch 5 memory 1 6 abab ba abab-IsStr ba-IsStr (omega arith) (omega arith)
      (omega arith)

strnstr-IsMatch_run : (p : ℕ) × (strnstr 5 memory 1 6 3 ≡ some p) × IsMatch memory 1 3 6 2 p
strnstr-IsMatch_run = strnstr-IsMatch 5 memory 1 6 3 ba ba-IsStr (omega arith) (omega arith)
