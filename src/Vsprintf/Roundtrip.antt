-- ===== src/Vsprintf/Roundtrip.antt =====
-- `skip_atoi` reads back what `put_dec` prints.
use hlos.Base.{
  ℕ, zero, suc, ◌+◌, ◌-◌, ◌*◌, ◌%◌, ◌^◌, ◌<◌, ◌≤◌, ◌≡◌, refl, ap, sym, ◌∙◌, true, false, List, [],
  ◌∷◌, ◌++◌, some, arith, length, length-append,
}
use mathlib.Core.Option.{some-injective}
use hlos.Bytes.{Mem}
use hlos.Ctype.{isdigit}
use hlos.Ctype.Laws.{isdigit_lem}
use hlos.Vsprintf.Decode.{skip_atoi}
use hlos.Vsprintf.Number.{put_dec}
use hlos.Vsprintf.Layout.{backwards}
use hlos.Vsprintf.Decimal.{value, IsDigit, put_dec-IsDecimal}

-- At `s` stand the digits `ds`, and then no digit.
abbrev pub IsNumeral : Mem → ℕ → List ℕ → Type 0
IsNumeral m s [] = isdigit (m s) ≡ false
IsNumeral m s (d ∷ ds) = (m s ≡ d) × IsDigit d × IsNumeral m (s + 1) ds

-- The number that digits stand for behind the number `i`, the highest digit first.
abbrev horner : ℕ → List ℕ → ℕ
horner i [] = i
horner i (d ∷ ds) = horner (i * 10 + (d - 48)) ds

horner-append :
    (i : ℕ) (ds : List ℕ) (d : ℕ) → horner i (ds ++ d ∷ []) ≡ horner i ds * 10 + (d - 48)
horner-append i [] d = refl
horner-append i (e ∷ ds) d = horner-append (i * 10 + (e - 48)) ds d

horner-backwards : (cs : List ℕ) → horner 0 (backwards cs) ≡ value cs
horner-backwards [] = refl
horner-backwards (c ∷ cs) = omega (arith, horner-append 0 (backwards cs) c, horner-backwards cs)

horner-le : (i : ℕ) (ds : List ℕ) → i ≤ horner i ds
horner-le i [] = omega arith
horner-le i (d ∷ ds) = omega (arith, horner-le (i * 10 + (d - 48)) ds)

skip_atoi-horner :
    (fuel : ℕ) (m : Mem) (s i : ℕ) (ds : List ℕ)
    → IsNumeral m s ds
    → horner i ds < 2 ^ 32
    → length ds < fuel
    → skip_atoi fuel m s i ≡ some (horner i ds, s + length ds)
unfolding skip_atoi
skip_atoi-horner zero m s i ds t lt enough = absurd (omega arith)
skip_atoi-horner (suc fuel) m s i [] t lt enough = rw t (ap (λ p. some (i, p)) (omega arith))
skip_atoi-horner (suc fuel) m s i (d ∷ ds) t lt enough =
    let digit : isdigit d ≡ true = ground (arith, isdigit_lem d (omega arith), t.1) in
    let next : (i * 10 + d + 2 ^ 32 - 48) % 2 ^ 32 ≡ i * 10 + (d - 48) =
      omega (arith, t.1, horner-le (i * 10 + (d - 48)) ds) in
    rw (t.0, digit, next)
      (skip_atoi-horner fuel m (s + 1) (i * 10 + (d - 48)) ds t.2 lt (omega arith)
        ∙ ap (λ p. some (horner (i * 10 + (d - 48)) ds, p)) (omega arith))

length-backwards : (cs : List ℕ) → length (backwards cs) ≡ length cs
length-backwards [] = refl
length-backwards (c ∷ cs) =
    omega (arith, length-append (backwards cs) (c ∷ []), length-backwards cs)

-- Where the digits that `put_dec` gives for a number below 100000000 stand in memory, the highest
-- first, with no digit behind them, `skip_atoi` with more fuel than there are digits returns the
-- number and the address behind it.
pub skip_atoi-put_dec :
    (fuel n : ℕ) (m : Mem) (s : ℕ) (cs : List ℕ)
    → n < 100000000
    → put_dec n ≡ some cs
    → IsNumeral m s (backwards cs)
    → length cs < fuel
    → skip_atoi fuel m s 0 ≡ some (n, s + length cs)
skip_atoi-put_dec fuel n m s cs lt e t enough =
    let d = put_dec-IsDecimal n lt in
    let same : d.0 ≡ cs = some-injective _ _ (sym d.1 ∙ e) in
    let v : horner 0 (backwards cs) ≡ n = horner-backwards cs ∙ ap value (sym same) ∙ d.2.value in
    skip_atoi-horner fuel m s 0 (backwards cs) t (omega (arith, v))
      (omega (arith, length-backwards cs))
    ∙ rw (v, length-backwards cs) refl
