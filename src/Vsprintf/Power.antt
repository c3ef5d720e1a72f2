-- ===== src/Vsprintf/Power.antt =====
-- `number` in the bases 8 and 16.
use hlos.Base.{
  ℕ, zero, suc, ◌+◌, ◌-◌, ◌*◌, ◌/◌, ◌%◌, ◌^◌, ◌<◌, ◌≤◌, ◌≡◌, ◌⊎◌, inl, inr, refl, ap, sym, subst,
  ◌∙◌, true, false, Bool-cases, List, [], ◌∷◌, map, Option, some, arith, ◌==◌, ==_iff,
  if◌then◌else◌, ltb, length, All, bit_and, bit_or, get_or,
}
use hlos.Base.Bits.{bit_and-mask}
use hlos.Vsprintf.{PrintfSpec, small_flag, Out}
use hlos.Vsprintf.Number.{digits, put_pow2, reversed, number}
use hlos.Vsprintf.Layout.{put_all}
use hlos.Vsprintf.Expected.{is_set, magnitude, digits_wanted, expected, number-layout}
use hlos.Base.Finite.{all_codes, all_codes-at}

-- The character of a digit, and the number that digits stand for, the lowest digit first.
abbrev digit_char : (locase d : ℕ) → ℕ
digit_char locase d = bit_or (get_or digits d 0) locase

abbrev pub value_in : (base : ℕ) → List ℕ → ℕ
value_in base [] = 0
value_in base (d ∷ ds) = d + base * value_in base ds

-- The characters `cs` are those of the digits `ds` of `n`, at most 22.
record IsNotation (base locase n : ℕ) (result : Option (List ℕ)) : Type 0 where
  ds : List ℕ
  written : result ≡ some (map (digit_char locase) ds)
  value : value_in base ds ≡ n
  small : All (λ d. d < base) ds
  few : length ds ≤ 22

-- What `k` digits of a base can hold.
abbrev limit : (base k : ℕ) → ℕ
limit base zero = 1
limit base (suc k) = base * limit base k

-- The arithmetic of one base.
record IsBase (base shift : ℕ) : Type 0 where
  last_digit : (n : ℕ) → bit_and (n % 256) (base - 1) ≡ n % base
  shifted : (n : ℕ) → n / 2 ^ shift ≡ n / base
  whole : (n : ℕ) → n % base + base * (n / base) ≡ n
  less : (n : ℕ) → n % base < base
  shrinks : (n k : ℕ) → n < base * k → n / base < k

octal : IsBase 8 3
octal = record {
  last_digit = λ n. bit_and-mask 3 (n % 256) ∙ omega arith;
  shifted = λ n. refl;
  whole = λ n. omega arith;
  less = λ n. omega arith;
  shrinks = λ n k h. omega arith;
}

hex : IsBase 16 4
hex = record {
  last_digit = λ n. bit_and-mask 4 (n % 256) ∙ omega arith;
  shifted = λ n. refl;
  whole = λ n. omega arith;
  less = λ n. omega arith;
  shrinks = λ n k h. omega arith;
}

module _ (base shift locase : ℕ) (b : IsBase base shift) where
  put_pow2-last :
      (fuel n : ℕ)
      → (n / base == 0) ≡ true
      → put_pow2 (suc fuel) (base - 1) shift locase n ≡ some (digit_char locase (n % base) ∷ [])
  unfolding put_pow2
  put_pow2-last fuel n e = rw (b.shifted n, e, put_pow2, b.last_digit n) refl

  put_pow2-more :
      (fuel n : ℕ) (cs : List ℕ)
      → (n / base == 0) ≡ false
      → put_pow2 fuel (base - 1) shift locase (n / base) ≡ some cs
      → put_pow2 (suc fuel) (base - 1) shift locase n ≡ some (digit_char locase (n % base) ∷ cs)
  unfolding put_pow2
  put_pow2-more fuel n cs e rest =
      let again = ap (λ q. put_pow2 fuel (base - 1) shift locase q) (b.shifted n) ∙ rest in
      rw (b.shifted n, e, put_pow2, b.last_digit n, again) refl

  -- The digits of `n`, at most `k` of them.
  abbrev IsDigits : (k n : ℕ) → Type 0
  IsDigits k n =
      (ds : List ℕ) × (put_pow2 k (base - 1) shift locase n ≡ some (map (digit_char locase) ds))
      × (value_in base ds ≡ n)
      × All (λ d. d < base) ds
      × (length ds ≤ k)

  one_digit : (k n : ℕ) → (n / base == 0) ≡ true → IsDigits (suc k) n
  one_digit k n e =
      let nothing : 0 ≡ n / base = ground (arith, e) in
      (
        n % base ∷ [],
        put_pow2-last k n e,
        ap (λ q. n % base + base * q) nothing ∙ b.whole n,
        (b.less n, tt),
        omega arith,
      )

  put_pow2-IsDigits : (k n : ℕ) → n < limit base (suc k) → IsDigits (suc k) n
  put_pow2-IsDigits zero n lt =
      let e : (n / base == 0) ≡ true = ground (arith, b.shrinks n 1 lt) in one_digit zero n e
  put_pow2-IsDigits (suc k) n lt = elim (Bool-cases (n / base == 0)) [
    | inl e ↦ one_digit (suc k) n e
    | inr e ↦
        let rest = put_pow2-IsDigits k (n / base) (b.shrinks n (limit base (suc k)) lt) in
        (
          n % base ∷ rest.0,
          put_pow2-more (suc k) n (map (digit_char locase) rest.0) e rest.1,
          ap (λ q. n % base + base * q) rest.2 ∙ b.whole n,
          (b.less n, rest.3),
          omega (arith, rest.4),
        )
  ]

reversed-one : (base locase n : ℕ) → n < base → IsNotation base locase n (reversed base locase n)
unfolding reversed
reversed-one base locase n lt =
    let single : ltb n base ≡ true = ground arith in
    rw single (record {
      ds = n ∷ [];
      written = refl;
      value = omega arith;
      small = (lt, tt);
      few = omega arith;
    })

-- The two bases.
abbrev pub IsPower : ℕ → Type 0
IsPower base = (base ≡ 8) ⊎ (base ≡ 16)

reversed-IsNotation :
    (base locase n : ℕ)
    → IsPower base
    → n < 2 ^ 64
    → IsNotation base locase n (reversed base locase n)
unfolding reversed
reversed-IsNotation base locase n power lt = elim (Bool-cases (ltb n base)) [
  | inl one ↦ reversed-one base locase n (ground arith)
  | inr more ↦ elim power [
    | inl e ↦
        subst (λ b. (ltb n b ≡ false) → IsNotation b locase n (reversed b locase n)) (sym e)
          (λ more.
            let d = put_pow2-IsDigits 8 3 locase octal 21 n (omega arith) in
            rw (more, d.1)
              (record { ds = d.0; written = refl; value = d.2; small = d.3; few = d.4 }))
          more
    | inr e ↦
        subst (λ b. (ltb n b ≡ false) → IsNotation b locase n (reversed b locase n)) (sym e)
          (λ more.
            let d = put_pow2-IsDigits 16 4 locase hex 21 n (omega arith) in
            rw (more, d.1)
              (record { ds = d.0; written = refl; value = d.2; small = d.3; few = d.4 }))
          more
  ]
]

-- The character of a digit, in lower case with the flag of bit 5.
abbrev pub char_of_digit : (flags d : ℕ) → ℕ
char_of_digit flags d =
    if ltb d 10 then b'0' + d else (if is_set flags 5 then b'a' else b'A') + (d - 10)

char_table :
    all_codes 256
      (λ f. all_codes 16 (λ d. digit_char (bit_and f small_flag) d == char_of_digit f d))
    ≡ true
unfolding all_codes
char_table = refl

digit_char-eq :
    (flags d : ℕ)
    → flags < 256
    → d < 16
    → digit_char (bit_and flags small_flag) d ≡ char_of_digit flags d
digit_char-eq flags d byte lt =
    let row =
      all_codes-at 256
        (λ f. all_codes 16 (λ d. digit_char (bit_and f small_flag) d == char_of_digit f d)) flags
        byte char_table in
    (==_iff _ _).0 (
      all_codes-at 16 (λ d. digit_char (bit_and flags small_flag) d == char_of_digit flags d) d lt
        row)

chars-eq :
    (flags : ℕ) (ds : List ℕ)
    → flags < 256
    → All (λ d. d < 16) ds
    → map (digit_char (bit_and flags small_flag)) ds ≡ map (char_of_digit flags) ds
chars-eq flags [] byte small = refl
chars-eq flags (d ∷ ds) byte small =
    λ i. digit_char-eq flags d byte small.0 i ∷ chars-eq flags ds byte small.1 i

All-below : (base : ℕ) (ds : List ℕ) → base ≤ 16 → All (λ d. d < base) ds → All (λ d. d < 16) ds
All-below base [] le small = tt
All-below base (d ∷ ds) le small = (omega (arith, small.0), All-below base ds le small.1)

length-map : (f : ℕ → ℕ) (ds : List ℕ) → length (map f ds) ≡ length ds
length-map f [] = refl
length-map f (d ∷ ds) = ap suc (length-map f ds)

-- What `number` prints in the bases 8 and 16.
pub record IsPowerPrinted (end : ℕ) (o : Out) (num : ℕ) (spec : PrintfSpec) (result : Option Out)
    : Type 0 where
  pub ds : List ℕ
  pub value : value_in spec.base ds ≡ magnitude spec.flags num
  pub small : All (λ d. d < spec.base) ds
  pub prints : result ≡ some (put_all end o (expected num spec (map (char_of_digit spec.flags) ds)))

module _ (end : ℕ) (o : Out) (num : ℕ) (spec : PrintfSpec) where
  digits_wanted-few :
      (i : ℕ)
      → (spec.precision < 32000) ⊎ (spec.precision ≡ 0xffff)
      → i ≤ 22
      → digits_wanted spec.precision i < 32000
  digits_wanted-few i precise few = ground arith

  -- In the bases 8 and 16, for a number below 2^64, flags of one byte, and a field width and a
  -- precision that are not given or not negative, the precision below 32000, number prints its
  -- field with digits below the base that stand for the absolute value of the number, signed or
  -- not as the flags say, as 0 to 9 and letters, in lower case if the flags say so.
  pub number-IsPowerPrinted :
      spec.flags < 256
      → IsPower spec.base
      → (spec.field_width < 2 ^ 15) ⊎ (spec.field_width ≡ 0xffff)
      → (spec.precision < 32000) ⊎ (spec.precision ≡ 0xffff)
      → num < 2 ^ 64
      → IsPowerPrinted end o num spec (number end o num spec)
  number-IsPowerPrinted byte power wide precise lt =
      let locase = bit_and spec.flags small_flag in
      let in_64 : magnitude spec.flags num < 2 ^ 64 = ground (arith, lt) in
      let n = reversed-IsNotation spec.base locase (magnitude spec.flags num) power in_64 in
      let few : length (map (digit_char locase) n.ds) ≤ 22 =
        omega (arith, length-map (digit_char locase) n.ds, n.few) in
      let chars =
        chars-eq spec.flags n.ds byte (All-below spec.base n.ds (omega (arith, power)) n.small) in
      record {
        ds = n.ds;
        value = n.value;
        small = n.small;
        prints =
            number-layout end o num spec (map (digit_char locase) n.ds) byte wide
              (digits_wanted-few (length (map (digit_char locase) n.ds)) precise few) lt n.written
            ∙ ap (λ cs. some (put_all end o (expected num spec cs))) chars;
      }
