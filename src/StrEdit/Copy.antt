-- ===== src/StrEdit/Copy.antt =====
-- `strcpy`, `strcat`, `strncpy` and `strlcpy`.
use hlos.Base.{
  ℕ, zero, suc, ◌+◌, ◌-◌, ◌<◌, ◌≤◌, ◌≡◌, ◌⊎◌, inl, subst, false, List, [], ◌∷◌, ◌++◌, some, arith,
  length, min, leb, ltb, ◌==◌, if◌then◌else◌,
}
use hlos.Bytes.{Mem, poke, memcpy}
use hlos.Bytes.Move.{IsCopied, memcpy-IsCopied}
use hlos.Str.Text.{IsStr}
use hlos.Str.Length.{strlen-length}
use hlos.Str.Compare.{take}
use hlos.StrEdit.{strcpy, strncpy, strlcpy, string_end, strcat}

-- A string that stands elsewhere, or in a later memory, byte for byte.
pub IsStr-same :
    (m r : Mem) (s d : ℕ) (xs : List ℕ)
    → ((i : ℕ) → i ≤ length xs → r (d + i) ≡ m (s + i))
    → IsStr m s xs
    → IsStr r d xs
IsStr-same m r s d [] e h = ground (arith, e 0)
IsStr-same m r s d (x ∷ xs) e h = (
  ground (arith, e 0, h.0),
  h.1,
  IsStr-same m r (s + 1) (d + 1) xs (λ i le. ground (arith, e (suc i))) h.2,
)

IsStr-poke :
    (m : Mem) (p v s : ℕ) (xs : List ℕ)
    → (p < s) ⊎ (s + length xs < p)
    → IsStr m s xs
    → IsStr (poke m p v) s xs
IsStr-poke m p v s xs out h = IsStr-same m (poke m p v) s s xs (λ i le. ground arith) h

strcpy-step :
    (m : Mem) (dest src n : ℕ) (result : Mem)
    → (dest ≤ src) ⊎ (src + n < dest)
    → IsCopied (poke m dest (m src)) (dest + 1) (src + 1) n result
    → IsCopied m dest src (suc n) result
strcpy-step m dest src n result apart rest = record {
  inside = up;
  outside = λ a h. ground (arith, rest.outside a);
}
  where
    up : (i : ℕ) → i < suc n → result (dest + i) ≡ m (src + i)
    up zero h = ground (arith, rest.outside dest)
    up (suc i) h = ground (arith, rest.inside i)

-- With more fuel than the string has bytes, and a destination at or below the source or behind
-- its NUL, `strcpy` ends, copies the string with its NUL and writes nothing else.
pub strcpy-IsCopied :
    (fuel : ℕ) (m : Mem) (dest src : ℕ) (xs : List ℕ)
    → IsStr m src xs
    → (dest ≤ src) ⊎ (src + length xs < dest)
    → length xs < fuel
    → (m' : Mem) × (strcpy fuel m dest src ≡ some m')
      × IsCopied m dest src (length xs + 1) m'
      × IsStr m' dest xs
unfolding strcpy
strcpy-IsCopied zero m dest src xs h apart l = absurd (omega arith)
strcpy-IsCopied (suc fuel) m dest src [] h apart l = (
  poke m dest (m src),
  ground arith,
  record { inside = λ i k. ground arith; outside = λ a k. ground arith },
  ground arith,
)
strcpy-IsCopied (suc fuel) m dest src (x ∷ xs) h apart l =
    let rest =
      strcpy-IsCopied fuel (poke m dest (m src)) (dest + 1) (src + 1) xs
        (IsStr-poke m dest (m src) (src + 1) xs (omega arith) h.2) (omega arith) (omega arith) in
    let copied : IsCopied m dest src (length (x ∷ xs) + 1) rest.0 =
      subst (λ n. IsCopied m dest src n rest.0) (omega arith)
        (strcpy-step m dest src (length xs + 1) rest.0 (omega arith) rest.2) in
    (
      rest.0,
      ground (arith, h.0, h.1, rest.1),
      copied,
      (ground (arith, copied.inside 0, h.0), h.1, rest.3),
    )

string_end-length :
    (fuel : ℕ) (m : Mem) (s : ℕ) (xs : List ℕ)
    → IsStr m s xs
    → length xs < fuel
    → string_end fuel m s ≡ some (s + length xs)
unfolding string_end
string_end-length zero m s xs h l = absurd (omega arith)
string_end-length (suc fuel) m s [] h l = ground arith
string_end-length (suc fuel) m s (x ∷ xs) h l =
    ground (arith, h.0, h.1, string_end-length fuel m (s + 1) xs h.2)

-- Two strings, one where the other one ends.
IsStr-append :
    (m r : Mem) (s : ℕ) (xs ys : List ℕ)
    → IsStr m s xs
    → ((a : ℕ) → a < s + length xs → r a ≡ m a)
    → IsStr r (s + length xs) ys
    → IsStr r s (xs ++ ys)
IsStr-append m r s [] ys h e k = subst (λ t. IsStr r t ys) (omega arith) k
IsStr-append m r s (x ∷ xs) ys h e k = (
  ground (arith, e s, h.0),
  h.1,
  IsStr-append m r (s + 1) xs ys h.2 (λ a lt. e a (omega arith))
      (subst (λ t. IsStr r t ys) (omega arith) k),
)

-- With more fuel than either string has bytes, and the end of the first string at or below
-- the second one or behind its NUL, `strcat` puts the second string behind the first one and
-- writes nothing outside the result.
pub strcat-append :
    (fuel : ℕ) (m : Mem) (dest src : ℕ) (xs ys : List ℕ)
    → IsStr m dest xs
    → IsStr m src ys
    → (dest + length xs ≤ src) ⊎ (src + length ys < dest + length xs)
    → length xs < fuel
    → length ys < fuel
    → (m' : Mem) × (strcat fuel m dest src ≡ some m')
      × IsStr m' dest (xs ++ ys)
      × ((a : ℕ) → (a < dest) ⊎ (dest + length xs + length ys < a) → m' a ≡ m a)
unfolding strcat
strcat-append fuel m dest src xs ys h k apart l1 l2 =
    let c = strcpy-IsCopied fuel m (dest + length xs) src ys k apart l2 in
    (
      c.0,
      rw (strcat, string_end-length fuel m dest xs h l1) c.1,
      IsStr-append m c.0 dest xs ys h (λ a lt. c.2.outside a (inl lt)) c.3,
      λ a out. c.2.outside a (omega arith),
    )

-- If the destination area ends at or below the source or starts behind its NUL, `strncpy` writes
-- exactly count bytes: the string cut to count, and NULs behind it.
pub strncpy_lem :
    (m : Mem) (dest src count : ℕ) (xs : List ℕ)
    → IsStr m src xs
    → (dest + count ≤ src) ⊎ (src + length xs < dest)
    → (a : ℕ)
    → strncpy m dest src count a ≡ (
        if ltb a dest
        then m a
        else if leb (dest + count) a
        then m a
        else if ltb (a - dest) (length xs)
        then m (src + (a - dest))
        else 0)
unfolding strncpy
strncpy_lem m dest src zero xs h apart a = ground arith
strncpy_lem m dest src (suc count) [] h apart a = ground (
  arith,
  strncpy_lem (poke m dest (m src)) (dest + 1) src count [] (ground arith) (omega arith) a,
)
strncpy_lem m dest src (suc count) (x ∷ xs) h apart a =
    let present : (m src == 0) ≡ false = ground (arith, h.0, h.1) in
    let rest =
      strncpy_lem (poke m dest (m src)) (dest + 1) (src + 1) count xs
        (IsStr-poke m dest (m src) (src + 1) xs (omega arith) h.2) (omega arith) a in
    rw present (ground (arith, rest))

IsStr-take :
    (m r : Mem) (s d n : ℕ) (xs : List ℕ)
    → ((i : ℕ) → i < min n (length xs) → r (d + i) ≡ m (s + i))
    → r (d + min n (length xs)) ≡ 0
    → IsStr m s xs
    → IsStr r d (take n xs)
IsStr-take m r s d zero xs e z h = subst (λ a. r a ≡ 0) (omega arith) z
IsStr-take m r s d (suc n) [] e z h = subst (λ a. r a ≡ 0) (omega arith) z
IsStr-take m r s d (suc n) (x ∷ xs) e z h = (
  ground (arith, e 0, h.0),
  h.1,
  IsStr-take m r (s + 1) (d + 1) n xs (λ i lt. ground (arith, e (suc i)))
      (subst (λ a. r a ≡ 0) (omega arith) z) h.2,
)

-- With more fuel than the string has bytes, and a destination at or below the source or not
-- below its NUL, `strlcpy` into a buffer of at least one byte leaves there the string cut so
-- that its NUL fits too, writes nothing outside the buffer, and returns the length of the whole
-- string.
pub strlcpy-take :
    (fuel : ℕ) (m : Mem) (dest src n : ℕ) (xs : List ℕ)
    → IsStr m src xs
    → (dest ≤ src) ⊎ (src + length xs ≤ dest)
    → length xs < fuel
    → (m' : Mem) × (strlcpy fuel m dest src (suc n) ≡ some (length xs, m'))
      × IsStr m' dest (take n xs)
      × ((a : ℕ) → (a < dest) ⊎ (dest + suc n ≤ a) → m' a ≡ m a)
unfolding strlcpy
strlcpy-take fuel m dest src n xs h apart l =
    let len = min n (length xs) in
    let c : IsCopied m dest src len (memcpy m dest src len) =
      memcpy-IsCopied m dest src len (omega arith) in
    let cut : (if leb (suc n) (length xs) then suc n - 1 else length xs) ≡ len = ground arith in
    let m' : Mem = poke (memcpy m dest src len) (dest + len) 0 in
    (
      m',
      rw (strlcpy, strlen-length fuel m src xs h l) (rw cut (ground arith)),
      IsStr-take m m' src dest n xs (λ i lt. ground (arith, c.inside i)) (ground arith) h,
      λ a out. ground (arith, c.outside a),
    )
