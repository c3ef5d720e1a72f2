-- ===== src/StrInline/Names.antt =====
-- `strstarts` and `kbasename`.
use hlos.Base.{
  ℕ, zero, suc, ◌+◌, ◌-◌, ◌<◌, ◌≤◌, ◌≡◌, ◌≢◌, inl, inr, refl, ap, subst, ◌∙◌, Bool, true, false,
  ◌&&◌, not, List, [], ◌∷◌, ◌++◌, some, arith, length, length-append, ◌==◌, if◌then◌else◌,
}
use hlos.Bytes.{Mem}
use hlos.Links.Chain.{has}
use hlos.Str.{strrchr}
use hlos.Str.Text.{IsStr}
use hlos.Str.Length.{strlen-length}
use hlos.Str.Compare.{order_of, take, strncmp-order_of}
use hlos.Str.Search.{IsLast, strrchr-IsLast}
use hlos.StrInline.{equals_zero, strstarts, kbasename}

-- Is the first list the start of the second one?
abbrev pub is_start : List ℕ → List ℕ → Bool
is_start [] xs = true
is_start (y ∷ ys) [] = false
is_start (y ∷ ys) (x ∷ xs) = (x == y) && is_start ys xs

order_of-is_start :
    (xs ys : List ℕ)
    → equals_zero (order_of (take (length ys) xs) (take (length ys) ys)) ≡ is_start ys xs
unfolding order_of
order_of-is_start xs [] = refl
order_of-is_start [] (y ∷ ys) = refl
order_of-is_start (x ∷ xs) (y ∷ ys) = ground (arith, order_of-is_start xs ys)

-- With more fuel than the prefix has bytes, strstarts ends, and is true exactly when the bytes of the
-- prefix are the first bytes of the string.
pub strstarts-is_start :
    (fuel : ℕ) (m : Mem) (str prefix : ℕ) (xs ys : List ℕ)
    → IsStr m str xs
    → IsStr m prefix ys
    → length ys < fuel
    → strstarts fuel m str prefix ≡ some (is_start ys xs)
unfolding strstarts
strstarts-is_start fuel m str prefix xs ys h k enough =
    rw
      (strlen-length fuel m prefix ys k enough, strncmp-order_of m str prefix (length ys) xs ys h k)
      (ap some (order_of-is_start xs ys))

IsStr-right : (m : Mem) (s : ℕ) (xs ys : List ℕ) → IsStr m s (xs ++ ys) → IsStr m (s + length xs) ys
IsStr-right m s [] ys h = subst (λ p. IsStr m p ys) (omega arith) h
IsStr-right m s (x ∷ xs) ys h =
    subst (λ p. IsStr m p ys) (omega arith) (IsStr-right m (s + 1) xs ys h.2)

-- A byte behind the last `c` of a text is not `c`.
IsStr-without :
    (m : Mem) (s c : ℕ) (xs : List ℕ)
    → IsStr m s xs
    → c ≢ 0
    → has c xs ≡ false
    → (i : ℕ) → i ≤ length xs
    → m (s + i) ≢ c
IsStr-without m s c [] h ne out i le = ground (arith, h)
IsStr-without m s c (x ∷ xs) h ne out zero le = ground (arith, h.0)
IsStr-without m s c (x ∷ xs) h ne out (suc i) le =
    let rest = IsStr-without m (s + 1) c xs h.2 ne (ground arith) i (omega arith) in
    let place : s + 1 + i ≡ s + suc i = omega arith in subst (λ p. m p ≢ c) place rest

-- The last `c` of some bytes stands where no later one does.
last_place :
    (m : Mem) (s c k d p : ℕ)
    → IsLast m s c k p
    → s ≢ 0
    → m (s + d) ≡ c
    → d ≤ k
    → ((i : ℕ) → d < i → i ≤ k → m (s + i) ≢ c)
    → p ≡ s + d
last_place m s c k d p last somewhere here le after = elim last.found [
  | inl nothing ↦ absurd (last.later d le (omega (arith, nothing)) here)
  | inr (low, high, hit) ↦
      let same : s + (p - s) ≡ p = omega arith in
      let not_after = after (p - s) in
      let not_before = last.later d le in ground (arith, not_after, not_before, ap m same)
]

no_place : (m : Mem) (s c k p : ℕ) → IsLast m s c k p → ((i : ℕ) → i ≤ k → m (s + i) ≢ c) → p ≡ 0
no_place m s c k p last out = elim last.found [
  | inl nothing ↦ nothing
  | inr (low, high, hit) ↦
      let same : s + (p - s) ≡ p = omega arith in
      absurd (out (p - s) (omega arith) (ap m same ∙ hit))
]

kbasename-eq :
    (fuel : ℕ) (m : Mem) (path tail : ℕ)
    → strrchr fuel m path b'/' ≡ some tail
    → kbasename fuel m path ≡ some (if not (tail == 0) then tail + 1 else path)
unfolding kbasename
kbasename-eq fuel m path tail e = rw e refl

-- With more fuel than the path has bytes, kbasename of a path that is not at null and has a slash
-- ends, and returns the place behind the last slash, where the rest of the path stands.
pub kbasename-IsStr :
    (fuel : ℕ) (m : Mem) (path : ℕ) (dir name : List ℕ)
    → path ≢ 0
    → has b'/' name ≡ false
    → length (dir ++ b'/' ∷ name) < fuel
    → IsStr m path (dir ++ b'/' ∷ name)
    → (kbasename fuel m path ≡ some (path + (length dir + 1)))
      × IsStr m (path + (length dir + 1)) name
kbasename-IsStr fuel m path dir name somewhere plain enough h =
    let (p, found, last) = strrchr-IsLast fuel m path b'/' (dir ++ b'/' ∷ name) h enough in
    let whole = length-append dir (b'/' ∷ name) in
    let part = IsStr-right m path dir (b'/' ∷ name) h in
    let slash : m (path + length dir) ≡ b'/' = part.0 in
    let text : IsStr m (path + (length dir + 1)) name =
      subst (λ q. IsStr m q name) (omega arith) part.2 in
    let place : p ≡ path + length dir =
      last_place m path b'/' (length (dir ++ b'/' ∷ name)) (length dir) p last somewhere slash
        (omega (arith, whole)) (λ i lt le. after i lt (omega (arith, le, whole))) in
    (kbasename-eq fuel m path p found ∙ ground (arith, place), text)
  where
    after : (i : ℕ) → length dir < i → i ≤ length dir + suc (length name) → m (path + i) ≢ b'/'
    after i lt le =
        let part = IsStr-right m path dir (b'/' ∷ name) h in
        let out =
          IsStr-without m (path + length dir + 1) b'/' name part.2 (omega arith) plain
            (i - (length dir + 1)) (omega arith) in
        let same : path + length dir + 1 + (i - (length dir + 1)) ≡ path + i = omega arith in
        subst (λ q. m q ≢ b'/') same out

-- A path without a slash.
pub kbasename-plain :
    (fuel : ℕ) (m : Mem) (path : ℕ) (name : List ℕ)
    → path ≢ 0
    → has b'/' name ≡ false
    → length name < fuel
    → IsStr m path name
    → kbasename fuel m path ≡ some path
kbasename-plain fuel m path name somewhere plain enough h =
    let (p, found, last) = strrchr-IsLast fuel m path b'/' name h enough in
    let nothing =
      no_place m path b'/' (length name) p last
        (IsStr-without m path b'/' name h (omega arith) plain) in
    kbasename-eq fuel m path p found ∙ ground (arith, nothing)
