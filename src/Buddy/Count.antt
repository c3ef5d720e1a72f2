-- ===== src/Buddy/Count.antt =====
-- How many pages the free lists hold: counted block by block, and page by page.
use native.Mathlib.Nat.{one-le-pow}
use hlos.Base.{
  ℕ, zero, suc, ◌+◌, ◌-◌, ◌*◌, ◌^◌, ◌≤◌, ◌<◌, ◌≡◌, refl, ap, true, List, [], ◌∷◌, arith, ltb,
  if◌then◌else◌, length,
}
use hlos.Links.Chain.{has}
use hlos.Buddy.Spec.{FreeLists, in_block, covers_list, covers, in_block-le-covers}

-- The pages of the free blocks of the `rounds` orders from `order` on.
abbrev pub pages_of : FreeLists → (rounds order : ℕ) → ℕ
pages_of f zero order = 0
pages_of f (suc rounds) order = length (f order) * 2 ^ order + pages_of f rounds (order + 1)

abbrev pages_below : FreeLists → ℕ → ℕ
pages_below f zero = 0
pages_below f (suc k) = length (f k) * 2 ^ k + pages_below f k

pages_below-of :
    (f : FreeLists) (rounds order : ℕ)
    → pages_below f order + pages_of f rounds order ≡ pages_below f (order + rounds)
pages_below-of f zero order =
    let same : order + 0 ≡ order = omega arith in omega (arith, ap (pages_below f) same)
pages_below-of f (suc rounds) order =
    let next : order + 1 ≡ suc order = omega arith in
    let end : order + 1 + rounds ≡ order + suc rounds = omega arith in
    omega
      (arith, pages_below-of f rounds (order + 1), ap (pages_below f) next, ap (pages_below f) end)

-- The sum of a function over the pages below `n`.
abbrev total : (ℕ → ℕ) → ℕ → ℕ
total g zero = 0
total g (suc n) = g n + total g n

total-in_block :
    (p o n : ℕ)
    → total (in_block p o) n ≡ (if ltb n p then 0 else if ltb n (p + 2 ^ o) then n - p else 2 ^ o)
total-in_block p o zero = ground arith
total-in_block p o (suc n) = ground (arith, total-in_block p o n)

total-add : (g h : ℕ → ℕ) (n : ℕ) → total (λ x. g x + h x) n ≡ total g n + total h n
total-add g h zero = omega arith
total-add g h (suc n) = omega (arith, total-add g h n)

total-zero : (n : ℕ) → total (λ x. 0) n ≡ 0
total-zero zero = refl
total-zero (suc n) = omega (arith, total-zero n)

total-covers_list :
    (n o : ℕ) (xs : List ℕ)
    → ((q : ℕ) → has q xs ≡ true → q + 2 ^ o ≤ n)
    → total (covers_list o xs) n ≡ length xs * 2 ^ o
unfolding covers_list
total-covers_list n o [] h = omega (arith, total-zero n)
total-covers_list n o (q ∷ xs) h =
    let inside = h q (ground arith) in
    let rest = total-covers_list n o xs (λ r e. h r (ground arith)) in
    let sum = total-add (in_block q o) (covers_list o xs) n in
    let here : total (in_block q o) n ≡ 2 ^ o = ground (arith, total-in_block q o n, inside) in
    omega (arith, sum, here, rest)

total-covers :
    (n k : ℕ) (f : FreeLists)
    → ((o q : ℕ) → o < k → has q (f o) ≡ true → q + 2 ^ o ≤ n)
    → total (covers k f) n ≡ pages_below f k
unfolding covers
total-covers n zero f h = total-zero n
total-covers n (suc k) f h =
    let rest = total-covers n k f (λ o q lt e. h o q (omega arith) e) in
    let here = total-covers_list n k (f k) (λ q e. h k q (omega arith) e) in
    omega (arith, rest, here, total-add (covers_list k (f k)) (covers k f) n)

total-ones : (g : ℕ → ℕ) (n : ℕ) → ((x : ℕ) → x < n → g x ≡ 1) → total g n ≡ n
total-ones g zero h = refl
total-ones g (suc n) h =
    omega (arith, h n (omega arith), total-ones g n (λ x lt. h x (omega arith)))

-- If the free blocks hold the pages below `n` once each, and no other, then these are `n` pages.
pub pages_of-covers :
    (n : ℕ) (f : FreeLists)
    → ((x : ℕ) → covers 11 f x ≡ (if ltb x n then 1 else 0))
    → pages_of f 11 0 ≡ n
pages_of-covers n f covered =
    let all = total-ones (covers 11 f) n (λ x lt. ground (arith, covered x)) in
    let blocks = total-covers n 11 f (λ o q lt e. inside o q lt e) in
    omega (arith, all, blocks, pages_below-of f 11 0)
  where
    inside : (o q : ℕ) → o < 11 → has q (f o) ≡ true → q + 2 ^ o ≤ n
    inside o q lt e =
        let last = in_block-le-covers 11 f o q (q + 2 ^ o - 1) lt e in
        ground (arith, last, covered (q + 2 ^ o - 1), one-le-pow o 2)
