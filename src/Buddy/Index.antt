-- ===== src/Buddy/Index.antt =====
-- The index arithmetic of `__free_one_page`: which page is the buddy of a block, and where the pair
-- starts. A block of order `o` starts at page `c * 2048 + i * 2 ^ o`, with `i * 2 ^ o` its index.
use hlos.Base.{
  ℕ, suc, ◌+◌, ◌-◌, ◌*◌, ◌/◌, ◌%◌, ◌^◌, ◌≤◌, ◌<◌, ◌≡◌, ◌⊎◌, inl, inr, arith, bit_and, bit_xor, ap,
  ◌∙◌,
}
use hlos.Base.Bits.{bit_xor-shift, bit_and-shift, bit_xor-one, bit_and-flip, bit_and-mask, pow_add}
use native.Mathlib.Nat.{pow-suc, pow-le-pow_right, one-le-pow, mod-lt, div-add-mod}
use hlos.Buddy.{page_at, find_buddy_index}

find_buddy_index-shift :
    (i o : ℕ) → find_buddy_index (i * 2 ^ o) o ≡ (i / 2 * 2 + (1 - i % 2)) * 2 ^ o
unfolding find_buddy_index
find_buddy_index-shift i o =
    let one : 2 ^ o ≡ 1 * 2 ^ o = omega arith in
    ap (bit_xor (i * 2 ^ o)) one ∙ bit_xor-shift o i 1 ∙ ap (λ (t : ℕ). t * 2 ^ o) (bit_xor-one i)

combined-shift :
    (i o : ℕ) → bit_and (find_buddy_index (i * 2 ^ o) o) (i * 2 ^ o) ≡ i / 2 * 2 * 2 ^ o
unfolding find_buddy_index
combined-shift i o =
    let one : 2 ^ o ≡ 1 * 2 ^ o = omega arith in
    ap (λ (t : ℕ). bit_and (bit_xor (i * 2 ^ o) t) (i * 2 ^ o)) one
    ∙ ap (λ (t : ℕ). bit_and t (i * 2 ^ o)) (bit_xor-shift o i 1)
    ∙ bit_and-shift o (bit_xor i 1) i
    ∙ ap (λ (t : ℕ). t * 2 ^ o) (bit_and-flip i)

-- Unsigned differences of indices move a page by the true difference.
pub page_at-exact :
    (page to from : ℕ)
    → from ≤ page
    → page < 2 ^ 31
    → to < 2 ^ 30
    → page_at page to from ≡ page + to - from
page_at-exact page to from p q r = omega arith

-- A block of order `o` at `page`: `idx` is its index within its 2048 pages.
pub record IsBlock (page idx o c i : ℕ) : Type 0 where
  pub place : page ≡ c * 2048 + i * 2 ^ o
  pub index : idx ≡ i * 2 ^ o
  pub small : idx < 2048

-- What one round of the `while` computes: the buddy stands right behind the block or right before
-- it, and the pair is the block of the next order that starts at the lower of the two.
pub record IsPair (page idx o c i : ℕ) : Type 0 where
  pub side :
      ((page_at page (bit_and (find_buddy_index idx o) idx) idx ≡ page)
        × (page_at page (find_buddy_index idx o) idx ≡ page + 2 ^ o))
      ⊎ ((page_at page (bit_and (find_buddy_index idx o) idx) idx
            ≡ page_at page (find_buddy_index idx o) idx)
          × (page ≡ page_at page (find_buddy_index idx o) idx + 2 ^ o))
  pub next :
      IsBlock
        (page_at page (bit_and (find_buddy_index idx o) idx) idx)
        (bit_and (find_buddy_index idx o) idx)
        (suc o)
        c
        (i / 2)

IsBlock-numbers :
    (page idx o c i b k S : ℕ)
    → page ≡ c * 2048 + i * S
    → idx ≡ i * S
    → idx < 2048
    → S ≤ 512
    → page < 2 ^ 31
    → b ≡ (i / 2 * 2 + (1 - i % 2)) * S
    → k ≡ i / 2 * 2 * S
    → (((page_at page k idx ≡ page) × (page_at page b idx ≡ page + S))
        ⊎ ((page_at page k idx ≡ page_at page b idx) × (page ≡ page_at page b idx + S)))
      × (page_at page k idx ≡ c * 2048 + i / 2 * (S * 2))
      × (k ≡ i / 2 * (S * 2))
      × (k < 2048)
IsBlock-numbers page idx o c i b k S place index small fits top eb ek =
    let h = i / 2 in
    elim (even_or_odd i) [
      | inl e ↦
          let is : i * S ≡ h * 2 * S = ap (λ (t : ℕ). t * S) e in
          let bs : b ≡ (h * 2 + 1) * S = eb ∙ ap (λ (t : ℕ). (h * 2 + t) * S) (omega arith) in
          let kk : page_at page k idx ≡ page + k - idx =
            page_at-exact page k idx (omega arith) top (omega arith) in
          let bb : page_at page b idx ≡ page + b - idx =
            page_at-exact page b idx (omega arith) top (omega arith) in
          (inl (omega arith, omega arith), omega arith, omega arith, omega arith)
      | inr e ↦
          let is : i * S ≡ (h * 2 + 1) * S = ap (λ (t : ℕ). t * S) e in
          let bs : b ≡ (h * 2 + 0) * S = eb ∙ ap (λ (t : ℕ). (h * 2 + t) * S) (omega arith) in
          let kk : page_at page k idx ≡ page + k - idx =
            page_at-exact page k idx (omega arith) top (omega arith) in
          let bb : page_at page b idx ≡ page + b - idx =
            page_at-exact page b idx (omega arith) top (omega arith) in
          (inr (omega arith, omega arith), omega arith, omega arith, omega arith)
    ]
  where
    even_or_odd : (n : ℕ) → (n ≡ n / 2 * 2) ⊎ (n ≡ n / 2 * 2 + 1)
    even_or_odd n = omega arith

pow-le-512 : (o : ℕ) → o ≤ 9 → 2 ^ o ≤ 512
pow-le-512 o h = pow-le-pow_right {n = 2} (omega arith) h

pub IsBlock-IsPair :
    (page idx o c i : ℕ) → IsBlock page idx o c i → o ≤ 9 → page < 2 ^ 31 → IsPair page idx o c i
IsBlock-IsPair page idx o c i block low top =
    let b = find_buddy_index idx o in
    let eb : b ≡ (i / 2 * 2 + (1 - i % 2)) * 2 ^ o =
      ap (λ (t : ℕ). find_buddy_index t o) block.index ∙ find_buddy_index-shift i o in
    let ek : bit_and b idx ≡ i / 2 * 2 * 2 ^ o =
      ap (λ (t : ℕ). bit_and (find_buddy_index t o) t) block.index ∙ combined-shift i o in
    let r =
      IsBlock-numbers page idx o c i b (bit_and b idx) (2 ^ o) block.place block.index block.small
        (pow-le-512 o low) top eb ek in
    let double : 2 ^ suc o ≡ 2 ^ o * 2 = pow-suc 2 o in
    record {
      side = r.0;
      next = record { place = rw double r.1; index = rw double r.2; small = r.3 };
    }

below : (r k S : ℕ) → k * S ≡ 2048 → r < k → 1 ≤ S → r * S < 2048
below r k S e h p = grind (arith, mul_lt r k S)
  where
    mul_lt : (r k S : ℕ) → r < k → 1 ≤ S → r * S < k * S
    mul_lt r k S h p = grind arith

-- An aligned block has such an index, and the other way round.
pub aligned-IsBlock :
    (q o : ℕ)
    → o ≤ 10
    → IsBlock (q * 2 ^ o) (bit_and (q * 2 ^ o) (2 ^ 11 - 1)) o (q / 2 ^ (11 - o)) (q % 2 ^ (11 - o))
aligned-IsBlock q o h =
    let k : ℕ = 2 ^ (11 - o) in
    let S : ℕ = 2 ^ o in
    let e : 11 - o + o ≡ 11 = omega arith in
    let split : k * S ≡ 2048 = pow_add (11 - o) o ∙ ap (λ (t : ℕ). 2 ^ t) e in
    let pos : 1 ≤ k = one-le-pow (11 - o) 2 (omega arith) in
    let place : q * S ≡ q / k * 2048 + q % k * S =
      omega (arith, ap (λ (t : ℕ). t * S) (div-add-mod q k), ap (λ (t : ℕ). q / k * t) split) in
    let small : q % k * S < 2048 =
      below (q % k) k S split (mod-lt q pos) (one-le-pow o 2 (omega arith)) in
    let index : bit_and (q * S) 2047 ≡ q % k * S =
      omega (arith, bit_and-mask 11 (q * S), place, small) in
    record { place = place; index = index; small = rw index small }

pub IsBlock-aligned :
    (page idx o c i : ℕ) → IsBlock page idx o c i → o ≤ 11 → page ≡ (c * 2 ^ (11 - o) + i) * 2 ^ o
IsBlock-aligned page idx o c i block h =
    let e : 11 - o + o ≡ 11 = omega arith in
    let split : 2 ^ (11 - o) * 2 ^ o ≡ 2048 = pow_add (11 - o) o ∙ ap (λ (t : ℕ). 2 ^ t) e in
    omega (arith, block.place, ap (λ (t : ℕ). c * t) split)
