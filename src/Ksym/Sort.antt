-- ===== src/Ksym/Sort.antt =====
-- The sort of the symbol table.
use hlos.Base.{
  ℕ, zero, suc, ◌+◌, ◌-◌, ◌<◌, ◌≤◌, ◌≡◌, ◌≢◌, refl, ap, ◌∙◌, Bool-cases, inl, inr, ◌⊎◌, arith, ◌==◌,
  ==_iff, ltb, subst,
}
use hlos.Links.{update}
use hlos.Ksym.{Symbols, scan, swap, sort_step, sort_loop}

-- `r` is the place and `v` the value of a least address among those at `idx` and from `k` to `e`.
record IsLeast (addr : ℕ → ℕ) (k idx e r v : ℕ) : Type 0 where
  value : v ≡ addr r
  place : (r ≡ idx) ⊎ ((k ≤ r) × (r < e))
  least : (j : ℕ) → k ≤ j → j < e → v ≤ addr j
  start : v ≤ addr idx

scan-IsLeast :
    (count : ℕ) (addr : ℕ → ℕ) (k idx : ℕ)
    → let r = scan count addr k idx (addr idx) in IsLeast addr k idx (k + count) r.0 r.1
unfolding scan
scan-IsLeast zero addr k idx = record {
  value = refl;
  place = inl refl;
  least = λ j a b. absurd (omega arith);
  start = omega arith;
}
scan-IsLeast (suc count) addr k idx = elim (Bool-cases (ltb (addr k) (addr idx))) [
  | inl less ↦
      let rest = scan-IsLeast count addr (k + 1) k in
      rw less (record {
        value = rest.value;
        place = inr (ground (arith, rest.place));
        least = λ j a b. ground (arith, rest.least j, rest.start);
        start = ground (arith, rest.start);
      })
  | inr not_less ↦
      let rest = scan-IsLeast count addr (k + 1) idx in
      rw not_less (record {
        value = rest.value;
        place = ground (arith, rest.place);
        least = λ j a b. ground (arith, rest.least j, rest.start);
        start = rest.start;
      })
]

-- The addresses below `i` are in order, and none of them is above a later one.
abbrev pub IsSortedTo : ℕ → Symbols → Type 0
IsSortedTo i s = (j k : ℕ) → j < k → j < i → k < s.num → s.addr j ≤ s.addr k

-- The sum of `h` over the places below `n`.
unfoldable pub total : ℕ → (ℕ → ℕ) → ℕ
total zero h = 0
total (suc n) h = h n + total n h

total-ap : (n : ℕ) (h g : ℕ → ℕ) → ((i : ℕ) → i < n → h i ≡ g i) → total n h ≡ total n g
unfolding total
total-ap zero h g e = refl
total-ap (suc n) h g e =
    omega (arith, e n (omega arith), total-ap n h g (λ i lt. e i (omega arith)))

total-update : (n : ℕ) (h : ℕ → ℕ) (p v : ℕ) → p < n → total n (update h p v) + h p ≡ total n h + v
unfolding total
total-update zero h p v lt = absurd (omega arith)
total-update (suc n) h p v lt = elim (Bool-cases (n == p)) [
  | inl e ↦
      let here : n ≡ p = (==_iff n p).0 e in
      let value : update h p v n ≡ v = rw e refl in
      omega (arith, value, ap h here, total-ap n (update h p v) h (λ i k. ground arith))
  | inr e ↦
      let value : update h p v n ≡ h n = rw e refl in
      let ne : n ≢ p = ground arith in omega (arith, value, total-update n h p v (omega arith))
]

module _ (s : Symbols) (i idx t : ℕ) (first : i < idx) (last : idx < s.num)
    (value : t ≡ s.addr idx) where
  swap-IsSortedTo :
      ((k : ℕ) → i < k → k < s.num → t ≤ s.addr k)
      → t ≤ s.addr i
      → IsSortedTo i s
      → IsSortedTo (i + 1) (swap s i idx t)
  unfolding swap
  swap-IsSortedTo least start sorted j k lt below top =
      ground (arith, sorted j k, sorted j i, sorted j idx, least k, start)

  swap-total :
      (w : ℕ → ℕ → ℕ)
      → total s.num (λ p. w ((swap s i idx t).addr p) ((swap s i idx t).name p))
        ≡ total s.num (λ p. w (s.addr p) (s.name p))
  unfolding swap
  swap-total w =
      let h : ℕ → ℕ = λ p. w (s.addr p) (s.name p) in
      let g : ℕ → ℕ = update h idx (h i) in
      let kept : g i ≡ h i = ground arith in
      total-ap s.num _ (update g i (h idx)) (λ p lt. at p)
      ∙ omega (
        arith,
        kept,
        total-update s.num g i (h idx) (omega arith),
        total-update s.num h idx (h i) last,
      )
    where
      at :
          (p : ℕ)
          → w ((swap s i idx t).addr p) ((swap s i idx t).name p)
            ≡ update
                (update (λ p. w (s.addr p) (s.name p)) idx (w (s.addr i) (s.name i)))
                i
                (w (s.addr idx) (s.name idx))
                p
      at p = elim (Bool-cases (p == i)) [
        | inl e ↦ rw e (ap (λ a. w a (s.name idx)) value)
        | inr e ↦ rw e (elim (Bool-cases (p == idx)) [ inl f ↦ rw f refl | inr f ↦ rw f refl ])
      ]

-- `result` has the entries of `s`, as often, and its addresses below `i` are in order.
pub record IsSorting (s : Symbols) (i : ℕ) (result : Symbols) : Type 0 where
  pub same_num : result.num ≡ s.num
  pub sorted : IsSortedTo i result
  pub same_entries :
      (w : ℕ → ℕ → ℕ)
      → total s.num (λ p. w (result.addr p) (result.name p))
        ≡ total s.num (λ p. w (s.addr p) (s.name p))

sort_step-IsSorting :
    (s : Symbols) (i : ℕ) → i < s.num → IsSortedTo i s → IsSorting s (i + 1) (sort_step s i)
unfolding sort_step
sort_step-IsSorting s i lt sorted =
    let r = scan (s.num - (i + 1)) s.addr (i + 1) i (s.addr i) in
    let least = scan-IsLeast (s.num - (i + 1)) s.addr (i + 1) i in
    elim (Bool-cases (i == r.0)) [
      | inl e ↦
          let here : i ≡ r.0 = (==_iff i r.0).0 e in
          rw e (record {
            same_num = refl;
            sorted = λ j k a b c. elim (Bool-cases (j == i)) [
              | inl f ↦
                  let at : j ≡ i = (==_iff j i).0 f in
                  omega (arith, least.least k, least.value, ap s.addr here, ap s.addr at)
              | inr f ↦ sorted j k a (ground arith) c
            ];
            same_entries = λ w. refl;
          })
      | inr e ↦
          let first : i < r.0 = ground (arith, least.place) in
          let last : r.0 < s.num = ground (arith, least.place) in
          rw e (record {
            same_num = unfold swap in refl;
            sorted =
                swap-IsSortedTo s i r.0 r.1 first last least.value
                  (λ k a b. least.least k (omega arith) (omega arith)) least.start sorted;
            same_entries = swap-total s i r.0 r.1 first last least.value;
          })
    ]

sort_loop-IsSorting :
    (count : ℕ) (s : Symbols) (i : ℕ)
    → i + count ≡ s.num
    → IsSortedTo i s
    → IsSorting s (i + count) (sort_loop count s i)
unfolding sort_loop
sort_loop-IsSorting zero s i e sorted = record {
  same_num = refl;
  sorted = subst (λ n. IsSortedTo n s) (omega arith) sorted;
  same_entries = λ w. refl;
}
sort_loop-IsSorting (suc count) s i e sorted =
    let one = sort_step-IsSorting s i (omega arith) sorted in
    let rest =
      sort_loop-IsSorting count (sort_step s i) (i + 1) (omega (arith, one.same_num)) one.sorted in
    record {
      same_num = rest.same_num ∙ one.same_num;
      sorted =
          subst (λ n. IsSortedTo n (sort_loop count (sort_step s i) (i + 1))) (omega arith)
            rest.sorted;
      same_entries = λ w.
          subst
            (λ n.
              total n (λ p.
                w ((sort_loop count (sort_step s i) (i + 1)).addr p)
                  ((sort_loop count (sort_step s i) (i + 1)).name p))
              ≡ total n (λ p. w ((sort_step s i).addr p) ((sort_step s i).name p)))
            one.same_num (rest.same_entries w)
          ∙ one.same_entries w;
    }

-- The sort of `load_ksym_from_multiboot` puts the addresses in order and keeps the entries, each
-- an address with its name: any quantity summed over the entries stays the same.
pub sort_loop-sorts : (s : Symbols) → IsSorting s s.num (sort_loop s.num s 0)
sort_loop-sorts s =
    subst (λ n. IsSorting s n (sort_loop s.num s 0)) (omega arith)
      (sort_loop-IsSorting s.num s 0 (omega arith) (λ j k a b c. absurd (omega arith)))
