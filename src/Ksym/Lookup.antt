-- ===== src/Ksym/Lookup.antt =====
-- The lookup of an address in the sorted table.
use hlos.Base.{
  ℕ, zero, suc, ◌+◌, ◌-◌, ◌/◌, ◌%◌, ◌^◌, ◌<◌, ◌≤◌, ◌≡◌, ◌≢◌, refl, sym, ap, ◌∙◌, Bool-cases, inl,
  inr, ◌⊎◌, some, arith, ◌==◌, ==_iff, leb, leb→le, ltb, subst,
}
use hlos.Ksym.{Symbols, search_loop, first_alias, get_symbol_pos}
use hlos.Ksym.Sort.{IsSortedTo}

search_loop_lem :
    (fuel : ℕ) (addrs : ℕ → ℕ) (addr low high : ℕ)
    → high - low ≤ fuel
    → low < high
    → 0 < fuel
    → addrs low ≤ addr
    → (p : ℕ) × (search_loop fuel addrs addr low high ≡ some p)
      × (low ≤ p)
      × (p < high)
      × (addrs p ≤ addr)
      × ((p + 1 ≡ high) ⊎ (addr < addrs (p + 1)))
unfolding search_loop
search_loop_lem zero addrs addr low high enough some_left top below = absurd (omega arith)
search_loop_lem (suc fuel) addrs addr low high enough some_left top below =
    elim (Bool-cases (ltb 1 (high - low))) [
      | inr done ↦ rw done (low, refl, omega arith, omega arith, below, inl (ground arith))
      | inl more ↦
          let mid = low + (high - low) / 2 in
          let wide : 1 < high - low = ground arith in
          rw more (elim (Bool-cases (leb (addrs mid) addr)) [
            | inl up ↦
                let rest =
                  search_loop_lem fuel addrs addr mid high (omega arith) (omega arith) (omega arith)
                    (ground arith) in
                rw up (rest.0, rest.1, omega (arith, rest.2), rest.3, rest.4, rest.5)
            | inr down ↦
                let rest =
                  search_loop_lem fuel addrs addr low mid (omega arith) (omega arith) (omega arith)
                    below in
                let above : addr < addrs mid = ground arith in
                rw down (
                  rest.0,
                  rest.1,
                  rest.2,
                  omega (arith, rest.3),
                  rest.4,
                  elim rest.5 [
                    | inl at ↦ inr (subst (λ q. addr < addrs q) (sym at) above)
                    | inr on ↦ inr on
                  ],
                )
          ])
    ]

first_alias_lem :
    (addrs : ℕ → ℕ) (low : ℕ)
    → (first_alias addrs low ≤ low)
      × (addrs (first_alias addrs low) ≡ addrs low)
      × ((first_alias addrs low ≡ 0)
          ⊎ (addrs (first_alias addrs low - 1) ≢ addrs (first_alias addrs low)))
unfolding first_alias
first_alias_lem addrs zero = (omega arith, refl, inl refl)
first_alias_lem addrs (suc low) = elim (Bool-cases (addrs low == addrs (suc low))) [
  | inl same ↦
      let rest = first_alias_lem addrs low in
      rw same (omega (arith, rest.0), rest.1 ∙ (==_iff _ _).0 same, rest.2)
  | inr differs ↦ rw differs (omega arith, refl, inr (ground arith))
]

-- `p` is the first place with the greatest address that is not above `addr`.
pub record IsPosition (s : Symbols) (addr p : ℕ) : Type 0 where
  pub inside : p < s.num
  pub not_above : s.addr p ≤ addr
  pub nearest : (k : ℕ) → k < s.num → s.addr k ≤ addr → s.addr k ≤ s.addr p
  pub first : (k : ℕ) → k < p → s.addr k < s.addr p

le-sorted : (s : Symbols) (j k : ℕ) → IsSortedTo s.num s → j ≤ k → k < s.num → s.addr j ≤ s.addr k
le-sorted s j k sorted le lt = elim (Bool-cases (j == k)) [
  | inl e ↦ omega (arith, ap s.addr ((==_iff j k).0 e))
  | inr e ↦ sorted j k (ground arith) (omega arith) lt
]

-- On a sorted table that is not empty and starts at or below the address, with at least as much
-- fuel as symbols, `get_symbol_pos` ends with the first of the symbols nearest below the address
-- and with the distance to it.
pub get_symbol_pos-IsPosition :
    (fuel : ℕ) (s : Symbols) (addr : ℕ)
    → IsSortedTo s.num s
    → 0 < s.num
    → s.num ≤ fuel
    → s.addr 0 ≤ addr
    → addr < 2 ^ 32
    → (p : ℕ) × (get_symbol_pos fuel s addr ≡ some (p, addr - s.addr p)) × IsPosition s addr p
unfolding get_symbol_pos
get_symbol_pos-IsPosition fuel s addr sorted filled enough below small =
    let found = search_loop_lem fuel s.addr addr 0 s.num (omega arith) filled (omega arith) below in
    let q = found.0 in
    let alias = first_alias_lem s.addr q in
    let p = first_alias s.addr q in
    let wrap : (addr + 2 ^ 32 - s.addr p) % 2 ^ 32 ≡ addr - s.addr p =
      omega (arith, alias.1, found.4) in
    (
      p,
      rw (get_symbol_pos, found.1) (ap (λ d. some (p, d)) wrap),
      record {
        inside = omega (arith, alias.0, found.3);
        not_above = omega (arith, alias.1, found.4);
        nearest = λ k lt le. elim (Bool-cases (leb k q)) [
          | inl early ↦ omega (arith, alias.1, le-sorted s k q sorted (leb→le k q early) found.3)
          | inr late ↦
              let after : q + 1 ≤ k = ground arith in
              elim found.5 [
                | inl end ↦ absurd (omega arith)
                | inr over ↦ absurd (omega (arith, le-sorted s (q + 1) k sorted after lt))
              ]
        ];
        first = λ k lt. elim alias.2 [
          | inl zero_place ↦ absurd (omega arith)
          | inr differs ↦ omega (
            arith,
            differs,
            alias.0,
            found.3,
            le-sorted s (p - 1) p sorted (omega arith) (omega (arith, alias.0, found.3)),
            le-sorted s k (p - 1) sorted (omega arith) (omega (arith, alias.0, found.3)),
          )
        ];
      },
    )
