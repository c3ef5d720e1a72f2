-- ===== src/Boot/Mapping.antt =====
-- What the tables of `mmap_tmp_page` map.
use hlos.Base.{
  ℕ, zero, suc, ◌+◌, ◌*◌, ◌/◌, ◌%◌, ◌^◌, ◌<◌, ◌≤◌, ◌≡◌, ◌≢◌, inl, inr, refl, ap, ◌∙◌, false,
  Bool-cases, arith, ◌==◌, ==_refl, ne→==,
}
use hlos.Bytes.{Mem, poke}
use hlos.Pmm.{kernbase, pgd_index, pte_index, pfn_phys, present_writable, page_entry, fill_table}
use hlos.Pmm.Tables.{pgd_index-mod, pte_index-mod, fill_table-at, fill_table-outside}
use hlos.Boot.{page_map_size, set_high_entries, mmap_tmp_page}

-- The tables lead from the virtual address `v` to the physical address `p`, by the page table at
-- `table`.
pub record IsTmpMapped (pgd_tmp table : ℕ) (w : Mem) (v p : ℕ) : Type 0 where
  pub directory : w (pgd_tmp + 4 * pgd_index v) ≡ present_writable table
  pub entry : w (table + 4 * pte_index v) ≡ present_writable (p / 4096 * 4096)

module _ (pgd_tmp pte_low pte_high : ℕ) where
  high_index : (i : ℕ) → i < 4 → pgd_index ((kernbase + page_map_size * i) % 2 ^ 32) ≡ 768 + i
  high_index i lt = omega (arith, pgd_index-mod ((kernbase + page_map_size * i) % 2 ^ 32))

  high_entries-at :
      (w : Mem) (n i : ℕ)
      → n ≤ 4
      → i < n
      → set_high_entries pgd_tmp pte_low pte_high w n (pgd_tmp + 4 * (768 + i))
        ≡ present_writable ((pte_high + 4096 * i) % 2 ^ 32)
  unfolding set_high_entries
  high_entries-at w zero i le lt = absurd (omega arith)
  high_entries-at w (suc n) i le lt = rw (high_index n (omega arith)) (elim (Bool-cases (i == n)) [
    | inl e ↦
        let same : i ≡ n = ground arith in rw same (rw (==_refl (pgd_tmp + 4 * (768 + n))) refl)
    | inr e ↦
        let ne : i ≢ n = ground arith in
        let other : (pgd_tmp + 4 * (768 + i) == pgd_tmp + 4 * (768 + n)) ≡ false =
          ne→== _ _ (omega (arith, ne)) in
        rw other (high_entries-at w n i (omega arith) (omega (arith, ne)))
  ])

  high_entries-below :
      (w : Mem) (n : ℕ) → n ≤ 4 → set_high_entries pgd_tmp pte_low pte_high w n pgd_tmp ≡ w pgd_tmp
  unfolding set_high_entries
  high_entries-below w zero le = refl
  high_entries-below w (suc n) le =
      let other : (pgd_tmp == pgd_tmp + 4 * (768 + n)) ≡ false = ne→== _ _ (omega arith) in
      rw (high_index n (omega arith), other) (high_entries-below w n (omega arith))

  module _ (w : Mem) (low : pgd_tmp + 4096 ≤ pte_low) (high : pte_low + 4096 ≤ pte_high) where
    abbrev w1 : Mem
    w1 = poke w pgd_tmp (present_writable pte_low)

    abbrev w2 : Mem
    w2 = set_high_entries pgd_tmp pte_low pte_high w1 4

    abbrev w3 : Mem
    w3 = fill_table pte_low page_entry w2 1024

    directory-kept : (a : ℕ) → a < pte_low → mmap_tmp_page pgd_tmp pte_low pte_high w a ≡ w2 a
    unfolding mmap_tmp_page
    directory-kept a lt =
        fill_table-outside pte_high page_entry w3 4096 a (inl (omega (arith, high)))
        ∙ fill_table-outside pte_low page_entry w2 1024 a (inl lt)

    -- The tables map the first 4 MB to themselves.
    pub mmap_tmp_page-identity :
        (p : ℕ)
        → p < 2 ^ 22
        → IsTmpMapped pgd_tmp pte_low (mmap_tmp_page pgd_tmp pte_low pte_high w) p p
    unfolding mmap_tmp_page
    mmap_tmp_page-identity p lt =
        let first : pgd_tmp + 4 * pgd_index p ≡ pgd_tmp = omega (arith, pgd_index-mod p) in
        let index : pte_index p ≡ p / 4096 = omega (arith, pte_index-mod p) in
        let page : pfn_phys (p / 4096) ≡ p / 4096 * 4096 = omega arith in
        record {
          directory =
              ap (λ a. mmap_tmp_page pgd_tmp pte_low pte_high w a) first
              ∙ directory-kept pgd_tmp (omega (arith, low))
              ∙ high_entries-below w1 4 (omega arith)
              ∙ (let here = ==_refl pgd_tmp in rw here refl);
          entry = rw index (
              fill_table-outside pte_high page_entry w3 4096 (pte_low + 4 * (p / 4096))
                (inl (omega (arith, high)))
              ∙ fill_table-at pte_low page_entry w2 1024 (p / 4096) (omega arith)
              ∙ ap present_writable page);
        }

    -- After `mmap_tmp_page`, with its tables one behind the other, the tables lead from the
    -- virtual address 0xc0000000 + p to the page of p, for every p below 16 MB.
    pub mmap_tmp_page-high :
        (p : ℕ)
        → p < 2 ^ 24
        → pte_high + 2 ^ 14 ≤ 2 ^ 32
        → IsTmpMapped pgd_tmp
            (pte_high + 4096 * (p / 2 ^ 22))
            (mmap_tmp_page pgd_tmp pte_low pte_high w)
            (kernbase + p)
            p
    unfolding mmap_tmp_page
    mmap_tmp_page-high p lt fits =
        let i = p / 2 ^ 22 in
        let index : pgd_index (kernbase + p) ≡ 768 + i =
          omega (arith, pgd_index-mod (kernbase + p)) in
        let table : (pte_high + 4096 * i) % 2 ^ 32 ≡ pte_high + 4096 * i = omega arith in
        let place : pte_high + 4096 * i + 4 * pte_index (kernbase + p) ≡ pte_high + 4 * (p / 4096) =
          omega (arith, pte_index-mod (kernbase + p)) in
        let page : pfn_phys (p / 4096) ≡ p / 4096 * 4096 = omega arith in
        record {
          directory = rw index (
              directory-kept (pgd_tmp + 4 * (768 + i)) (omega (arith, low))
              ∙ high_entries-at w1 4 i (omega arith) (omega arith)
              ∙ ap present_writable table);
          entry =
              ap (λ a. mmap_tmp_page pgd_tmp pte_low pte_high w a) place
              ∙ fill_table-at pte_high page_entry w3 4096 (p / 4096) (omega arith)
              ∙ ap present_writable page;
        }
