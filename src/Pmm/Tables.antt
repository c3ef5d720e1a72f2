-- ===== src/Pmm/Tables.antt =====
-- The page tables of the kernel map the virtual addresses from `kernbase` on to all of physical memory.
use hlos.Base.{
  ℕ, zero, suc, ◌+◌, ◌*◌, ◌/◌, ◌%◌, ◌^◌, ◌<◌, ◌≤◌, ◌≡◌, ◌≢◌, refl, ap, ◌∙◌, arith, ◌==◌, ==_refl,
  ne→==, Bool-cases, inl, inr, false, ◌⊎◌,
}
use hlos.Base.Bits.{bit_and-mask}
use hlos.Bytes.{Mem}
use hlos.Pmm.{
  kernbase, pfn_up, pfn_phys, pa, pgd_index, pte_index, present_writable, Phys, pte_pages_for,
  table_entry, page_entry, fill_table, init_kernel_vmm,
}

pub pgd_index-mod : (x : ℕ) → pgd_index x ≡ x / 2 ^ 22 % 1024
unfolding pgd_index
pgd_index-mod x = bit_and-mask 10 (x / 2 ^ 22)

pub pte_index-mod : (x : ℕ) → pte_index x ≡ x / 2 ^ 12 % 1024
unfolding pte_index
pte_index-mod x = bit_and-mask 10 (x / 2 ^ 12)

module _ (table : ℕ) (entry : ℕ → ℕ) (w : Mem) where
  pub fill_table-at : (n i : ℕ) → i < n → fill_table table entry w n (table + 4 * i) ≡ entry i
  unfolding fill_table
  fill_table-at zero i lt = absurd (omega arith)
  fill_table-at (suc n) i lt = elim (Bool-cases (i == n)) [
    | inl e ↦ let same : i ≡ n = ground arith in rw same (rw (==_refl (table + 4 * n)) refl)
    | inr e ↦
        let ne : i ≢ n = ground arith in
        let other : (table + 4 * i == table + 4 * n) ≡ false = ne→== _ _ (omega (arith, ne)) in
        rw other (fill_table-at n i (omega (arith, ne)))
  ]

  pub fill_table-outside :
      (n a : ℕ) → (a < table) ⊎ (table + 4 * n ≤ a) → fill_table table entry w n a ≡ w a
  unfolding fill_table
  fill_table-outside zero a out = refl
  fill_table-outside (suc n) a out =
      let other : (a == table + 4 * n) ≡ false = ne→== _ _ (omega arith) in
      rw other (fill_table-outside n a (omega arith))

-- The two entries that lead from the virtual address `kernbase + p` to the page of `p`.
pub record IsMapped (s : Phys) (w : Mem) (p : ℕ) : Type 0 where
  pub directory :
      w (s.kern_pgd + 4 * pgd_index (kernbase + p))
      ≡ present_writable (pa ((s.kern_pte + pfn_phys (p / 2 ^ 22)) % 2 ^ 32))
  pub table :
      w (s.kern_pte + pfn_phys (p / 2 ^ 22) + 4 * pte_index (kernbase + p))
      ≡ present_writable (p / 4096 * 4096)

-- After `init_kernel_vmm`, for memory of at most 1 GB and tables behind the directory, the
-- directory and the tables lead from the virtual address 0xc0000000 + p to the page of p, for
-- every physical address p.
pub init_kernel_vmm-IsMapped :
    (s : Phys) (w : Mem) (p : ℕ)
    → s.max_phy_addr ≤ 2 ^ 30
    → s.kern_pgd + 4096 ≤ s.kern_pte
    → p < s.max_phy_addr
    → IsMapped s (init_kernel_vmm s w (pte_pages_for s.max_phy_addr)) p
unfolding init_kernel_vmm pte_pages_for
init_kernel_vmm-IsMapped s w p small apart lt =
    let n = pfn_up s.max_phy_addr in
    let dirs = pte_pages_for s.max_phy_addr in
    let top = s.kern_pgd + 4 * pgd_index kernbase in
    let w1 = fill_table top (table_entry s) w dirs in
    let base : pgd_index kernbase ≡ 768 = pgd_index-mod kernbase in
    let up : pgd_index (kernbase + p) ≡ pgd_index kernbase + p / 2 ^ 22 =
      omega (arith, pgd_index-mod (kernbase + p), base) in
    let entry : pfn_phys (p / 2 ^ 22) + 4 * pte_index (kernbase + p) ≡ 4 * (p / 4096) =
      omega (arith, pte_index-mod (kernbase + p)) in
    let page : pfn_phys (p / 4096) ≡ p / 4096 * 4096 = omega arith in
    let split : s.kern_pgd + 4 * (pgd_index kernbase + p / 2 ^ 22) ≡ top + 4 * (p / 2 ^ 22) =
      omega arith in
    let same : s.kern_pte + pfn_phys (p / 2 ^ 22) + 4 * pte_index (kernbase + p)
        ≡ s.kern_pte + 4 * (p / 4096) =
      omega (arith, entry) in
    record {
      directory = rw up (
          ap (λ a. fill_table s.kern_pte page_entry w1 n a) split
          ∙ fill_table-outside s.kern_pte page_entry w1 n (top + 4 * (p / 2 ^ 22))
              (inl (omega (arith, base)))
          ∙ fill_table-at top (table_entry s) w dirs (p / 2 ^ 22) (omega arith));
      table =
          ap (λ a. fill_table s.kern_pte page_entry w1 n a) same
          ∙ fill_table-at s.kern_pte page_entry w1 n (p / 4096) (omega arith)
          ∙ ap present_writable page;
    }
