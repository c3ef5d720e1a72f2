-- ===== src/Boot.antt =====
-- boot/init.c: the page tables with which paging is switched on. A table is a part of a memory of
-- 32-bit words, by their addresses. The loads of cr3, cr0 and the stack pointer are left out.
pub mod Mapping
mod Tests
use hlos.Base.{ℕ, zero, suc, ◌+◌, ◌*◌, ◌%◌, ◌^◌, bit_or}
use hlos.Bytes.{Mem, poke}
use hlos.Pmm.{kernbase, pgd_index, pfn_phys, present_writable, page_entry, fill_table}

-- `PAGE_MAP_SIZE`
abbrev pub page_map_size : ℕ
page_map_size = 0x400000

module _ (pgd_tmp pte_low pte_high : ℕ) where
  -- The first loop, after `n` rounds.
  unfoldable pub set_high_entries : Mem → (n : ℕ) → Mem
  unfolding pgd_index
  set_high_entries w zero = w
  set_high_entries w (suc i) =
      poke (set_high_entries w i)
        (pgd_tmp + 4 * pgd_index ((kernbase + page_map_size * i) % 2 ^ 32))
        (present_writable ((pte_high + 4096 * i) % 2 ^ 32))

  unfoldable pub mmap_tmp_page : Mem → Mem
  unfolding set_high_entries fill_table
  mmap_tmp_page w =
      let w1 = poke w pgd_tmp (present_writable pte_low) in
      let w2 = set_high_entries w1 4 in
      let w3 = fill_table pte_low page_entry w2 1024 in fill_table pte_high page_entry w3 4096
