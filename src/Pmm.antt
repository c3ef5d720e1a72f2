-- ===== src/Pmm.antt =====
-- mm/pmm.c with the macros of include/page.h: the layout of physical memory behind the kernel, and the
-- page tables of the kernel. A page table is kept in a memory of 32-bit words, by their addresses. The
-- load of cr3, the messages and the clearing of the page array are left out; the calls of
-- `pmm_free_pages` and `slob_init` are those of the modules Buddy and Slob.
pub mod Regions
pub mod Tables
mod Tests
use hlos.Base.{
  ℕ, zero, suc, ◌+◌, ◌-◌, ◌*◌, ◌/◌, ◌%◌, ◌^◌, ◌&&◌, List, [], ◌∷◌, bit_and, bit_or, ◌==◌, leb,
  if◌then◌else◌,
}
use hlos.Bytes.{Mem, poke}

abbrev pub kernbase : ℕ
kernbase = 0xc0000000

abbrev pub page_size : ℕ
page_size = 4096

-- `sizeof(struct page)`
abbrev pub page_bytes : ℕ
page_bytes = 20

-- `PFN_ALIGN`, `PFN_UP` and `PFN_PHYS`
abbrev pub pfn_align : ℕ → ℕ
pfn_align x = (x + 4095) % 2 ^ 32 / 4096 * 4096

abbrev pub pfn_up : ℕ → ℕ
pfn_up x = (x + 4095) % 2 ^ 32 / 4096

abbrev pub pfn_phys : ℕ → ℕ
pfn_phys x = x * 4096 % 2 ^ 32

-- `__pa` and `__va`
abbrev pub pa : ℕ → ℕ
pa x = if x == 0 then 0 else (x + 2 ^ 32 - kernbase) % 2 ^ 32

abbrev pub va : ℕ → ℕ
va x = if x == 0 then 0 else (x + kernbase) % 2 ^ 32

-- `PGD_INDEX` and `PTE_INDEX`
unfoldable pub pgd_index : ℕ → ℕ
pgd_index x = bit_and (x / 2 ^ 22) 0x3ff

unfoldable pub pte_index : ℕ → ℕ
pte_index x = bit_and (x / 2 ^ 12) 0x3ff

-- `x | PAGE_PRESENT | PAGE_WRITE`
abbrev pub present_writable : ℕ → ℕ
present_writable x = bit_or (bit_or x 1) 2

-- The file's variables; `max_phy_addr` is that of the memory map.
pub record Phys : Type 0 where
  pub phy_pages : ℕ
  pub min_phy_addr : ℕ
  pub max_phy_addr : ℕ
  pub phy_page_count : ℕ
  pub kern_pgd : ℕ
  pub kern_pte : ℕ

unfoldable pub pfn_to_page : Phys → ℕ → ℕ
pfn_to_page s pfn = (s.phy_pages + page_bytes * pfn) % 2 ^ 32

-- For a `page` of the array.
unfoldable pub page_to_pfn : Phys → ℕ → ℕ
page_to_pfn s page = (page - s.phy_pages) / page_bytes

unfoldable pub page_address : Phys → ℕ → ℕ
unfolding page_to_pfn
page_address s page = va ((s.min_phy_addr + pfn_phys (page_to_pfn s page)) % 2 ^ 32)

pub record MmapEntry : Type 0 where
  pub base_addr_low : ℕ
  pub length_low : ℕ
  pub type : ℕ

-- The loop over the memory map; `x & PAGE_MASK` drops the offset in the page.
unfoldable pub find_memory : List MmapEntry → (max_phy_addr : ℕ) → ℕ
find_memory [] max_phy_addr = max_phy_addr
find_memory (e ∷ es) max_phy_addr = find_memory es (
    if (e.type == 1) && leb 0x100000 e.base_addr_low
    then (e.base_addr_low + e.length_low) % 2 ^ 32 / 4096 * 4096
    else max_phy_addr)

-- `pte_pages`, and the variables as `init_pmm` sets them.
unfoldable pub pte_pages_for : ℕ → ℕ
pte_pages_for max_phy_addr = (pfn_up max_phy_addr + 1023) % 2 ^ 32 / 1024

-- From the computation of `phy_page_count` on.
unfoldable pub place_pages : (kern_pgd kern_pte phy_pages max_phy_addr : ℕ) → Phys
place_pages kern_pgd kern_pte phy_pages max_phy_addr =
    let count = (max_phy_addr + 2 ^ 32 - pa phy_pages) % 2 ^ 32 / 4096 in
    let pfn_pages = pfn_up (count * page_bytes % 2 ^ 32) in
    record {
      phy_pages = phy_pages;
      min_phy_addr = (pa phy_pages + pfn_phys pfn_pages) % 2 ^ 32;
      max_phy_addr = max_phy_addr;
      phy_page_count = (count + 2 ^ 32 - pfn_pages) % 2 ^ 32;
      kern_pgd = kern_pgd;
      kern_pte = kern_pte;
    }

unfoldable pub set_regions : (kern_end max_phy_addr : ℕ) → Phys
unfolding pte_pages_for place_pages
set_regions kern_end max_phy_addr =
    let kern_pgd = va (pfn_align kern_end) in
    let kern_pte = (kern_pgd + page_size) % 2 ^ 32 in
    let phy_pages = (kern_pte + pte_pages_for max_phy_addr * 4096) % 2 ^ 32 in
    place_pages kern_pgd kern_pte phy_pages max_phy_addr

-- `for (i = 0; i < n; i++) table[i] = entry(i);`
unfoldable pub fill_table : (table : ℕ) → (entry : ℕ → ℕ) → Mem → (n : ℕ) → Mem
fill_table table entry w zero = w
fill_table table entry w (suc i) = poke (fill_table table entry w i) (table + 4 * i) (entry i)

-- The entry of the directory for the page table number `idx`, and that of the tables for the page `i`.
abbrev pub table_entry : Phys → (idx : ℕ) → ℕ
table_entry s idx = present_writable (pa ((s.kern_pte + pfn_phys idx) % 2 ^ 32))

abbrev pub page_entry : (i : ℕ) → ℕ
page_entry i = present_writable (pfn_phys i)

unfoldable pub init_kernel_vmm : Phys → Mem → (pte_pages : ℕ) → Mem
unfolding fill_table pgd_index
init_kernel_vmm s w pte_pages =
    let w1 = fill_table (s.kern_pgd + 4 * pgd_index kernbase) (table_entry s) w pte_pages in
    fill_table s.kern_pte page_entry w1 (pfn_up s.max_phy_addr)

-- `init_pmm`, up to the calls of the two allocators: the variables, and the page tables.
unfoldable pub init_pmm : (kern_end : ℕ) → List MmapEntry → Mem → Phys × Mem
unfolding find_memory set_regions pte_pages_for init_kernel_vmm
init_pmm kern_end map w =
    let max_phy_addr = find_memory map 0 in
    let s = set_regions kern_end max_phy_addr in
    (s, init_kernel_vmm s w (pte_pages_for max_phy_addr))
