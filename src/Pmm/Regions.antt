-- ===== src/Pmm/Regions.antt =====
-- The regions that `init_pmm` lays out.
use hlos.Base.{ℕ, ◌+◌, ◌-◌, ◌*◌, ◌/◌, ◌%◌, ◌^◌, ◌<◌, ◌≤◌, ◌≡◌, refl, arith}
use hlos.Pmm.{
  kernbase, page_size, page_bytes, pfn_align, pfn_up, pfn_phys, pa, va, Phys, pfn_to_page,
  page_to_pfn, page_address, pte_pages_for, place_pages, set_regions,
}

pte_pages_for-lem : (max : ℕ) → max < 2 ^ 30 → pte_pages_for max ≡ (pfn_up max + 1023) / 1024
unfolding pte_pages_for
pte_pages_for-lem max small = omega arith

-- One behind the other in physical memory: the kernel, the page directory, the page tables, the array
-- of the pages' descriptions, with room for all, and the pages.
pub record IsLaidOut (kern_end : ℕ) (s : Phys) : Type 0 where
  pub directory : kern_end ≤ pa s.kern_pgd
  pub tables : pa s.kern_pgd + 4096 ≡ pa s.kern_pte
  pub table_room : 4 * pfn_up s.max_phy_addr ≤ pa s.phy_pages - pa s.kern_pte
  pub frames : pa s.kern_pte ≤ pa s.phy_pages
  pub frame_room : pa s.phy_pages + page_bytes * s.phy_page_count ≤ s.min_phy_addr
  pub pages : s.min_phy_addr + 4096 * s.phy_page_count ≤ s.max_phy_addr
  pub tight : s.max_phy_addr < s.min_phy_addr + 4096 * (s.phy_page_count + 1)

pa-high : (x : ℕ) → x < 2 ^ 30 → pa (x + kernbase) ≡ x
pa-high x lt = ground arith

-- The part behind the page tables, which end at `frames`.
place_pages-IsLaidOut :
    (kern_end start frames max : ℕ)
    → kern_end ≤ start
    → start + 4096 ≤ frames
    → 4 * pfn_up max ≤ frames - (start + 4096)
    → frames < max
    → max < 2 ^ 30
    → IsLaidOut kern_end
        (place_pages (start + kernbase) (start + 4096 + kernbase) (frames + kernbase) max)
unfolding place_pages
place_pages-IsLaidOut kern_end start frames max behind tables entries room small =
    let count = (max - frames) / 4096 in
    let pfn_pages = (20 * count + 4095) / 4096 in
    let p = pa-high frames (omega arith) in
    let count_eq : (max + 2 ^ 32 - frames) % 2 ^ 32 / 4096 ≡ count = omega arith in
    let pages_eq : pfn_up (count * page_bytes % 2 ^ 32) ≡ pfn_pages = omega arith in
    let few : pfn_pages ≤ count = omega arith in
    let rest_eq : (count + 2 ^ 32 - pfn_pages) % 2 ^ 32 ≡ count - pfn_pages = omega (arith, few) in
    let min_eq : (frames + pfn_phys pfn_pages) % 2 ^ 32 ≡ frames + 4096 * pfn_pages =
      omega (arith, few) in
    let d = pa-high start (omega arith) in
    let t = pa-high (start + 4096) (omega arith) in
    rw (p, count_eq, pages_eq, rest_eq, min_eq)
      (record {
        directory = rw d behind;
        tables = rw (d, t) refl;
        table_room = rw (p, t) entries;
        frames = rw (p, t) tables;
        frame_room = rw p (omega arith);
        pages = omega (arith, few);
        tight = omega (arith, few);
      })

set_regions-eq :
    (kern_end max start pages : ℕ)
    → (kern_end + 4095) / 4096 * 4096 ≡ start
    → pte_pages_for max ≡ pages
    → 0 < start
    → start + 4096 + pages * 4096 < 2 ^ 30
    → set_regions kern_end max
      ≡ place_pages
          (start + kernbase)
          (start + 4096 + kernbase)
          (start + 4096 + pages * 4096 + kernbase)
          max
unfolding set_regions
set_regions-eq kern_end max start pages e n some_start lt =
    let align : pfn_align kern_end ≡ start = omega (arith, e) in
    let pgd : va start ≡ start + kernbase = ground arith in
    let pte : (start + kernbase + page_size) % 2 ^ 32 ≡ start + 4096 + kernbase = omega arith in
    let frames : (start + 4096 + kernbase + pages * 4096) % 2 ^ 32
        ≡ start + 4096 + pages * 4096 + kernbase =
      omega arith in
    rw (align, pgd, pte, n, frames) refl

-- If the memory ends below 1 GB and holds the kernel, two more pages and the page tables, then
-- `init_pmm` lays out behind the kernel, one behind the other, the page directory, the page
-- tables with an entry for each page of memory, the array with room for the description of each
-- page it counts, and these pages, which end less than a page before the memory does.
pub set_regions-IsLaidOut :
    (kern_end max : ℕ)
    → 0 < kern_end
    → max < 2 ^ 30
    → kern_end + 8192 + 4096 * pte_pages_for max ≤ max
    → IsLaidOut kern_end (set_regions kern_end max)
set_regions-IsLaidOut kern_end max some_kernel small room =
    let start = (kern_end + 4095) / 4096 * 4096 in
    let pages = pte_pages_for max in
    let n : pages ≡ (pfn_up max + 1023) / 1024 = pte_pages_for-lem max small in
    let entries : 4 * pfn_up max ≤ start + 4096 + pages * 4096 - (start + 4096) =
      omega (arith, n) in
    rw (set_regions-eq kern_end max start pages refl refl (omega arith) (omega (arith, room))) (
      place_pages-IsLaidOut kern_end start (start + 4096 + pages * 4096) max (omega arith)
        (omega arith) entries (omega (arith, room)) small)

-- If the array of page descriptions ends below 2^32 and the pages lie above 0 and below 1 GB,
-- `page_address` of the description of the page number pfn is the virtual address of that page,
-- the pages standing one behind the other from `min_phy_addr` on.
pub page_address-pfn_to_page :
    (s : Phys) (pfn : ℕ)
    → s.phy_pages + page_bytes * s.phy_page_count < 2 ^ 32
    → 0 < s.min_phy_addr
    → s.min_phy_addr + 4096 * s.phy_page_count ≤ 2 ^ 30
    → pfn < s.phy_page_count
    → page_address s (pfn_to_page s pfn) ≡ kernbase + (s.min_phy_addr + 4096 * pfn)
unfolding page_address page_to_pfn pfn_to_page
page_address-pfn_to_page s pfn frames some_min small lt =
    let page : (s.phy_pages + page_bytes * pfn) % 2 ^ 32 ≡ s.phy_pages + 20 * pfn = omega arith in
    let back : (s.phy_pages + 20 * pfn - s.phy_pages) / page_bytes ≡ pfn = omega arith in
    let phys : (s.min_phy_addr + pfn_phys pfn) % 2 ^ 32 ≡ s.min_phy_addr + 4096 * pfn =
      omega arith in
    let high : va (s.min_phy_addr + 4096 * pfn) ≡ kernbase + (s.min_phy_addr + 4096 * pfn) =
      ground arith in
    rw (page, back, phys, high) refl
