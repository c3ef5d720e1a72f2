-- ===== src/Pmm/Tests.antt =====
-- A machine with 16 MB, and a kernel that ends at 2 MB.
use hlos.Base.{◌+◌, ◌*◌, ◌≡◌, refl, List, [], ◌∷◌, arith}
use hlos.Pmm.{
  kernbase, Phys, MmapEntry, pfn_to_page, page_address, find_memory, pte_pages_for, place_pages,
  set_regions, init_kernel_vmm,
}
use hlos.Pmm.Regions.{IsLaidOut, set_regions-IsLaidOut, page_address-pfn_to_page}
use hlos.Pmm.Tables.{IsMapped, init_kernel_vmm-IsMapped}

abbrev memory_map : List MmapEntry
memory_map =
    record { base_addr_low = 0; length_low = 0x9fc00; type = 1 }
    ∷ record { base_addr_low = 0x100000; length_low = 0xf00000; type = 1 }
    ∷ []

find_memory_run : find_memory memory_map 0 ≡ 0x1000000
unfolding find_memory
find_memory_run = refl

set_regions-IsLaidOut_example : IsLaidOut 0x200000 (set_regions 0x200000 0x1000000)
unfolding pte_pages_for
set_regions-IsLaidOut_example =
    set_regions-IsLaidOut 0x200000 0x1000000 (omega arith) (omega arith) (omega arith)

abbrev machine : Phys
machine = record {
  phy_pages = 0xc0205000;
  min_phy_addr = 0x217000;
  max_phy_addr = 0x1000000;
  phy_page_count = 3561;
  kern_pgd = 0xc0200000;
  kern_pte = 0xc0201000;
}

set_regions_run : set_regions 0x200000 0x1000000 ≡ machine
unfolding set_regions place_pages pte_pages_for
set_regions_run = refl

page_address-pfn_to_page_run :
    page_address machine (pfn_to_page machine 5) ≡ kernbase + (0x217000 + 4096 * 5)
page_address-pfn_to_page_run =
    page_address-pfn_to_page machine 5 (omega arith) (omega arith) (omega arith) (omega arith)

init_kernel_vmm-IsMapped_example : IsMapped machine (init_kernel_vmm machine (λ a. 0) 4) 0x345678
unfolding pte_pages_for
init_kernel_vmm-IsMapped_example =
    init_kernel_vmm-IsMapped machine (λ a. 0) 0x345678 (omega arith) (omega arith) (omega arith)
