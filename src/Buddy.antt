-- ===== src/Buddy.antt =====
-- mm/buddy.c with the page fields of include/mm.h: the buddy allocator of physical pages.
-- A `struct page *` is its index in the page array, so `pfn_to_page` and `page_to_pfn` are the
-- identity, and pointer arithmetic on pages wraps at 2 ^ 32 as the C indices do. The list nodes
-- `page->lru` and `free_area[o].free_list` keep their addresses, from the bases in `Layout`.
-- The fields of `struct page` are one function each; `_count` and `_mapcount` hold the 32-bit
-- pattern of a C `int`. Messages of `printk` are left out.
pub mod Index
pub mod Spec
pub mod Refine
pub mod Blocks
pub mod Free
pub mod Take
pub mod Alloc
pub mod Boot
pub mod References
pub mod Count
pub mod Show
mod Tests
use hlos.Base.{
  ℕ, zero, suc, ◌+◌, ◌-◌, ◌*◌, ◌/◌, ◌%◌, ◌^◌, ◌≤◌, Bool, ◌&&◌, Option, none, some, bit_and, bit_xor,
  ◌==◌, ltb, leb, if◌then◌else◌,
}
use hlos.Base.Int.{ℤ, to_int}
use hlos.Atomic.{atomic_read, atomic_set, atomic_inc, atomic_dec_and_test}
use hlos.Links
use hlos.Links.{Links, update, list_add, list_del, list_empty, init_list_head}

abbrev pub u32 : ℕ
u32 = 2 ^ 32

abbrev pub max_order : ℕ
max_order = 11

-- -1 and PAGE_BUDDY_MAPCOUNT_VALUE, -128, as 32-bit patterns
abbrev pub minus_one : ℕ
minus_one = 0xffff_ffff

abbrev pub page_buddy_mapcount_value : ℕ
page_buddy_mapcount_value = 0xffff_ff80

-- Where the linker put `sys_zone`, and where `init_pmm` put the page array.
pub record Layout : Type 0 where
  pub sys_zone : ℕ
  pub phy_pages : ℕ
  pub zone_below : sys_zone + 140 ≤ phy_pages

pub record Memory : Type 0 where
  pub links : Links
  pub private : ℕ → ℕ
  pub count : ℕ → ℕ
  pub mapcount : ℕ → ℕ
  pub nr_free : ℕ → ℕ
  pub zone_free_pages : ℕ
  pub zone_count_pages : ℕ

-- `&zone->free_area[order].free_list`: a `struct free_area` has 12 bytes
abbrev pub free_list : Layout → ℕ → ℕ
free_list l order = l.sys_zone + 12 * order

-- `&page->lru`: a `struct page` has 20 bytes, and `lru` stands at offset 12
abbrev pub lru : Layout → ℕ → ℕ
lru l page = l.phy_pages + 20 * page + 12

-- `list_entry(ptr, struct page, lru)`
abbrev pub list_entry : Layout → ℕ → ℕ
list_entry l ptr = (ptr - l.phy_pages - 12) / 20

unfoldable pub init_page_count : Memory → ℕ → Memory
init_page_count m page = record m { count = update m.count page (atomic_set (m.count page) 1) }

-- `page_count` and `page_mapcount` return an `int`.
unfoldable pub page_count : Memory → ℕ → ℤ
page_count m page = to_int (atomic_read (m.count page))

unfoldable pub page_mapcount_reset : Memory → ℕ → Memory
page_mapcount_reset m page = record m {
  mapcount = update m.mapcount page (atomic_set (m.mapcount page) minus_one);
}

unfoldable pub page_mapcount : Memory → ℕ → ℤ
page_mapcount m page = to_int ((atomic_read (m.mapcount page) + 1) % u32)

unfoldable pub get_page : Memory → ℕ → Memory
get_page m page = record m { count = update m.count page (atomic_inc (m.count page)) }

unfoldable pub set_page_count : Memory → (page v : ℕ) → Memory
set_page_count m page v = record m { count = update m.count page (atomic_set (m.count page) v) }

unfoldable pub put_page_testzero : Memory → ℕ → Memory × Bool
put_page_testzero m page =
    let (c, was_last) = atomic_dec_and_test (m.count page) in
    (record m { count = update m.count page c }, was_last)

-- `PageBuddy`, `__SetPageBuddy` and `__ClearPageBuddy`
abbrev pub page_buddy : Memory → ℕ → Bool
page_buddy m page = atomic_read (m.mapcount page) == page_buddy_mapcount_value

abbrev pub set_page_buddy : Memory → ℕ → Memory
set_page_buddy m page = record m {
  mapcount = update m.mapcount page (atomic_set (m.mapcount page) page_buddy_mapcount_value);
}

abbrev pub clear_page_buddy : Memory → ℕ → Memory
clear_page_buddy m page = record m {
  mapcount = update m.mapcount page (atomic_set (m.mapcount page) minus_one);
}

unfoldable pub set_page_order : Memory → (page order : ℕ) → Memory
set_page_order m page order =
    set_page_buddy (record m { private = update m.private page order }) page

unfoldable pub rmv_page_order : Memory → ℕ → Memory
rmv_page_order m page =
    let m' = clear_page_buddy m page in record m' { private = update m'.private page 0 }

unfoldable pub page_is_buddy : Memory → (buddy order : ℕ) → Bool
page_is_buddy m buddy order = page_buddy m buddy && (m.private buddy == order)

unfoldable pub find_buddy_index : (page_idx order : ℕ) → ℕ
find_buddy_index page_idx order = bit_xor page_idx (2 ^ order)

-- `page + (to - from)` with unsigned indices
abbrev pub page_at : (page to from : ℕ) → ℕ
page_at page to from = (page + (to + u32 - from) % u32) % u32

module _ (l : Layout) where
  -- `list_add(&page->lru, &free_area[order].free_list); nr_free++; set_page_order(page, order)`, which
  -- ends `__free_one_page` in another order of the same three independent writes.
  unfoldable pub add_free : Memory → (page order : ℕ) → Memory
  add_free m page order =
      set_page_order
        (record m {
          links = list_add m.links (lru l page) (free_list l order);
          nr_free = update m.nr_free order ((m.nr_free order + 1) % u32);
        })
        page order

  -- `list_del(&page->lru); nr_free--; rmv_page_order(page)`
  unfoldable pub del_free : Memory → (page order : ℕ) → Memory
  del_free m page order =
      rmv_page_order
        (record m {
          links = list_del m.links (lru l page);
          nr_free = update m.nr_free order ((m.nr_free order + u32 - 1) % u32);
        })
        page

  -- The `while` of `__free_one_page`, with `max_order - 1 - order` rounds left, and what follows it.
  unfoldable pub merge : ℕ → Memory → (page page_idx order : ℕ) → Memory
  unfolding add_free del_free page_is_buddy find_buddy_index
  merge zero m page page_idx order = add_free m page order
  merge (suc rounds) m page page_idx order =
      let buddy_idx = find_buddy_index page_idx order in
      let buddy = page_at page buddy_idx page_idx in
      let combined_idx = bit_and buddy_idx page_idx in
      let rest =
        merge rounds (del_free m buddy order) (page_at page combined_idx page_idx) combined_idx
          (order + 1) in
      if page_is_buddy m buddy order then rest else add_free m page order

  -- `__free_one_page`
  unfoldable pub free_one_page : Memory → (page order : ℕ) → Memory
  unfolding merge
  free_one_page m page order =
      merge (max_order - 1 - order) m page (bit_and page (2 ^ max_order - 1)) order

  unfoldable pub free_pages : Memory → (page order : ℕ) → Memory
  unfolding put_page_testzero free_one_page
  free_pages m page order =
      let (m', was_last) = put_page_testzero m page in
      if was_last then free_one_page m' page order else m'

  -- `expand` with `high - low` rounds left: `high` has been counted down already to `low + rounds`.
  unfoldable pub expand : ℕ → Memory → (page low : ℕ) → Memory
  unfolding add_free
  expand zero m page low = m
  expand (suc rounds) m page low =
      expand rounds (add_free m (page + 2 ^ (low + rounds)) (low + rounds)) page low

  -- The body of the `for` in `__rmqueue_smallest` on a list that is not empty.
  unfoldable pub take_block : Memory → (order current_order : ℕ) → ℕ × Memory
  unfolding del_free expand
  take_block m order current_order =
      let page = list_entry l (m.links.next (free_list l current_order)) in
      (page, expand (current_order - order) (del_free m page current_order) page order)

  -- The `for`, with `max_order - current_order` rounds left.
  unfoldable pub rmqueue : ℕ → Memory → (order current_order : ℕ) → Option (ℕ × Memory)
  unfolding take_block list_empty
  rmqueue zero m order current_order = none
  rmqueue (suc rounds) m order current_order =
      let rest = rmqueue rounds m order (current_order + 1) in
      if list_empty m.links (free_list l current_order)
      then rest
      else some (take_block m order current_order)

  -- `__rmqueue_smallest`
  unfoldable pub rmqueue_smallest : Memory → ℕ → Option (ℕ × Memory)
  unfolding rmqueue
  rmqueue_smallest m order = rmqueue (max_order - order) m order order

  -- `none` is the null pointer; the memory is then as before.
  unfoldable pub alloc_pages : Memory → ℕ → Option (ℕ × Memory)
  unfolding rmqueue_smallest
  alloc_pages m order = elim (rmqueue_smallest m order) [
    | none ↦ none
    | some (page, m') ↦
        some
          (page, record m' { private = update m'.private page 0; count = update m'.count page 1 })
  ]

  unfoldable pub alloc_page : Memory → Option (ℕ × Memory)
  unfolding alloc_pages
  alloc_page m = alloc_pages m 0

  -- The `for` of `init_buddy_mm`, from order `i` on.
  unfoldable pub init_areas : ℕ → Memory → ℕ → Memory
  unfolding init_list_head
  init_areas zero m i = m
  init_areas (suc rounds) m i =
      init_areas rounds
        (record m {
          nr_free = update m.nr_free i 0;
          links = init_list_head m.links (free_list l i);
        })
        (i + 1)

  unfoldable pub init_buddy_mm : Memory → Memory
  unfolding init_areas
  init_buddy_mm m = init_areas max_order (record m { zone_free_pages = 0; zone_count_pages = 0 }) 0

  -- The first loop of `pmm_free_pages`, from page `p_idx` on.
  unfoldable pub init_pages : ℕ → Memory → ℕ → Memory
  unfolding init_list_head
  init_pages zero m p_idx = m
  init_pages (suc rounds) m p_idx =
      init_pages rounds
        (record m {
          count = update m.count p_idx 1;
          mapcount = update m.mapcount p_idx minus_one;
          links = init_list_head m.links (lru l p_idx);
        })
        (p_idx + 1)

  -- Its second loop. Each round frees a block or lowers the order: `none` is a loop cut short.
  unfoldable pub free_loop : ℕ → Memory → (page_number p_idx p_order : ℕ) → Option Memory
  unfolding free_pages
  free_loop zero m page_number p_idx p_order = none
  free_loop (suc fuel) m page_number p_idx p_order =
      let freed =
        free_loop fuel (free_pages m p_idx p_order) page_number (p_idx + 2 ^ p_order) p_order in
      let lower = free_loop fuel m page_number p_idx (p_order - 1) in
      if ltb p_idx page_number
      then if leb (2 ^ p_order) (page_number - p_idx) then freed else lower
      else some m

  unfoldable pub pmm_free_pages : ℕ → Memory → ℕ → Option Memory
  unfolding init_buddy_mm init_pages free_loop
  pmm_free_pages fuel m page_number =
      free_loop fuel (init_pages page_number (init_buddy_mm m) 0) page_number 0 (max_order - 1)
