-- ===== src/Buddy/Tests.antt =====
-- Runs of the allocator on a machine with five pages.
use hlos.Base.{ℕ, ◌/◌, [], ◌∷◌, ◌^◌, ◌≤◌, ◌≡◌, refl, sym, ap, subst, Option, none, some, arith}
use hlos.Base.Int.{pos}
use hlos.Links.{update, list_add}
use hlos.Buddy.{
  set_page_order, init_page_count, page_count, get_page, put_page_testzero, Layout, Memory,
  pmm_free_pages, alloc_pages, free_pages,
}
use hlos.Buddy.Spec.{FreeLists, covers}
use hlos.Buddy.Refine.{Refines}
use hlos.Buddy.Blocks.{IsAligned, IsOnce, IsUnused}
use hlos.Buddy.Free.{Freed, free_pages-Freed, free_pages-shared}
use hlos.Buddy.Alloc.{Allocated, AllocOutcome, alloc_pages-AllocOutcome, free_pages-alloc_pages}
use hlos.Buddy.References.{
  Sharing, start, later, take_one, drop_one, hand_over, IsCounted, IsDrained, Turns-IsDrained, sum,
}
use hlos.Buddy.Show.{lines_of, show_free_area, show_free_area-pmm_free_pages}
use hlos.Buddy.Boot.{IsBooted, pmm_free_pages-IsBooted}

abbrev layout : Layout
layout = record { sys_zone = 0x1000; phy_pages = 0x10000; zone_below = omega arith }

abbrev raw : Memory
raw = record {
  links = record { prev = λ a. 0; next = λ a. 0 };
  private = λ p. 0;
  count = λ p. 0;
  mapcount = λ p. 0;
  nr_free = λ o. 0;
  zone_free_pages = 0;
  zone_count_pages = 0;
}

pmm_free_pages-IsBooted_example :
    (m' : Memory) × (pmm_free_pages layout 20 raw 5 ≡ some m') × IsBooted layout 5 m'
pmm_free_pages-IsBooted_example =
    pmm_free_pages-IsBooted layout 20 raw 5 (omega arith) (omega arith)
      (λ p h e. absurd (omega arith))

abbrev from_some : Option Memory → Memory
from_some none = raw
from_some (some m) = m

abbrev from_pair : Option (ℕ × Memory) → Memory
from_pair none = raw
from_pair (some (page, m)) = m

abbrev booted : Memory
booted = from_some (pmm_free_pages layout 20 raw 5)

booted-IsBooted : IsBooted layout 5 booted
booted-IsBooted =
    let b = pmm_free_pages-IsBooted_example in
    subst (IsBooted layout 5) (sym (ap from_some b.1)) b.2

abbrev lists : FreeLists
lists = booted-IsBooted.lists

booted-IsOnce : IsOnce lists
booted-IsOnce x = ground (arith, booted-IsBooted.covered x)

booted_below : (x : ℕ) → 2 ^ 31 ≤ x → covers 11 lists x ≡ 0
booted_below x h = ground (arith, booted-IsBooted.covered x)

-- Order 2 keeps the pages 0 to 3, order 0 the page 4.
booted_orders : (booted.nr_free 2 ≡ 1) × (booted.nr_free 0 ≡ 1) × (booted.nr_free 1 ≡ 0)
unfolding pmm_free_pages set_page_order
booted_orders = (refl, refl, refl)

-- A block of two pages is cut from the block of four.
abbrev after : Memory
after = from_pair (alloc_pages layout booted 1)

first_alloc : alloc_pages layout booted 1 ≡ some (0, after)
unfolding pmm_free_pages alloc_pages set_page_order list_add
first_alloc = refl

after-Allocated : Allocated layout booted lists 1 0 after
after-Allocated = subst (AllocOutcome layout booted lists 1) first_alloc (
    alloc_pages-AllocOutcome layout booted lists 1 booted-IsBooted.refines booted-IsBooted.aligned
      booted-IsOnce)

alloc_pages-AllocOutcome_example : AllocOutcome layout booted lists 1 (alloc_pages layout booted 1)
alloc_pages-AllocOutcome_example =
    alloc_pages-AllocOutcome layout booted lists 1 booted-IsBooted.refines booted-IsBooted.aligned
      booted-IsOnce

free_pages-alloc_pages_example :
    (g : FreeLists) × Refines layout (free_pages layout after 0 1) g
    × IsAligned g
    × ((x : ℕ) → covers 11 g x ≡ covers 11 lists x)
free_pages-alloc_pages_example =
    free_pages-alloc_pages layout booted lists 1 0 after (omega arith) booted-IsBooted.refines
      booted-IsBooted.aligned booted-IsOnce booted_below first_alloc

after-IsUnused : IsUnused after-Allocated.lists 0 1
after-IsUnused x = omega (arith, after-Allocated.covered x, booted-IsOnce x)

free_pages-Freed_example :
    Freed layout
      (record after { count = update after.count 0 0 })
      after-Allocated.lists
      0
      1
      (free_pages layout after 0 1)
free_pages-Freed_example =
    free_pages-Freed layout after after-Allocated.lists 0 0 1 (omega arith) (omega arith)
      (omega arith) after-Allocated.refines after-Allocated.aligned after-IsUnused
      after-Allocated.one_reference

-- Page 7 is in use twice.
abbrev twice : Memory
twice = record raw { count = update raw.count 7 2 }

free_pages-shared_run :
    free_pages layout twice 7 0 ≡ record twice { count = update twice.count 7 1 }
free_pages-shared_run = free_pages-shared layout twice 7 0 (omega arith) (omega arith)

show_free_area-pmm_free_pages_example :
    (m' : Memory) × (f : FreeLists) × (pmm_free_pages layout 20 raw 5 ≡ some m')
    × Refines layout m' f
    × (show_free_area layout 20 m' ≡ some (lines_of f 11 0, 5 / 256))
show_free_area-pmm_free_pages_example =
    show_free_area-pmm_free_pages layout 20 raw 5 (omega arith) (omega arith)
      (λ p h e. absurd (omega arith))

-- One of two processors takes a second reference, hands it over, and drops the first one.
abbrev shared : Sharing
shared = record {
  mem = (put_page_testzero (get_page (init_page_count raw 3) 3) 3).0;
  held = 0 ∷ 1 ∷ [];
  last_puts = 0;
}

Turns-IsDrained_example :
    (page_count shared.mem 3 ≡ pos (sum shared.held)) × IsCounted 3 shared × IsDrained 3 shared
unfolding put_page_testzero get_page init_page_count
Turns-IsDrained_example = Turns-IsDrained 3 raw (1 ∷ 0 ∷ []) shared refl (
    later
      (later (later start (take_one [] 0 (0 ∷ []) refl (omega arith)))
        (hand_over (1 ∷ 1 ∷ []) refl))
      (drop_one [] 0 (1 ∷ []) refl))
