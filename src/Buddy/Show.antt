-- ===== src/Buddy/Show.antt =====
-- `show_free_area` of mm/buddy.c. The `printk` calls are left out: the function gives what they show,
-- for each order with free blocks the order, the size in KB and the frame numbers, and then the
-- number of free pages in MB.
use hlos.Base.{
  ℕ, zero, suc, ◌+◌, ◌*◌, ◌/◌, ◌%◌, ◌^◌, ◌<◌, ◌≤◌, ◌≡◌, ◌≢◌, inl, inr, refl, ap, ◌∙◌, Bool-cases,
  List, [], ◌∷◌, map, Option, some, arith, ◌==◌, ◌>>=◌, if◌then◌else◌, length,
}
use native.Mathlib.Nat.{one-le-pow}
use hlos.Links.{list_for_each}
use hlos.Links.Walk.{list_for_each-IsRing}
use hlos.Buddy.{
  u32, max_order, page_buddy_mapcount_value, Layout, Memory, free_list, lru, list_entry,
  pmm_free_pages,
}
use hlos.Buddy.Count.{pages_of, pages_of-covers}
use hlos.Buddy.Boot.{pmm_free_pages-IsBooted}
use hlos.Buddy.Spec.{FreeLists}
use hlos.Buddy.Refine.{Refines}

-- A line that `show_free_area` prints.
pub record AreaLine : Type 0 where
  pub order : ℕ
  pub size : ℕ
  pub pages : List ℕ

module _ (l : Layout) (fuel : ℕ) (m : Memory) where
  -- The pages that `list_for_each_entry(page, &free_area->free_list, lru)` shows.
  unfoldable pub area_pages : ℕ → Option (List ℕ)
  area_pages order = do
    nodes ← list_for_each fuel m.links (free_list l order)
    some (map (list_entry l) nodes)

  -- The `for` of `show_free_area` from `order` on, with the lines and the total.
  unfoldable pub show_areas : ℕ → (order total : ℕ) → Option (List AreaLine × ℕ)
  show_areas zero order total = some ([], total)
  show_areas (suc rounds) order total =
      let nr = m.nr_free order in
      let skipped = show_areas rounds (order + 1) total in
      let rest = show_areas rounds (order + 1) ((total + nr * 2 ^ order % u32) % u32) in
      if nr == 0 then skipped else do
        pages ← area_pages order
        shown ← rest
        some (
          record { order = order; size = nr * 2 ^ (order + 2) % u32; pages = pages } ∷ shown.0,
          shown.1,
        )

  unfoldable pub show_free_area : Option (List AreaLine × ℕ)
  show_free_area = do shown ← show_areas max_order 0 0; some (shown.0, shown.1 / 256)

le_scaled : (n k : ℕ) → n ≤ n * 2 ^ k
le_scaled zero k = omega arith
le_scaled (suc n) k = ground (arith, le_scaled n k, one-le-pow k 2)

-- What the free lists say.
abbrev pub lines_of : FreeLists → (rounds order : ℕ) → List AreaLine
lines_of f zero order = []
lines_of f (suc rounds) order =
    if length (f order) == 0
    then lines_of f rounds (order + 1)
    else record { order = order; size = length (f order) * 2 ^ (order + 2) % u32; pages = f order }
      ∷ lines_of f rounds (order + 1)

module _ (l : Layout) (m : Memory) (f : FreeLists) (r : Refines l m f) where
  map-list_entry : (ps : List ℕ) → map (list_entry l) (map (lru l) ps) ≡ ps
  map-list_entry [] = refl
  map-list_entry (p ∷ ps) =
      let e : list_entry l (lru l p) ≡ p = omega arith in rw (e, map-list_entry ps)

  length-lru : (ps : List ℕ) → length (map (lru l) ps) ≡ length ps
  length-lru [] = refl
  length-lru (p ∷ ps) = ap suc (length-lru ps)

  area_pages-lists :
      (fuel order : ℕ)
      → order < 11
      → length (f order) < fuel
      → area_pages l fuel m order ≡ some (f order)
  unfolding area_pages
  area_pages-lists fuel order lt enough =
      rw
        (list_for_each-IsRing m.links (free_list l order) fuel (map (lru l) (f order))
          (r.rings order lt) (omega (arith, length-lru (f order))))
        (ap some (map-list_entry (f order)))

  show_areas-lists :
      (fuel rounds order total : ℕ)
      → rounds + order ≡ 11
      → total + pages_of f rounds order < 2 ^ 32
      → pages_of f rounds order < fuel
      → show_areas l fuel m rounds order total
        ≡ some (lines_of f rounds order, total + pages_of f rounds order)
  unfolding show_areas
  show_areas-lists fuel zero order total e small enough = ap (λ t. some ([], t)) (omega arith)
  show_areas-lists fuel (suc rounds) order total e small enough =
      let lt : order < 11 = omega (arith, e) in
      let few = le_scaled (length (f order)) order in
      let nr : m.nr_free order ≡ length (f order) = omega (arith, r.counts order lt, small, few) in
      let rest = show_areas-lists fuel rounds (order + 1) in
      elim (Bool-cases (length (f order) == 0)) [
        | inl nothing ↦
            let empty : length (f order) ≡ 0 = ground arith in
            let pages : length (f order) * 2 ^ order ≡ 0 = rw empty (omega arith) in
            rw (nr, nothing)
              (rest total (omega (arith, e)) (omega (arith, small)) (omega (arith, enough))
                ∙ ap (λ t. some (lines_of f rounds (order + 1), t)) (omega (arith, pages)))
        | inr some_free ↦
            let here = area_pages-lists fuel order lt (omega (arith, enough, few)) in
            let sum : (total + length (f order) * 2 ^ order % u32) % u32
                ≡ total + length (f order) * 2 ^ order =
              omega (arith, small) in
            let shown =
              rest (total + length (f order) * 2 ^ order) (omega (arith, e)) (omega (arith, small))
                (omega (arith, enough)) in
            let line : AreaLine = record {
              order = order;
              size = length (f order) * 2 ^ (order + 2) % u32;
              pages = f order;
            } in
            let assoc : total + length (f order) * 2 ^ order + pages_of f rounds (order + 1)
                ≡ total + (length (f order) * 2 ^ order + pages_of f rounds (order + 1)) =
              omega arith in
            rw (nr, some_free, here, sum, shown)
              (ap (λ t. some (line ∷ lines_of f rounds (order + 1), t)) assoc)
      ]

  -- If the memory stands for free lists with fewer than 2^32 pages, fewer than the fuel,
  -- show_free_area ends, and shows for each order with free blocks their size and frame numbers, in
  -- the order of the list, and the number of free pages in MB.
  show_free_area-lists :
      (fuel : ℕ)
      → pages_of f 11 0 < 2 ^ 32
      → pages_of f 11 0 < fuel
      → show_free_area l fuel m ≡ some (lines_of f 11 0, pages_of f 11 0 / 256)
  unfolding show_free_area
  show_free_area-lists fuel small enough =
      ap (λ o. o >>= λ shown. some (shown.0, shown.1 / 256))
        (show_areas-lists fuel 11 0 0 (omega arith) (omega (arith, small)) enough
          ∙ ap (λ t. some (lines_of f 11 0, t)) (omega arith))

-- For fewer than 2^31 pages `show_free_area` ends after `pmm_free_pages`, if no page entry behind
-- the array looks like a free block and the fuel is more than the page count plus 10: it shows,
-- for each order with free blocks, their size and frame numbers, and the page count in MB as the
-- total.
pub show_free_area-pmm_free_pages :
    (l : Layout) (fuel : ℕ) (m : Memory) (n : ℕ)
    → n < 2 ^ 31
    → n + 10 < fuel
    → ((p : ℕ) → n ≤ p → m.mapcount p ≢ page_buddy_mapcount_value)
    → (m' : Memory) × (f : FreeLists) × (pmm_free_pages l fuel m n ≡ some m')
      × Refines l m' f
      × (show_free_area l fuel m' ≡ some (lines_of f 11 0, n / 256))
show_free_area-pmm_free_pages l fuel m n top enough beyond =
    let (m', done, b) = pmm_free_pages-IsBooted l fuel m n top enough beyond in
    let pages = pages_of-covers n b.lists b.covered in
    (
      m',
      b.lists,
      done,
      b.refines,
      show_free_area-lists l m' b.lists b.refines fuel (omega (arith, pages)) (omega (arith, pages))
          ∙ ap (λ t. some (lines_of b.lists 11 0, t / 256)) pages,
    )
