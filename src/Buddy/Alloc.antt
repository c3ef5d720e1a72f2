-- ===== src/Buddy/Alloc.antt =====
-- `alloc_pages`, and a block that is allocated and freed again.
use hlos.Base.{
  ℕ, ◌-◌, ◌*◌, ◌+◌, ◌^◌, ◌<◌, ◌≤◌, ◌≡◌, ◌≢◌, subst, [], Option, none, some, arith, ◌==◌, leb,
  Bool-cases, inl, inr, ==_iff, leb→le,
}
use hlos.Links.{update}
use hlos.Buddy.{
  page_buddy_mapcount_value, Layout, Memory, rmqueue, rmqueue_smallest, alloc_pages, free_pages,
}
use hlos.Buddy.Spec.{FreeLists, in_block, covers, in_block_self}
use hlos.Buddy.Refine.{Refines}
use hlos.Buddy.Blocks.{IsAligned, IsUnused, IsOnce, unused-unmarked}
use hlos.Buddy.Take.{Taken, Outcome, rmqueue-Outcome}
use hlos.Buddy.Free.{free_pages-Freed}

-- The memory after a successful `alloc_pages`.
pub record Allocated (l : Layout) (m : Memory) (f : FreeLists) (order page : ℕ) (result : Memory)
    : Type 0 where
  pub lists : FreeLists
  pub refines : Refines l result lists
  pub aligned : IsAligned lists
  pub covered : (x : ℕ) → covers 11 lists x + in_block page order x ≡ covers 11 f x
  pub start : (q : ℕ) × (page ≡ q * 2 ^ order)
  pub one_reference : result.count page ≡ 1
  pub other_counts : (p : ℕ) → p ≢ page → result.count p ≡ m.count p

abbrev pub AllocOutcome : Layout → Memory → FreeLists → ℕ → Option (ℕ × Memory) → Type 0
AllocOutcome l m f order none = (j : ℕ) → order ≤ j → j < 11 → f j ≡ []
AllocOutcome l m f order (some (page, m')) = Allocated l m f order page m'

module _ (l : Layout) where
  Taken-Allocated :
      (m : Memory) (f : FreeLists) (order page : ℕ) (m' : Memory)
      → IsOnce f
      → Taken l m f order page m'
      → Allocated l m f order page
          (record m' { private = update m'.private page 0; count = update m'.count page 1 })
  Taken-Allocated m f order page m' once t =
      let free : IsUnused t.lists page order = λ x. omega (arith, t.covered x, once x) in
      let unmarked : m'.mapcount page ≢ page_buddy_mapcount_value =
        unused-unmarked l m' t.lists page order page t.refines (in_block_self page order) free in
      record {
        lists = t.lists;
        refines = record {
          rings = t.refines.rings;
          counts = t.refines.counts;
          marks = λ o p h i. ground (arith, t.refines.marks o p h i);
          marked = λ p e. elim (Bool-cases (p == page)) [
            | inl same ↦ absurd (
                unmarked (
                  subst (λ t. m'.mapcount t ≡ page_buddy_mapcount_value) ((==_iff p page).0 same)
                    e))
            | inr other ↦ rw other (t.refines.marked p e)
          ];
        };
        aligned = t.aligned;
        covered = t.covered;
        start = t.start;
        one_reference = ground arith;
        other_counts = λ p ne. ground (arith, t.same_count p);
      }

  finish :
      (m : Memory) (f : FreeLists) (order : ℕ) (o : Option (ℕ × Memory))
      → IsOnce f
      → Outcome l m f order order o
      → AllocOutcome l m f order (elim o [
        | none ↦ none
        | some (page, m') ↦
            some (
              page,
              record m' { private = update m'.private page 0; count = update m'.count page 1 },
            )
      ])
  finish m f order none once t = t
  finish m f order (some (page, m')) once t = Taken-Allocated m f order page m' once t

  -- On well-formed, aligned free lists in which no page is free twice, `alloc_pages` fails only
  -- if no order from the one asked for has a free block; otherwise it returns an aligned block
  -- that was free, exactly its pages leave the free pages, its count becomes 1, no other count
  -- changes, and the free lists stay well formed and aligned.
  pub alloc_pages-AllocOutcome :
      (m : Memory) (f : FreeLists) (order : ℕ)
      → Refines l m f
      → IsAligned f
      → IsOnce f
      → AllocOutcome l m f order (alloc_pages l m order)
  unfolding alloc_pages
  alloc_pages-AllocOutcome m f order r a once =
      finish m f order (rmqueue_smallest l m order) once (elim (Bool-cases (leb order 11)) [
        | inl low ↦
            let le : order ≤ 11 = ground arith in
            rmqueue-Outcome l (11 - order) m f order order (omega arith) (omega arith) r a once
        | inr high ↦
            let none_left : 11 - order ≡ 0 = ground arith in
            let le : 11 < order = ground arith in
            rw none_left (unfold rmqueue in λ j h k. absurd (omega arith))
      ])

  -- On well-formed, aligned free lists in which no page is free twice and none from 2^31 on is
  -- free, a block of order at most 10 that `alloc_pages` returns and `free_pages` takes back
  -- leaves the set of free pages as it was, in well-formed, aligned free lists.
  pub free_pages-alloc_pages :
      (m : Memory) (f : FreeLists) (order page : ℕ) (m' : Memory)
      → order ≤ 10
      → Refines l m f
      → IsAligned f
      → IsOnce f
      → ((x : ℕ) → 2 ^ 31 ≤ x → covers 11 f x ≡ 0)
      → alloc_pages l m order ≡ some (page, m')
      → (g : FreeLists) × Refines l (free_pages l m' page order) g
        × IsAligned g
        × ((x : ℕ) → covers 11 g x ≡ covers 11 f x)
  free_pages-alloc_pages m f order page m' low r a once below e =
      let t : Allocated l m f order page m' =
        subst (AllocOutcome l m f order) e (alloc_pages-AllocOutcome m f order r a once) in
      let inside : in_block page order page ≡ 1 = in_block_self page order in
      let small : page < 2 ^ 31 = elim (Bool-cases (leb (2 ^ 31) page)) [
        | inl high ↦
            let le : 2 ^ 31 ≤ page = leb→le (2 ^ 31) page high in
            absurd (omega (arith, t.covered page, inside, below page le))
        | inr fits ↦ ground arith
      ] in
      let g =
        free_pages-Freed l m' t.lists page t.start.0 order t.start.1 low small t.refines t.aligned
          (λ x. omega (arith, t.covered x, once x)) t.one_reference in
      (g.lists, g.refines, g.aligned, λ x. omega (arith, g.covered x, t.covered x))
