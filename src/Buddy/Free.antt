-- ===== src/Buddy/Free.antt =====
-- `free_pages`: a block whose last reference goes becomes free, merged with its buddies.
use hlos.Base.{
  ℕ, zero, suc, ◌+◌, ◌-◌, ◌*◌, ◌/◌, ◌%◌, ◌^◌, ◌<◌, ◌≤◌, ◌≡◌, ◌≢◌, refl, sym, ap, ◌∙◌, subst, true,
  ◌∷◌, ◌++◌, arith, ◌==◌, if◌then◌else◌, Bool-cases, inl, inr, bit_and,
}
use hlos.Links.{update}
use hlos.Links.Chain.{has}
use hlos.Buddy.{
  u32, page_buddy_mapcount_value, Layout, Memory, add_free, del_free, page_is_buddy,
  find_buddy_index, page_at, merge, free_one_page, free_pages, set_page_order, rmv_page_order,
}
use hlos.Buddy.Index.{IsBlock, IsPair, IsBlock-IsPair, IsBlock-aligned, aligned-IsBlock}
use hlos.Buddy.Spec.{FreeLists, with_order, in_block, covers, in_block-pair, in_block_self}
use hlos.Buddy.Blocks.{
  IsAligned, IsUnused, has-split, unused-unmarked, IsAligned-add, IsAligned-del, covers-add,
  covers-del,
}
use hlos.Buddy.Refine.{Refines, add_free-Refines, del_free-Refines}

-- The memory after a block has been freed.
pub record Freed (l : Layout) (m : Memory) (f : FreeLists) (page order : ℕ) (result : Memory)
    : Type 0 where
  pub lists : FreeLists
  pub refines : Refines l result lists
  pub covered : (x : ℕ) → covers 11 lists x ≡ covers 11 f x + in_block page order x
  pub aligned : IsAligned lists
  pub same_count : (p : ℕ) → result.count p ≡ m.count p

module _ (l : Layout) where
  module _ (m : Memory) (f : FreeLists) (page o : ℕ) where
    add_free-Freed :
        (q : ℕ)
        → Refines l m f
        → IsAligned f
        → IsUnused f page o
        → o < 11
        → page ≡ q * 2 ^ o
        → Freed l m f page o (add_free l m page o)
    add_free-Freed q r a unused h e = record {
      lists = with_order f o (page ∷ f o);
      refines =
          add_free-Refines l m f page o r h
            (unused-unmarked l m f page o page r (in_block_self page o) unused);
      covered = λ x. covers-add l f page o x h;
      aligned = IsAligned-add l f page o q a e;
      same_count = λ p. unfold add_free set_page_order in refl;
    }

  -- A round that finds the buddy free: the pair goes on in place of the block.
  module _ (m : Memory) (f : FreeLists) (page idx o c i : ℕ) (r : Refines l m f) (a : IsAligned f)
      (unused : IsUnused f page o) (low : o ≤ 9) (pair : IsPair page idx o c i)
      (found : page_is_buddy m (page_at page (find_buddy_index idx o) idx) o ≡ true) where
    abbrev buddy : ℕ
    buddy = page_at page (find_buddy_index idx o) idx

    abbrev start : ℕ
    start = page_at page (bit_and (find_buddy_index idx o) idx) idx

    buddy-listed : has buddy (f o) ≡ true
    unfolding page_is_buddy
    buddy-listed =
        let marked : m.mapcount buddy ≡ page_buddy_mapcount_value = ground arith in
        let order : m.private buddy ≡ o = ground arith in
        subst (λ t. has buddy (f t) ≡ true) order (r.marked buddy marked).1

    pair-covers : (x : ℕ) → in_block page o x + in_block buddy o x ≡ in_block start (suc o) x
    pair-covers x = elim pair.side [
      | inl s ↦ omega (
        arith,
        in_block-pair page o x,
        ap (λ t. in_block t o x) s.1,
        ap (λ t. in_block t (suc o) x) s.0,
      )
      | inr s ↦ omega (
        arith,
        in_block-pair buddy o x,
        ap (λ t. in_block t o x) s.1,
        ap (λ t. in_block t (suc o) x) s.0,
      )
    ]

    start-le : start ≤ page
    start-le = elim pair.side [ inl s ↦ omega arith | inr s ↦ omega arith ]

    -- What the next round starts from.
    record Next : Type 0 where
      lists : FreeLists
      refines : Refines l (del_free l m buddy o) lists
      aligned : IsAligned lists
      covered : (x : ℕ) → covers 11 lists x + in_block buddy o x ≡ covers 11 f x
      free : IsUnused lists start (suc o)

    next : Next
    next =
        let s = has-split buddy (f o) buddy-listed in
        let part : (x : ℕ)
            → covers 11 (with_order f o (s.0 ++ s.1)) x + in_block buddy o x ≡ covers 11 f x =
          λ x. covers-del l f buddy o s.0 s.1 x (omega arith) s.2 in
        record {
          lists = with_order f o (s.0 ++ s.1);
          refines = del_free-Refines l m f buddy o s.0 s.1 r (omega arith) s.2;
          aligned = IsAligned-del l f buddy o s.0 s.1 a s.2;
          covered = part;
          free = λ x. omega (arith, part x, pair-covers x, unused x);
        }

    Next-Freed :
        (n : Next) (result : Memory)
        → Freed l (del_free l m buddy o) n.lists start (suc o) result
        → Freed l m f page o result
    Next-Freed n result g = record {
      lists = g.lists;
      refines = g.refines;
      covered = λ x. omega (arith, g.covered x, n.covered x, pair-covers x);
      aligned = g.aligned;
      same_count = λ p. g.same_count p ∙ (unfold del_free rmv_page_order in refl);
    }

  merge-Freed :
      (rounds : ℕ) (m : Memory) (f : FreeLists) (page idx o c i : ℕ)
      → o + rounds ≡ 10
      → page < 2 ^ 31
      → IsBlock page idx o c i
      → Refines l m f
      → IsAligned f
      → IsUnused f page o
      → Freed l m f page o (merge l rounds m page idx o)
  unfolding merge
  merge-Freed zero m f page idx o c i e top block r a unused =
      add_free-Freed m f page o (c * 2 ^ (11 - o) + i) r a unused (omega arith)
        (IsBlock-aligned page idx o c i block (omega arith))
  merge-Freed (suc rounds) m f page idx o c i e top block r a unused =
      let pair = IsBlock-IsPair page idx o c i block (omega arith) top in
      elim (Bool-cases (page_is_buddy m (page_at page (find_buddy_index idx o) idx) o)) [
        | inl found ↦
            let n = next m f page idx o c i r a unused (omega arith) pair found in
            let lower = start-le m f page idx o c i r a unused (omega arith) pair found in
            let up : o + 1 ≡ suc o = omega arith in
            rw (found, up)
              (Next-Freed m f page idx o c i r a unused (omega arith) pair found n _ (
                merge-Freed rounds _ n.lists _ _ (suc o) c (i / 2) (omega arith) (omega arith)
                  pair.next n.refines n.aligned n.free))
        | inr none_found ↦ rw none_found (
            add_free-Freed m f page o (c * 2 ^ (11 - o) + i) r a unused (omega arith)
              (IsBlock-aligned page idx o c i block (omega arith)))
      ]

  free_pages-count :
      (m : Memory) (page order c : ℕ)
      → (m.count page + u32 - 1) % u32 ≡ c
      → free_pages l m page order ≡ (
          if c == 0
          then free_one_page l (record m { count = update m.count page c }) page order
          else record m { count = update m.count page c })
  unfolding free_pages
  free_pages-count m page order c e =
      ap
        (λ c.
          if c == 0
          then free_one_page l (record m { count = update m.count page c }) page order
          else record m { count = update m.count page c })
        e

  free_one_page-Freed :
      (m : Memory) (f : FreeLists) (q order : ℕ)
      → order ≤ 10
      → q * 2 ^ order < 2 ^ 31
      → Refines l m f
      → IsAligned f
      → IsUnused f (q * 2 ^ order) order
      → Freed l m f (q * 2 ^ order) order (free_one_page l m (q * 2 ^ order) order)
  unfolding free_one_page
  free_one_page-Freed m f q order h top r a unused =
      merge-Freed (10 - order) m f _ _ order _ _ (omega arith) top (aligned-IsBlock q order h) r a
        unused

  -- Freeing an aligned block of order at most 10 below page 2^31, with one reference and none of
  -- its pages free, on well-formed, aligned free lists in which no page is free twice: exactly
  -- its pages join the free pages, its count becomes 0 and no other count changes, and the free
  -- lists stay well formed and aligned.
  pub free_pages-Freed :
      (m : Memory) (f : FreeLists) (page q order : ℕ)
      → page ≡ q * 2 ^ order
      → order ≤ 10
      → page < 2 ^ 31
      → Refines l m f
      → IsAligned f
      → IsUnused f page order
      → m.count page ≡ 1
      → Freed l
          (record m { count = update m.count page 0 })
          f
          page
          order
          (free_pages l m page order)
  free_pages-Freed m f page q order e h top r a unused one =
      rw (free_pages-count m page order 0 (rw one)) (
        subst
          (λ t.
            t < 2 ^ 31
            → IsUnused f t order
            → Freed l (record m { count = update m.count page 0 }) f t order
                (free_one_page l (record m { count = update m.count page 0 }) t order))
          (sym e)
          (λ top unused.
            free_one_page-Freed _ f q order h top
              (record { rings = r.rings; counts = r.counts; marks = r.marks; marked = r.marked }) a
              unused)
          top unused)

  -- A page that has other references, or none, only has its count lowered.
  pub free_pages-shared :
      (m : Memory) (page order : ℕ)
      → m.count page < u32
      → m.count page ≢ 1
      → free_pages l m page order
        ≡ record m { count = update m.count page ((m.count page + u32 - 1) % u32) }
  unfolding free_pages
  free_pages-shared m page order small ne = ground arith
