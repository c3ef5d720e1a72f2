-- ===== src/Buddy/Boot.antt =====
-- `pmm_free_pages`: the zone is set up, and every page goes to the free lists.
use native.Mathlib.Nat.{pow-suc, one-le-pow}
use hlos.Base.{
  ℕ, zero, suc, ◌+◌, ◌-◌, ◌*◌, ◌^◌, ◌<◌, ◌≤◌, ◌≡◌, ◌≢◌, refl, sym, ap, ◌∙◌, subst, false, [], some,
  arith, ltb, leb, leb→le, ltb→lt, if◌then◌else◌, Bool-cases, inl, inr,
}
use hlos.Buddy.{
  minus_one, page_buddy_mapcount_value, Layout, Memory, free_list, free_pages, init_areas,
  init_buddy_mm, init_pages, free_loop, pmm_free_pages,
}
use hlos.Buddy.Spec.{FreeLists, covers_list, covers}
use hlos.Buddy.Refine.{Refines}
use hlos.Buddy.Blocks.{IsAligned, IsUnused}
use hlos.Buddy.Free.{free_pages-Freed}

-- Order `o` has an empty list and a zero count.
record IsEmptyArea (l : Layout) (m : Memory) (o : ℕ) : Type 0 where
  next : m.links.next (free_list l o) ≡ free_list l o
  prev : m.links.prev (free_list l o) ≡ free_list l o
  none_free : m.nr_free o ≡ 0

-- Page `p` has one reference and is no free block.
record IsFresh (m : Memory) (p : ℕ) : Type 0 where
  one_reference : m.count p ≡ 1
  unmarked : m.mapcount p ≡ minus_one

module _ (l : Layout) where
  init_areas-IsEmptyArea :
      (rounds : ℕ) (m : Memory) (i : ℕ)
      → ((o : ℕ) → o < i → IsEmptyArea l m o)
      → (o : ℕ) → o < i + rounds
      → IsEmptyArea l (init_areas l rounds m i) o
  unfolding init_areas
  init_areas-IsEmptyArea zero m i done o h = done o (omega arith)
  init_areas-IsEmptyArea (suc rounds) m i done o h =
      init_areas-IsEmptyArea rounds _ (i + 1) (λ j k. ground (arith, done j)) o (omega arith)

  init_areas-mapcount :
      (rounds : ℕ) (m : Memory) (i : ℕ) → (init_areas l rounds m i).mapcount ≡ m.mapcount
  unfolding init_areas
  init_areas-mapcount zero m i = refl
  init_areas-mapcount (suc rounds) m i = init_areas-mapcount rounds _ (i + 1)

  init_pages-IsEmptyArea :
      (rounds : ℕ) (m : Memory) (p o : ℕ)
      → o < 11
      → IsEmptyArea l m o
      → IsEmptyArea l (init_pages l rounds m p) o
  unfolding init_pages
  init_pages-IsEmptyArea zero m p o h a = a
  init_pages-IsEmptyArea (suc rounds) m p o h a =
      init_pages-IsEmptyArea rounds _ (p + 1) o h ground (arith, l.zone_below)

  init_pages-IsFresh :
      (rounds : ℕ) (m : Memory) (p : ℕ)
      → ((q : ℕ) → q < p → IsFresh m q)
      → (q : ℕ) → q < p + rounds
      → IsFresh (init_pages l rounds m p) q
  unfolding init_pages
  init_pages-IsFresh zero m p done q h = done q (omega arith)
  init_pages-IsFresh (suc rounds) m p done q h =
      init_pages-IsFresh rounds _ (p + 1) (λ j k. ground (arith, done j)) q (omega arith)

  init_pages-beyond :
      (rounds : ℕ) (m : Memory) (p q : ℕ)
      → p + rounds ≤ q
      → (init_pages l rounds m p).mapcount q ≡ m.mapcount q
  unfolding init_pages
  init_pages-beyond zero m p q h = refl
  init_pages-beyond (suc rounds) m p q h =
      init_pages-beyond rounds _ (p + 1) q (omega arith) ∙ ground arith

  -- The state of the freeing loop: all below `p` is free, all from `p` to `n` is still to be freed.
  record IsPartial (m : Memory) (f : FreeLists) (n p order : ℕ) : Type 0 where
    refines : Refines l m f
    aligned : IsAligned f
    covered : (x : ℕ) → covers 11 f x ≡ (if ltb x p then 1 else 0)
    one_reference : (x : ℕ) → p ≤ x → x < n → m.count x ≡ 1
    place : (q : ℕ) × (p ≡ q * 2 ^ order)
    low : order ≤ 10
    within : p ≤ n

  free_step :
      (m : Memory) (f : FreeLists) (n p order : ℕ)
      → n < 2 ^ 31
      → IsPartial m f n p order
      → p < n
      → 2 ^ order ≤ n - p
      → (g : FreeLists) × IsPartial (free_pages l m p order) g n (p + 2 ^ order) order
  free_step m f n p order top a more fits =
      let size : 1 ≤ 2 ^ order = one-le-pow order 2 (omega arith) in
      let unused : IsUnused f p order = λ x. ground (arith, a.covered x) in
      let g =
        free_pages-Freed l m f p a.place.0 order a.place.1 a.low (omega arith) a.refines a.aligned
          unused (a.one_reference p (omega arith) more) in
      (
        g.lists,
        record {
          refines = g.refines;
          aligned = g.aligned;
          covered = λ x. ground (arith, g.covered x, a.covered x);
          one_reference = λ x h k. ground (arith, g.same_count x, a.one_reference x);
          place = (a.place.0 + 1, omega (arith, a.place.1));
          low = a.low;
          within = omega arith;
        },
      )

  lower_step :
      (m : Memory) (f : FreeLists) (n p order : ℕ)
      → IsPartial m f n p (suc order)
      → IsPartial m f n p order
  lower_step m f n p order a = record {
    refines = a.refines;
    aligned = a.aligned;
    covered = a.covered;
    one_reference = a.one_reference;
    place =
        (a.place.0 * 2, omega (arith, a.place.1, ap (λ (t : ℕ). a.place.0 * t) (pow-suc 2 order)));
    low = let h : suc order ≤ 10 = a.low in omega arith;
    within = a.within;
  }

  -- The order is lowered only where a smaller one is left to try.
  lower_at :
      (m : Memory) (f : FreeLists) (n p order : ℕ)
      → p < n
      → leb (2 ^ order) (n - p) ≡ false
      → IsPartial m f n p order
      → IsPartial m f n p (order - 1) × (order - 1 < order)
  lower_at m f n p zero more wide a = absurd (ground arith)
  lower_at m f n p (suc order) more wide a =
      let e : order ≡ suc order - 1 = omega arith in
      (subst (IsPartial m f n p) e (lower_step m f n p order a), omega arith)

  -- All pages below `n` are free, once each, and no other.
  pub record IsBooted (n : ℕ) (result : Memory) : Type 0 where
    pub lists : FreeLists
    pub refines : Refines l result lists
    pub aligned : IsAligned lists
    pub covered : (x : ℕ) → covers 11 lists x ≡ (if ltb x n then 1 else 0)

  free_loop-IsBooted :
      (fuel : ℕ) (m : Memory) (f : FreeLists) (n p order : ℕ)
      → n < 2 ^ 31
      → n - p + order < fuel
      → IsPartial m f n p order
      → (m' : Memory) × (free_loop l fuel m n p order ≡ some m') × IsBooted n m'
  unfolding free_loop
  free_loop-IsBooted zero m f n p order top enough a = absurd (omega arith)
  free_loop-IsBooted (suc fuel) m f n p order top enough a = elim (Bool-cases (ltb p n)) [
    | inl more ↦ rw more (elim (Bool-cases (leb (2 ^ order) (n - p))) [
      | inl fits ↦
          let size : 1 ≤ 2 ^ order = one-le-pow order 2 (omega arith) in
          let g = free_step m f n p order top a (ltb→lt p n more) (leb→le _ _ fits) in
          rw fits (free_loop-IsBooted fuel _ g.0 n (p + 2 ^ order) order top (omega arith) g.1)
      | inr wide ↦
          let g = lower_at m f n p order (ltb→lt p n more) wide a in
          rw wide (free_loop-IsBooted fuel m f n p (order - 1) top (omega (arith, g.1)) g.0)
    ])
    | inr done ↦ rw done (
      m,
      refl,
      record {
        lists = f;
        refines = a.refines;
        aligned = a.aligned;
        covered = λ x. ground (arith, a.covered x, a.within);
      },
    )
  ]

  init_buddy_mm-IsEmptyArea : (m : Memory) (o : ℕ) → o < 11 → IsEmptyArea l (init_buddy_mm l m) o
  unfolding init_buddy_mm
  init_buddy_mm-IsEmptyArea m o h =
      init_areas-IsEmptyArea 11 (record m { zone_free_pages = 0; zone_count_pages = 0 }) 0
        (λ j k. absurd (omega arith)) o h

  init_buddy_mm-mapcount : (m : Memory) → (init_buddy_mm l m).mapcount ≡ m.mapcount
  unfolding init_buddy_mm
  init_buddy_mm-mapcount m =
      init_areas-mapcount 11 (record m { zone_free_pages = 0; zone_count_pages = 0 }) 0

  -- For fewer than 2^31 pages and fuel above the page count plus 10, `pmm_free_pages` ends with
  -- every page below the count free exactly once in well-formed free lists and no other page
  -- free, if no page entry behind the array looks like a free block.
  pub pmm_free_pages-IsBooted :
      (fuel : ℕ) (m : Memory) (n : ℕ)
      → n < 2 ^ 31
      → n + 10 < fuel
      → ((p : ℕ) → n ≤ p → m.mapcount p ≢ page_buddy_mapcount_value)
      → (m' : Memory) × (pmm_free_pages l fuel m n ≡ some m') × IsBooted n m'
  unfolding pmm_free_pages
  pmm_free_pages-IsBooted fuel m n top enough beyond =
      free_loop-IsBooted fuel s (λ o. []) n 0 10 top (omega arith)
        (record {
          refines = record {
            rings = λ o h. record {
              chain = (IsEmptyArea.next (area o h), IsEmptyArea.prev (area o h));
              distinct = (refl, tt);
            };
            counts = λ o h. ground (arith, area o h);
            marks = λ o p h i. absurd (cc);
            marked = λ p e. absurd (unmarked p e);
          };
          aligned = λ o p h i. absurd (cc);
          covered = λ x. unfold covers covers_list in ground arith;
          one_reference = λ x h k. IsFresh.one_reference (fresh x k);
          place = (0, omega arith);
          low = omega arith;
          within = omega arith;
        })
    where
      b : Memory
      b = init_buddy_mm l m

      s : Memory
      s = init_pages l n b 0

      area : (o : ℕ) → o < 11 → IsEmptyArea l s o
      area o h = init_pages-IsEmptyArea n b 0 o h (init_buddy_mm-IsEmptyArea m o h)

      fresh : (x : ℕ) → x < n → IsFresh s x
      fresh x h = init_pages-IsFresh n b 0 (λ j k. absurd (omega arith)) x (omega arith)

      unmarked : (p : ℕ) → s.mapcount p ≢ page_buddy_mapcount_value
      unmarked p e = elim (Bool-cases (leb n p)) [
        | inl behind ↦ beyond p (leb→le n p behind) (
            sym (
              init_pages-beyond n b 0 p (omega (arith, leb→le n p behind))
              ∙ ap (λ g. g p) (init_buddy_mm-mapcount m))
            ∙ e)
        | inr inside ↦
            let h : p < n = ground arith in
            let d : minus_one ≡ page_buddy_mapcount_value =
              sym (IsFresh.unmarked (fresh p h)) ∙ e in
            omega arith
      ]
