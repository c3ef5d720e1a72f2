-- ===== src/Buddy/Refine.antt =====
-- The memory stands for free lists, and the two elementary changes of `mm/buddy.c`: a block enters a
-- free list, a block leaves one.
use mathlib.Core.List.{map-append}
use hlos.Base.{
  ℕ, ◌+◌, ◌-◌, ◌%◌, ◌<◌, ◌≡◌, ◌≢◌, refl, sym, ap, ◌∙◌, subst, true, false, ◌||◌, List, [], ◌∷◌,
  ◌++◌, map, arith, ◌==◌, Bool-cases, inl, inr, length, length-append,
}
use hlos.Links.{update, list_add, list_del}
use hlos.Links.Chain.{has, IsRing, Apart, has-append, has-delete}
use hlos.Links.Insert.{list_add-IsRing, list_add-other}
use hlos.Links.Remove.{list_del-IsRing, list_del-other}
use hlos.Buddy.{
  u32, page_buddy_mapcount_value, minus_one, Layout, Memory, free_list, lru, add_free, del_free,
  set_page_order, rmv_page_order,
}
use hlos.Buddy.Spec.{FreeLists, with_order, with_order-cases, with_order_self}

pub record Refines (l : Layout) (m : Memory) (f : FreeLists) : Type 0 where
  pub rings : (o : ℕ) → o < 11 → IsRing m.links (free_list l o) (map (lru l) (f o))
  pub counts : (o : ℕ) → o < 11 → m.nr_free o ≡ length (f o) % u32
  pub marks :
      (o p : ℕ)
      → o < 11
      → has p (f o) ≡ true
      → (m.mapcount p ≡ page_buddy_mapcount_value) × (m.private p ≡ o)
  pub marked :
      (p : ℕ)
      → m.mapcount p ≡ page_buddy_mapcount_value
      → (m.private p < 11) × (has p (f (m.private p)) ≡ true)

module _ (l : Layout) where
  has-lru : (p : ℕ) (xs : List ℕ) → has (lru l p) (map (lru l) xs) ≡ has p xs
  has-lru p [] = refl
  has-lru p (x ∷ xs) =
      let e : (lru l p == lru l x) ≡ (p == x) = ground arith in rw (e, has-lru p xs)

  head-out : (o : ℕ) (xs : List ℕ) → o < 11 → has (free_list l o) (map (lru l) xs) ≡ false
  head-out o [] h = refl
  head-out o (x ∷ xs) h =
      let e : (free_list l o == lru l x) ≡ false = ground (arith, l.zone_below) in
      rw e (head-out o xs h)

  Apart-lru :
      (xs ys : List ℕ)
      → ((p : ℕ) → has p xs ≡ true → has p ys ≡ false)
      → Apart (map (lru l) xs) (map (lru l) ys)
  Apart-lru [] ys h = tt
  Apart-lru (x ∷ xs) ys h =
      (rw (has-lru x ys) (h x (ground arith)), Apart-lru xs ys (λ p q. h p (ground arith)))

  Apart-cons :
      (xs : List ℕ) (y : ℕ) (ys : List ℕ) → Apart xs ys → has y xs ≡ false → Apart xs (y ∷ ys)
  Apart-cons [] y ys f h = tt
  Apart-cons (x ∷ xs) y ys f h = (ground arith, Apart-cons xs y ys f.1 (ground arith))

  module _ {m : Memory} {f : FreeLists} (r : Refines l m f) where
    -- The free lists of two orders share no node.
    rings-Apart :
        (o j : ℕ)
        → o < 11
        → j < 11
        → o ≢ j
        → Apart (free_list l o ∷ map (lru l) (f o)) (free_list l j ∷ map (lru l) (f j))
    rings-Apart o j ho hj ne = (
      ground (arith, head-out o (f j) ho),
      Apart-cons (map (lru l) (f o)) (free_list l j) (map (lru l) (f j))
          (Apart-lru (f o) (f j) λ p q. elim (Bool-cases (has p (f j))) [
            | inl e ↦ absurd (ground (arith, r.marks o p ho q, r.marks j p hj e))
            | inr e ↦ e
          ])
          (head-out j (f o) hj),
    )

    unmarked-out :
        (p o : ℕ) → o < 11 → m.mapcount p ≢ page_buddy_mapcount_value → has p (f o) ≡ false
    unmarked-out p o h ne = elim (Bool-cases (has p (f o))) [
      | inl e ↦ absurd (ne (r.marks o p h e).0)
      | inr e ↦ e
    ]

    lru-out :
        (p j : ℕ)
        → j < 11
        → has p (f j) ≡ false
        → has (lru l p) (free_list l j ∷ map (lru l) (f j)) ≡ false
    lru-out p j hj e =
        let ne : (lru l p == free_list l j) ≡ false = ground (arith, l.zone_below) in
        rw (ne, has-lru p (f j)) e

  with_order-has :
      (f : FreeLists) (o p j q : ℕ) → has q (f j) ≡ true → has q (with_order f o (p ∷ f o) j) ≡ true
  with_order-has f o p j q =
      with_order-cases (λ j xs. has q (f j) ≡ true → has q xs ≡ true) f o (p ∷ f o)
        (λ i. ground arith) (λ j ne i. i) j

  -- A page that is not marked as a free block enters the list of its order.
  pub add_free-Refines :
      (m : Memory) (f : FreeLists) (p o : ℕ)
      → Refines l m f
      → o < 11
      → m.mapcount p ≢ page_buddy_mapcount_value
      → Refines l (add_free l m p o) (with_order f o (p ∷ f o))
  unfolding add_free set_page_order
  add_free-Refines m f p o r h new =
      let out : (j : ℕ) → j < 11 → has p (f j) ≡ false = λ j hj. unmarked-out r p j hj new in
      record {
        rings =
            with_order-cases
              (λ j xs.
                j < 11
                → IsRing (list_add m.links (lru l p) (free_list l o)) (free_list l j)
                    (map (lru l) xs))
              f o (p ∷ f o)
              (λ _.
                list_add-IsRing m.links (lru l p) (free_list l o) (map (lru l) (f o)) (r.rings o h)
                  (lru-out r p o h (out o h)))
              (λ j ne hj.
                list_add-other m.links (lru l p) (free_list l o) (map (lru l) (f o)) (free_list l j)
                  (map (lru l) (f j)) (r.rings o h) (r.rings j hj) (rings-Apart r o j h hj ne)
                  (lru-out r p j hj (out j hj)));
        counts =
            with_order-cases
              (λ j xs. j < 11 → update m.nr_free o ((m.nr_free o + 1) % u32) j ≡ length xs % u32) f
              o (p ∷ f o) (λ _. ground (arith, r.counts o h))
              (λ j ne hj. ground (arith, r.counts j hj));
        marks =
            with_order-cases
              (λ j xs.
                (q : ℕ)
                → j < 11
                → has q xs ≡ true
                → (update m.mapcount p page_buddy_mapcount_value q ≡ page_buddy_mapcount_value)
                  × (update m.private p o q ≡ j))
              f o (p ∷ f o) (λ q hj i. ground (arith, r.marks o q h))
              (λ j ne q hj i. ground (arith, r.marks j q hj i, out j hj));
        marked = λ q e. elim (Bool-cases (q == p)) [
          | inl same ↦ rw same (h, rw (with_order_self f o (p ∷ f o)) (ground arith))
          | inr other ↦ rw other (
              let old = r.marked q (rw other at e) in
              (old.0, with_order-has f o p (m.private q) q old.1))
        ];
      }

  -- A block leaves the list of its order, wherever it stands there.
  pub del_free-Refines :
      (m : Memory) (f : FreeLists) (p o : ℕ) (xs ys : List ℕ)
      → Refines l m f
      → o < 11
      → f o ≡ xs ++ p ∷ ys
      → Refines l (del_free l m p o) (with_order f o (xs ++ ys))
  unfolding del_free rmv_page_order
  del_free-Refines m f p o xs ys r h e = record {
    rings =
        with_order-cases
          (λ j zs. j < 11 → IsRing (list_del m.links (lru l p)) (free_list l j) (map (lru l) zs)) f
          o (xs ++ ys)
          (λ _.
            rw (map-append (lru l) xs ys)
              (list_del-IsRing m.links (free_list l o) (map (lru l) xs) (lru l p) (map (lru l) ys)
                ring).0)
          (λ j ne hj.
            list_del-other m.links (free_list l o) (map (lru l) xs) (lru l p) (map (lru l) ys)
              (free_list l j) (map (lru l) (f j)) ring (r.rings j hj)
              (subst (λ zs. Apart (free_list l o ∷ zs) (free_list l j ∷ map (lru l) (f j))) nodes
                (rings-Apart r o j h hj ne)));
    counts =
        with_order-cases
          (λ j zs. j < 11 → update m.nr_free o ((m.nr_free o + u32 - 1) % u32) j ≡ length zs % u32)
          f o (xs ++ ys)
          (λ _.
            ground
              (arith, r.counts o h, length-append xs ys, length-append xs (p ∷ ys), ap length e))
          (λ j ne hj. ground (arith, r.counts j hj));
    marks =
        with_order-cases
          (λ j zs.
            (q : ℕ)
            → j < 11
            → has q zs ≡ true
            → (update m.mapcount p minus_one q ≡ page_buddy_mapcount_value)
              × (update m.private p 0 q ≡ j))
          f o (xs ++ ys)
          (λ q hj i. ground (arith, r.marks o q h, members q, gone, has-append q xs ys))
          (λ j ne q hj i. ground (arith, r.marks j q hj i, r.marks o p h, members p));
    marked = λ q k. elim (Bool-cases (q == p)) [
      | inl same ↦ absurd (ground arith)
      | inr other ↦ rw other (
          let old = r.marked q (rw other at k) in
          (
            old.0,
            with_order-cases (λ j zs. has q (f j) ≡ true → has q zs ≡ true) f o (xs ++ ys)
                (λ i. ground (arith, members q, has-append q xs ys)) (λ j ne i. i) (m.private q)
                old.1,
          ))
    ];
  }
    where
      nodes : map (lru l) (f o) ≡ map (lru l) xs ++ lru l p ∷ map (lru l) ys
      nodes = rw e (map-append (lru l) xs (p ∷ ys))

      ring : IsRing m.links (free_list l o) (map (lru l) xs ++ lru l p ∷ map (lru l) ys)
      ring = subst (λ zs. IsRing m.links (free_list l o) zs) nodes (r.rings o h)

      gone : has p (xs ++ ys) ≡ false
      gone =
          sym (has-lru p (xs ++ ys))
          ∙ ap (has (lru l p)) (map-append (lru l) xs ys)
          ∙ has-delete (map (lru l) xs) (lru l p) (map (lru l) ys) ring.distinct.1

      members : (q : ℕ) → has q (f o) ≡ (has q xs || ((q == p) || has q ys))
      members q = rw e (has-append q xs (p ∷ ys))
