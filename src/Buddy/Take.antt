-- ===== src/Buddy/Take.antt =====
-- `__rmqueue_smallest`: the first block of the smallest order that has one, cut down by `expand` to
-- the order asked for.
use native.Mathlib.Nat.{pow-suc}
use hlos.Base.{
  ℕ, zero, suc, ◌+◌, ◌-◌, ◌*◌, ◌^◌, ◌<◌, ◌≤◌, ◌≡◌, ◌≢◌, ◌⊎◌, refl, sym, ap, ◌∙◌, subst, true, false,
  List, [], ◌∷◌, map, Option, none, some, arith, ◌==◌, Bool-cases, inl, inr, ==_iff,
}
use hlos.Links.{list_empty}
use hlos.Links.Chain.{IsRing}
use hlos.Buddy.{
  Layout, Memory, free_list, lru, list_entry, add_free, del_free, expand, take_block, rmqueue,
  set_page_order, rmv_page_order,
}
use hlos.Buddy.Spec.{FreeLists, with_order, in_block, covers, in_block-pair, in_block_self}
use hlos.Buddy.Refine.{Refines, add_free-Refines, del_free-Refines}
use hlos.Buddy.Blocks.{
  IsAligned, IsUnused, IsOnce, unused-unmarked, IsAligned-add, IsAligned-del, covers-add,
  covers-del,
}

-- A block of order `order` at `page` has left the free pages.
pub record Taken (l : Layout) (m : Memory) (f : FreeLists) (order page : ℕ) (result : Memory)
    : Type 0 where
  pub lists : FreeLists
  pub refines : Refines l result lists
  pub aligned : IsAligned lists
  pub covered : (x : ℕ) → covers 11 lists x + in_block page order x ≡ covers 11 f x
  pub start : (q : ℕ) × (page ≡ q * 2 ^ order)
  pub same_count : (p : ℕ) → result.count p ≡ m.count p

module _ (l : Layout) where
  expand-Taken :
      (rounds : ℕ) (m : Memory) (f g : FreeLists) (page low q : ℕ)
      → low + rounds < 11
      → page ≡ q * 2 ^ (low + rounds)
      → Refines l m f
      → IsAligned f
      → ((x : ℕ) → covers 11 f x + in_block page (low + rounds) x ≡ covers 11 g x)
      → IsOnce g
      → Taken l m g low page (expand l rounds m page low)
  unfolding expand
  expand-Taken zero m f g page low q h e r a part once =
      let same : low + 0 ≡ low = omega arith in
      record {
        lists = f;
        refines = r;
        aligned = a;
        covered = λ x. omega (arith, part x, ap (λ t. in_block page t x) same);
        start = (q, e ∙ ap (λ (t : ℕ). q * 2 ^ t) same);
        same_count = λ p. refl;
      }
  expand-Taken (suc rounds) m f g page low q h e r a part once =
      let o = low + rounds in
      let up : low + suc rounds ≡ suc o = omega arith in
      let whole : (x : ℕ)
          → in_block page (low + suc rounds) x ≡ in_block page o x + in_block (page + 2 ^ o) o x =
        λ x. ap (λ t. in_block page t x) up ∙ sym (in_block-pair page o x) in
      let upper : IsUnused f (page + 2 ^ o) o = λ x. omega (arith, part x, whole x, once x) in
      let size : 2 ^ (low + suc rounds) ≡ 2 ^ o * 2 = ap (λ (t : ℕ). 2 ^ t) up ∙ pow-suc 2 o in
      let here : page ≡ 2 * q * 2 ^ o = e ∙ omega (arith, ap (λ (t : ℕ). q * t) size) in
      let there : page + 2 ^ o ≡ (2 * q + 1) * 2 ^ o = omega arith in
      let t =
        expand-Taken rounds (add_free l m (page + 2 ^ o) o) (with_order f o ((page + 2 ^ o) ∷ f o))
          g page low (2 * q) (omega arith) here
          (add_free-Refines l m f (page + 2 ^ o) o r (omega arith) (
            unused-unmarked l m f (page + 2 ^ o) o (page + 2 ^ o) r (in_block_self (page + 2 ^ o) o)
              upper))
          (IsAligned-add l f (page + 2 ^ o) o (2 * q + 1) a there)
          (λ x. omega (arith, covers-add l f (page + 2 ^ o) o x (omega arith), part x, whole x))
          once in
      record {
        lists = t.lists;
        refines = t.refines;
        aligned = t.aligned;
        covered = t.covered;
        start = t.start;
        same_count = λ p. t.same_count p ∙ (unfold add_free set_page_order in refl);
      }

  list_entry-lru : (p : ℕ) → list_entry l (lru l p) ≡ p
  list_entry-lru p = omega arith

  take_block-Taken :
      (m : Memory) (f : FreeLists) (order current p : ℕ) (ps : List ℕ)
      → order ≤ current
      → current < 11
      → Refines l m f
      → IsAligned f
      → IsOnce f
      → f current ≡ p ∷ ps
      → Taken l m f order (take_block l m order current).0 (take_block l m order current).1
  unfolding take_block
  take_block-Taken m f order current p ps low h r a once e =
      let ring : IsRing m.links (free_list l current) (lru l p ∷ map (lru l) ps) =
        subst (λ zs. IsRing m.links (free_list l current) (map (lru l) zs)) e (r.rings current h) in
      let page : list_entry l (m.links.next (free_list l current)) ≡ p =
        ap (list_entry l) ring.chain.0 ∙ list_entry-lru p in
      let s = a current p h (rw e (ground arith)) in
      let size : order + (current - order) ≡ current = omega arith in
      let t =
        expand-Taken (current - order) (del_free l m p current) (with_order f current ps) f p order
          s.0 (omega arith) (s.1 ∙ ap (λ (t : ℕ). s.0 * 2 ^ t) (sym size))
          (del_free-Refines l m f p current [] ps r h e) (IsAligned-del l f p current [] ps a e)
          (λ x. omega (arith, covers-del l f p current [] ps x h e, ap (λ t. in_block p t x) size))
          once in
      subst (λ b. Taken l m f order b (expand l (current - order) (del_free l m b current) b order))
        (sym page)
        (record {
          lists = t.lists;
          refines = t.refines;
          aligned = t.aligned;
          covered = t.covered;
          start = t.start;
          same_count = λ q. t.same_count q ∙ (unfold del_free rmv_page_order in refl);
        })

  -- What `alloc_pages` and its loop may return: a block, or nothing when no list from `from` on has one.
  abbrev pub Outcome : Memory → FreeLists → (order from : ℕ) → Option (ℕ × Memory) → Type 0
  Outcome m f order from none = (j : ℕ) → from ≤ j → j < 11 → f j ≡ []
  Outcome m f order from (some (page, m')) = Taken l m f order page m'

  list_empty-nil :
      (m : Memory) (f : FreeLists) (o : ℕ)
      → o < 11
      → Refines l m f
      → f o ≡ []
      → list_empty m.links (free_list l o) ≡ true
  unfolding list_empty
  list_empty-nil m f o h r e =
      let ring : IsRing m.links (free_list l o) [] =
        subst (λ zs. IsRing m.links (free_list l o) (map (lru l) zs)) e (r.rings o h) in
      ground (arith, ring.chain.0)

  list_empty-cons :
      (m : Memory) (f : FreeLists) (o p : ℕ) (ps : List ℕ)
      → o < 11
      → Refines l m f
      → f o ≡ p ∷ ps
      → list_empty m.links (free_list l o) ≡ false
  unfolding list_empty
  list_empty-cons m f o p ps h r e =
      let ring : IsRing m.links (free_list l o) (lru l p ∷ map (lru l) ps) =
        subst (λ zs. IsRing m.links (free_list l o) (map (lru l) zs)) e (r.rings o h) in
      ground (arith, ring.chain.0, ring.distinct.0)

  nil_or_cons : (zs : List ℕ) → (zs ≡ []) ⊎ ((p : ℕ) × (ps : List ℕ) × (zs ≡ p ∷ ps))
  nil_or_cons [] = inl refl
  nil_or_cons (p ∷ ps) = inr (p, ps, refl)

  pub rmqueue-Outcome :
      (rounds : ℕ) (m : Memory) (f : FreeLists) (order current : ℕ)
      → current + rounds ≡ 11
      → order ≤ current
      → Refines l m f
      → IsAligned f
      → IsOnce f
      → Outcome m f order current (rmqueue l rounds m order current)
  unfolding rmqueue
  rmqueue-Outcome zero m f order current e low r a once = λ j h k. absurd (omega arith)
  rmqueue-Outcome (suc rounds) m f order current e low r a once = elim (nil_or_cons (f current)) [
    | inl empty ↦ rw (list_empty-nil m f current (omega arith) r empty) (
        skip (rmqueue l rounds m order (current + 1)) empty
          (rmqueue-Outcome rounds m f order (current + 1) (omega arith) (omega arith) r a once))
    | inr (p, ps, full) ↦
        rw (list_empty-cons m f current p ps (omega arith) r full)
          (take_block-Taken m f order current p ps low (omega arith) r a once full)
  ]
    where
      skip :
          (o : Option (ℕ × Memory))
          → f current ≡ []
          → Outcome m f order (current + 1) o
          → Outcome m f order current o
      skip none empty rest = λ j h k. elim (Bool-cases (current == j)) [
        | inl same ↦ subst (λ t. f t ≡ []) ((==_iff current j).0 same) empty
        | inr other ↦ let ne : current ≢ j = ground arith in rest j (omega arith) k
      ]
      skip (some (page, m')) empty rest = rest
