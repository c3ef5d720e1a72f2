-- ===== src/Slob/Recover.antt =====
-- Runs of `kmalloc` and `kfree` calls in any order, and what they leave once nothing is in use.
use hlos.Base.{
  ℕ, ◌+◌, ◌^◌, ◌<◌, ◌≤◌, ◌≡◌, inl, inr, refl, ap, sym, subst, ◌∙◌, false, Bool-cases, List, [], ◌∷◌,
  ◌++◌, Option, none, some, arith, ◌==◌, length,
}
use hlos.Slob.{Heap, kmalloc, kfree}
use hlos.Slob.Blocks.{Block, Tiles, Fields, Tiles-le, Holds}
use hlos.Slob.Settled.{IsSettled, starts_free}
use hlos.Slob.Free.{kfree-IsFreed, kfree-not_used}
use hlos.Slob.Split.{carve}
use hlos.Slob.Alloc.{fits, first_fit, chunk_len, kmalloc-Refines}

carve-IsSettled :
    (len : ℕ) (b : Block) (bs : List Block)
    → b.used ≡ 0
    → IsSettled (b ∷ bs)
    → IsSettled (carve len b ++ bs)
unfolding carve
carve-IsSettled len b bs free s = ground (arith, s)

first_fit-starts_free :
    (len : ℕ) (bs : List Block) → starts_free bs ≡ false → starts_free (first_fit len bs).1 ≡ false
unfolding first_fit
first_fit-starts_free len [] e = refl
first_fit-starts_free len (b ∷ bs) e = rw e e

pub first_fit-IsSettled :
    (len : ℕ) (bs : List Block) → IsSettled bs → IsSettled (first_fit len bs).1
unfolding first_fit
first_fit-IsSettled len [] s = tt
first_fit-IsSettled len (b ∷ bs) s = elim (Bool-cases (fits len b)) [
  | inl hit ↦ rw hit (carve-IsSettled len b bs (ground arith) s)
  | inr miss ↦
      rw miss (ground (arith, s, first_fit-starts_free len bs), first_fit-IsSettled len bs s.1)
]

pub length-Tiles : (from to : ℕ) (bs : List Block) → Tiles from to bs → from + length bs ≤ to
length-Tiles from to [] t = omega arith
length-Tiles from to (b ∷ bs) t = omega (arith, length-Tiles (from + (12 + b.len)) to bs t.1)

module _ (head from to : ℕ) where
  -- A call of `kmalloc`, with a size that does not wrap, or of `kfree`, with an address that stands
  -- behind the header of a block, in use or not.
  pub data Call : Heap → Heap → Type 0 where
    allocate :
        {h g : Heap} (fuel size addr : ℕ)
        → to < fuel
        → chunk_len size < 2 ^ 32
        → kmalloc head fuel h size ≡ some (addr, g)
        → Call h g
    release :
        {h : Heap} (xs : List Block) (b : Block) (ys : List Block)
        → Holds head h from to (xs ++ b ∷ ys)
        → Call h (kfree head h (b.addr + 12))

  pub data Calls (h : Heap) : Heap → Type 0 where
    none_yet : Calls h h
    one_more : {g k : Heap} → Calls h g → Call g k → Calls h k

  -- The memory stands for blocks of which no two neighbours are free.
  pub record IsQuiet (h : Heap) : Type 0 where
    pub blocks : List Block
    pub holds : Holds head h from to blocks
    pub settled : IsSettled blocks

-- The headers say which blocks there are.
Tiles-unique :
    (h : Heap) (from to : ℕ) (bs cs : List Block)
    → Tiles from to bs
    → Tiles from to cs
    → Fields h bs
    → Fields h cs
    → bs ≡ cs
Tiles-unique h from to [] [] t u f g = refl
Tiles-unique h from to [] (c ∷ cs) t u f g =
    absurd (omega (arith, t, Tiles-le (from + (12 + c.len)) to cs u.1))
Tiles-unique h from to (b ∷ bs) [] t u f g =
    absurd (omega (arith, u, Tiles-le (from + (12 + b.len)) to bs t.1))
Tiles-unique h from to (b ∷ bs) (c ∷ cs) t u f g =
    let addr : b.addr ≡ c.addr = omega (arith, t.0, u.0) in
    let len : b.len ≡ c.len = sym f.1 ∙ ap h.length addr ∙ g.1 in
    let used : b.used ≡ c.used = sym f.0 ∙ ap h.allocated addr ∙ g.0 in
    let rest =
      Tiles-unique h (from + (12 + b.len)) to bs cs t.1
        (subst (λ n. Tiles (from + (12 + n)) to cs) (sym len) u.1) f.2 g.2 in
    λ i. record { addr = addr i; len = len i; used = used i } ∷ rest i

abbrev heap_of : Heap → Option (ℕ × Heap) → Heap
heap_of h none = h
heap_of h (some r) = r.1

module _ (head from to : ℕ) where
  Holds-unique :
      (h : Heap) (bs cs : List Block) → Holds head h from to bs → Holds head h from to cs → bs ≡ cs
  Holds-unique h bs cs a b = Tiles-unique h from to bs cs a.tiles b.tiles a.fields b.fields

  kmalloc-IsQuiet :
      (h g : Heap) (fuel size addr : ℕ)
      → to < fuel
      → chunk_len size < 2 ^ 32
      → kmalloc head fuel h size ≡ some (addr, g)
      → IsQuiet head from to h
      → IsQuiet head from to g
  kmalloc-IsQuiet h g fuel size addr enough lt e q =
      let r =
        kmalloc-Refines head from to h fuel size q.blocks q.holds lt
          (omega (arith, length-Tiles from to q.blocks q.holds.tiles)) in
      let same : r.heap ≡ g = ap (heap_of h) (sym r.returns ∙ e) in
      record {
        blocks = (first_fit (chunk_len size) q.blocks).1;
        holds =
            subst (λ k. Holds head k from to (first_fit (chunk_len size) q.blocks).1) same r.holds;
        settled = first_fit-IsSettled (chunk_len size) q.blocks q.settled;
      }

  kfree-IsQuiet :
      (h : Heap) (xs : List Block) (b : Block) (ys : List Block)
      → Holds head h from to (xs ++ b ∷ ys)
      → IsQuiet head from to h
      → IsQuiet head from to (kfree head h (b.addr + 12))
  kfree-IsQuiet h xs b ys a q = elim (Bool-cases (b.used == 1)) [
    | inl taken ↦
        let r = kfree-IsFreed head from to h xs b ys a (ground arith) in
        record {
          blocks = r.blocks;
          holds = r.holds;
          settled =
              r.settled
                (subst IsSettled (Holds-unique h q.blocks (xs ++ b ∷ ys) q.holds a) q.settled);
        }
    | inr free ↦
        subst (IsQuiet head from to) (sym (kfree-not_used head from to h xs b ys a (ground arith)))
          q
  ]

  Call-IsQuiet :
      {h g : Heap} → Call head from to h g → IsQuiet head from to h → IsQuiet head from to g
  Call-IsQuiet (allocate fuel size addr enough lt e) q =
      kmalloc-IsQuiet _ _ fuel size addr enough lt e q
  Call-IsQuiet (release xs b ys a) q = kfree-IsQuiet _ xs b ys a q

  -- Whatever calls of kmalloc and kfree are made, in whatever order, no two neighbouring blocks are
  -- free afterwards if none were before.
  pub Calls-IsQuiet :
      {h g : Heap} → Calls head from to h g → IsQuiet head from to h → IsQuiet head from to g
  Calls-IsQuiet none_yet q = q
  Calls-IsQuiet (one_more before call) q = Call-IsQuiet call (Calls-IsQuiet before q)
