-- ===== src/Slob/Whole.antt =====
-- What the self-test of mm/slob.c shows, and what it leaves.
use hlos.Base.{
  ℕ, ◌+◌, ◌^◌, ◌<◌, ◌≤◌, ◌≡◌, ◌⊎◌, refl, ap, sym, subst, ◌∙◌, List, [], ◌∷◌, ◌++◌, map, Option,
  some, arith, ◌>>=◌, length,
}
use hlos.Links.Chain.{IsRing}
use hlos.Slob.{Heap, kmalloc, kfree, slob_init}
use hlos.Slob.Blocks.{Block, Tiles, Holds, used_of}
use hlos.Slob.Settled.{IsSettled}
use hlos.Slob.Free.{kfree-IsFreed}
use hlos.Slob.Split.{carve, slob_init-Holds}
use hlos.Slob.Alloc.{first_fit, chunk_len, kmalloc-Refines}
use hlos.Slob.SelfTest.{slob_print, test_small, test_mixed, slob_test, init_and_test}
use hlos.Slob.Unique.{settled_unique}
use hlos.Slob.Shown.{line, slob_print-Holds}
use hlos.Slob.Recover.{first_fit-IsSettled}

-- A heap that stands for blocks of which no two neighbours are free.
abbrev Quiet : (head base to : ℕ) → Heap → List Block → Type 0
Quiet head base to h bs = Holds head h base to bs × IsSettled bs

then_some :
    {A B : Type 0} {o : Option A} {x : A} (f : A → Option B) {r : Option B}
    → o ≡ some x
    → f x ≡ r
    → (o >>= f) ≡ r
then_some f e g = ap (λ o. o >>= f) e ∙ g

abbrev in_use : (addr len : ℕ) → Block
in_use addr len = record { addr = addr; len = len; used = 1 }

abbrev unused : (addr len : ℕ) → Block
unused addr len = record { addr = addr; len = len; used = 0 }

-- The blocks in the course of the test.
abbrev whole : ℕ → List Block
whole base = unused base 4194292 ∷ []

abbrev middle_freed : ℕ → List Block
middle_freed base =
    in_use base 100
    ∷ unused (base + 112) 200
    ∷ in_use (base + 112 + 212) 300
    ∷ unused (base + 112 + 212 + 312) 4193656
    ∷ []

abbrev one_used : ℕ → List Block
one_used base = in_use base 100 ∷ unused (base + 112) 4194180 ∷ []

abbrev three_used : ℕ → List Block
three_used base =
    in_use base 100
    ∷ in_use (base + 112) 2220
    ∷ in_use (base + 112 + 2232) 240
    ∷ unused (base + 112 + 2232 + 252) 4191696
    ∷ []

abbrev first_freed : ℕ → List Block
first_freed base =
    unused base 100
    ∷ in_use (base + 112) 2220
    ∷ in_use (base + 112 + 2232) 240
    ∷ unused (base + 112 + 2232 + 252) 4191696
    ∷ []

abbrev second_freed : ℕ → List Block
second_freed base =
    unused base 2332
    ∷ in_use (base + 112 + 2232) 240
    ∷ in_use (base + 112 + 2232 + 252) 220
    ∷ in_use (base + 112 + 2232 + 252 + 232) 1200
    ∷ unused (base + 112 + 2232 + 252 + 232 + 1212) 4190252
    ∷ []

abbrev two_used : ℕ → List Block
two_used base =
    unused base 2332
    ∷ in_use (base + 112 + 2232) 240
    ∷ in_use (base + 112 + 2232 + 252) 220
    ∷ unused (base + 112 + 2232 + 252 + 232) 4191464
    ∷ []

abbrev last_used : ℕ → List Block
last_used base =
    unused base 2332
    ∷ in_use (base + 112 + 2232) 240
    ∷ unused (base + 112 + 2232 + 252) 4191696
    ∷ []

module _ {head base to : ℕ} {h : Heap} where
  take :
      (fuel : ℕ) {bs : List Block} (size : ℕ)
      → Quiet head base to h bs
      → chunk_len size < 2 ^ 32
      → length bs < fuel
      → (g : Heap) × (kmalloc head fuel h size ≡ some ((first_fit (chunk_len size) bs).0, g))
        × Quiet head base to g (first_fit (chunk_len size) bs).1
  take fuel {bs = bs} size a lt enough =
      let r = kmalloc-Refines head base to h fuel size bs a.0 lt enough in
      (r.heap, r.returns, (r.holds, first_fit-IsSettled (chunk_len size) bs a.1))

  give_back :
      (xs : List Block) (b : Block) (ys zs : List Block)
      → Quiet head base to h (xs ++ b ∷ ys)
      → b.used ≡ 1
      → Tiles base to zs
      → IsSettled zs
      → used_of zs ≡ used_of xs ++ used_of ys
      → Quiet head base to (kfree head h (b.addr + 12)) zs
  give_back xs b ys zs a used t s e =
      let r = kfree-IsFreed head base to h xs b ys a.0 used in
      let same =
        settled_unique base to r.blocks zs r.holds.tiles t (r.settled a.1) s
          (r.same_used ∙ sym e) in
      (subst (Holds head (kfree head h (b.addr + 12)) base to) same r.holds, s)

  shows :
      (fuel : ℕ) {bs : List Block}
      → Quiet head base to h bs
      → length bs < fuel
      → slob_print head fuel h ≡ some (map line bs)
  shows fuel {bs = bs} a enough = slob_print-Holds head fuel h base to bs a.0 enough

module _ (head base to fuel : ℕ) (enough : 5 < fuel) (end : to ≡ base + 4194304) where
  test_small-Quiet :
      (h : Heap)
      → Quiet head base to h (whole base)
      → (g : Heap) × (test_small head fuel h
          ≡ some (
            (map line (whole base)
                ∷ map line (one_used base)
                ∷ map line (whole base)
                ∷ map line (one_used base)
                ∷ []),
            (base + 12) ∷ (base + 12) ∷ (base + 112 + 12) ∷ (base + 112 + 212 + 12) ∷ [],
            base + 12,
            g,
          ))
        × Quiet head base to g (one_used base)
  unfolding test_small first_fit carve used_of
  test_small-Quiet h a =
      let t1 = take fuel 100 a (omega arith) (omega arith) in
      let f2 =
        give_back [] (in_use base 100) (unused (base + 112) 4194180 ∷ []) (whole base) t1.2 refl
          (omega arith, omega arith) (refl, tt) refl in
      let t3 = take fuel 100 f2 (omega arith) (omega arith) in
      let t4 = take fuel 200 t3.2 (omega arith) (omega arith) in
      let t5 = take fuel 300 t4.2 (omega arith) (omega arith) in
      let f6 =
        give_back (in_use base 100 ∷ []) (in_use (base + 112) 200)
          (in_use (base + 112 + 212) 300 ∷ unused (base + 112 + 212 + 312) 4193656 ∷ [])
          (middle_freed base) t5.2 refl
          (omega arith, (omega arith, (omega arith, (omega arith, omega arith))))
          (refl, (refl, (refl, (refl, tt)))) refl in
      let f7 =
        give_back (in_use base 100 ∷ unused (base + 112) 200 ∷ []) (in_use (base + 112 + 212) 300)
          (unused (base + 112 + 212 + 312) 4193656 ∷ []) (one_used base) f6 refl
          (omega arith, (omega arith, omega arith)) (refl, (refl, tt)) refl in
      (
        _,
        then_some _ (shows fuel a (omega arith)) (
            then_some _ t1.1 (
              then_some _ (shows fuel t1.2 (omega arith)) (
                then_some _ (shows fuel f2 (omega arith)) (
                  then_some _ t3.1 (
                    then_some _ t4.1
                      (then_some _ t5.1 (then_some _ (shows fuel f7 (omega arith)) refl))))))),
        f7,
      )

  test_mixed-Quiet :
      (h : Heap)
      → Quiet head base to h (one_used base)
      → (g : Heap) × (test_mixed head fuel (base + 12) h
          ≡ some (
            (map line (first_freed base) ∷ map line (two_used base) ∷ map line (whole base) ∷ []),
            (base + 112 + 12)
                ∷ (base + 112 + 2232 + 12)
                ∷ (base + 112 + 2232 + 252 + 12)
                ∷ (base + 112 + 2232 + 252 + 12)
                ∷ (base + 112 + 2232 + 252 + 232 + 12)
                ∷ [],
            g,
          ))
        × Quiet head base to g (whole base)
  unfolding test_mixed first_fit carve used_of
  test_mixed-Quiet h a =
      let t1 = take fuel 2220 a (omega arith) (omega arith) in
      let t2 = take fuel 240 t1.2 (omega arith) (omega arith) in
      let t3 = take fuel 2230 t2.2 (omega arith) (omega arith) in
      let f4 =
        give_back (in_use base 100 ∷ in_use (base + 112) 2220 ∷ in_use (base + 112 + 2232) 240 ∷ [])
          (in_use (base + 112 + 2232 + 252) 2230)
          (unused (base + 112 + 2232 + 252 + 2242) 4189454 ∷ []) (three_used base) t3.2 refl
          (omega arith, (omega arith, (omega arith, (omega arith, omega arith))))
          (refl, (refl, (refl, (refl, tt)))) refl in
      let f5 =
        give_back [] (in_use base 100)
          (in_use (base + 112) 2220
            ∷ in_use (base + 112 + 2232) 240
            ∷ unused (base + 112 + 2232 + 252) 4191696
            ∷ [])
          (first_freed base) f4 refl
          (omega arith, (omega arith, (omega arith, (omega arith, omega arith))))
          (refl, (refl, (refl, (refl, tt)))) refl in
      let t6 = take fuel 220 f5 (omega arith) (omega arith) in
      let t7 = take fuel 1200 t6.2 (omega arith) (omega arith) in
      let f8 =
        give_back (unused base 100 ∷ []) (in_use (base + 112) 2220)
          (in_use (base + 112 + 2232) 240
            ∷ in_use (base + 112 + 2232 + 252) 220
            ∷ in_use (base + 112 + 2232 + 252 + 232) 1200
            ∷ unused (base + 112 + 2232 + 252 + 232 + 1212) 4190252
            ∷ [])
          (second_freed base) t7.2 refl
          (omega arith, (omega arith, (omega arith, (omega arith, (omega arith, omega arith)))))
          (refl, (refl, (refl, (refl, (refl, tt))))) refl in
      let f9 =
        give_back
          (unused base 2332
            ∷ in_use (base + 112 + 2232) 240
            ∷ in_use (base + 112 + 2232 + 252) 220
            ∷ [])
          (in_use (base + 112 + 2232 + 252 + 232) 1200)
          (unused (base + 112 + 2232 + 252 + 232 + 1212) 4190252 ∷ []) (two_used base) f8 refl
          (omega arith, (omega arith, (omega arith, (omega arith, omega arith))))
          (refl, (refl, (refl, (refl, tt)))) refl in
      let f10 =
        give_back (unused base 2332 ∷ in_use (base + 112 + 2232) 240 ∷ [])
          (in_use (base + 112 + 2232 + 252) 220)
          (unused (base + 112 + 2232 + 252 + 232) 4191464 ∷ []) (last_used base) f9 refl
          (omega arith, (omega arith, (omega arith, omega arith))) (refl, (refl, (refl, tt)))
          refl in
      let f11 =
        give_back (unused base 2332 ∷ []) (in_use (base + 112 + 2232) 240)
          (unused (base + 112 + 2232 + 252) 4191696 ∷ []) (whole base) f10 refl
          (omega arith, omega arith) (refl, tt) refl in
      (
        _,
        then_some _ t1.1 (
            then_some _ t2.1 (
              then_some _ t3.1 (
                then_some _ (shows fuel f5 (omega arith)) (
                  then_some _ t6.1 (
                    then_some _ t7.1 (
                      then_some _ (shows fuel f9 (omega arith))
                        (then_some _ (shows fuel f11 (omega arith)) refl))))))),
        f11,
      )

-- What each `slob_print` of the self-test shows, on an area at `base`.
abbrev pub test_lines : (base : ℕ) → List (List Block)
test_lines base =
    whole base
    ∷ one_used base
    ∷ whole base
    ∷ one_used base
    ∷ first_freed base
    ∷ two_used base
    ∷ whole base
    ∷ []

-- What the calls of `kmalloc` in the self-test return.
abbrev pub test_addrs : (base : ℕ) → List ℕ
test_addrs base =
    (base + 12)
    ∷ (base + 12)
    ∷ (base + 112 + 12)
    ∷ (base + 112 + 212 + 12)
    ∷ (base + 112 + 12)
    ∷ (base + 112 + 2232 + 12)
    ∷ (base + 112 + 2232 + 252 + 12)
    ∷ (base + 112 + 2232 + 252 + 12)
    ∷ (base + 112 + 2232 + 252 + 232 + 12)
    ∷ []

-- If the list is empty and the area ends below 2^32 and does not hold the list head, `slob_init`
-- with its self-test ends with more than five rounds for each loop: the nine calls of kmalloc
-- return the addresses in the area that `test_addrs` lists, each behind the header of the block
-- that it takes, the seven `slob_print` show the blocks that `test_lines` lists, and in the end
-- the area is one free block, as before the test.
pub init_and_test-Holds :
    (head base fuel : ℕ) (h : Heap)
    → IsRing h.links head []
    → base + 2 ^ 22 < 2 ^ 32
    → (head < base + 4) ⊎ (base + 2 ^ 22 + 4 ≤ head)
    → 5 < fuel
    → (g : Heap) × (init_and_test head fuel h base
        ≡ some (map (map line) (test_lines base), test_addrs base, g))
      × Holds head g base (base + 2 ^ 22) (whole base)
unfolding init_and_test slob_test
init_and_test-Holds head base fuel h r top apart enough =
    let to = base + 2 ^ 22 in
    let a = slob_init-Holds head base to h base r refl refl top apart in
    let small =
      test_small-Quiet head base to fuel enough refl (slob_init head h base) (a, (refl, tt)) in
    let mixed = test_mixed-Quiet head base to fuel enough refl small.0 small.2 in
    (mixed.0, then_some _ small.1 (then_some _ mixed.1 refl), mixed.2.0)
