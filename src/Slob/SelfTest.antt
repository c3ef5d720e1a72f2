-- ===== src/Slob/SelfTest.antt =====
-- The self-test of mm/slob.c. A line of `slob_print` is what it shows of a block; the numbers are the
-- arguments of printk.
use hlos.Base.{ℕ, List, [], ◌∷◌, ◌++◌, map, Option, some, ◌>>=◌}
use hlos.Links.{list_for_each}
use hlos.Slob.{Heap, le_to_block, kmalloc, kfree, slob_init}

pub record BlockLine : Type 0 where
  pub addr : ℕ
  pub length : ℕ
  pub used : ℕ

abbrev pub line_of : Heap → (le : ℕ) → BlockLine
line_of h le =
    let block = le_to_block le in
    record { addr = block; length = h.length block; used = h.allocated block }

module _ (head fuel : ℕ) where
  unfoldable pub slob_print : Heap → Option (List BlockLine)
  slob_print h = list_for_each fuel h.links head >>= λ les. some (map (line_of h) les)

  -- The part of `slob_test` up to its fourth `slob_print`: what is shown, the addresses that the calls
  -- of `kmalloc` return, in order, `addr1` and the heap.
  unfoldable pub test_small : Heap → Option (List (List BlockLine) × List ℕ × ℕ × Heap)
  unfolding slob_print
  test_small h = do
    shown1 ← slob_print h
    (first_addr1, h1) ← kmalloc head fuel h 100
    shown2 ← slob_print h1
    let h2 = kfree head h1 first_addr1
    shown3 ← slob_print h2
    (addr1, h3) ← kmalloc head fuel h2 100
    (addr2, h4) ← kmalloc head fuel h3 200
    (addr3, h5) ← kmalloc head fuel h4 300
    let h6 = kfree head (kfree head h5 addr2) addr3
    shown4 ← slob_print h6
    some (
      shown1 ∷ shown2 ∷ shown3 ∷ shown4 ∷ [],
      first_addr1 ∷ addr1 ∷ addr2 ∷ addr3 ∷ [],
      addr1,
      h6,
    )

  -- The rest of `slob_test`.
  unfoldable pub test_mixed : (addr1 : ℕ) → Heap → Option (List (List BlockLine) × List ℕ × Heap)
  unfolding slob_print
  test_mixed addr1 h = do
    (addr4, h1) ← kmalloc head fuel h 2220
    (addr5, h2) ← kmalloc head fuel h1 240
    (addr6, h3) ← kmalloc head fuel h2 2230
    let h4 = kfree head (kfree head h3 addr6) addr1
    shown5 ← slob_print h4
    (addr7, h5) ← kmalloc head fuel h4 220
    (addr8, h6) ← kmalloc head fuel h5 1200
    let h7 = kfree head (kfree head h6 addr4) addr8
    shown6 ← slob_print h7
    let h8 = kfree head (kfree head h7 addr7) addr5
    shown7 ← slob_print h8
    some (shown5 ∷ shown6 ∷ shown7 ∷ [], addr4 ∷ addr5 ∷ addr6 ∷ addr7 ∷ addr8 ∷ [], h8)

  -- What the calls of `slob_print` show, the addresses that those of `kmalloc` return, and the heap at
  -- the end.
  unfoldable pub slob_test : Heap → Option (List (List BlockLine) × List ℕ × Heap)
  unfolding test_small test_mixed
  slob_test h = do
    (shown, addrs, addr1, h1) ← test_small h
    (more_shown, more_addrs, h2) ← test_mixed addr1 h1
    some (shown ++ more_shown, addrs ++ more_addrs, h2)

  -- `slob_init` as a whole.
  unfoldable pub init_and_test : Heap → (block : ℕ) → Option (List (List BlockLine) × List ℕ × Heap)
  unfolding slob_test
  init_and_test h block = slob_test (slob_init head h block)
