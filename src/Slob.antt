-- ===== src/Slob.antt =====
-- mm/slob.c: the allocator of small objects. A block is the address of its `struct slob_block`, of 12
-- bytes with `list` at offset 4; `allocated` and `length` are its two bit fields, of 1 and 31 bits.
-- `head` is the address of `slob_head`. The self-test stands in Slob/SelfTest.
pub mod Blocks
pub mod Settled
pub mod Glue
pub mod Free
pub mod Split
pub mod Alloc
pub mod Recover
pub mod SelfTest
pub mod Shown
pub mod Unique
pub mod Whole
mod Tests
use hlos.Base.{
  ℕ, zero, suc, ◌+◌, ◌-◌, ◌*◌, ◌%◌, ◌^◌, ◌&&◌, Option, none, some, ◌==◌, ltb, if◌then◌else◌,
}
use hlos.Links.{Links, update, list_add, list_del}

pub record Heap : Type 0 where
  pub links : Links
  pub allocated : ℕ → ℕ
  pub length : ℕ → ℕ

abbrev pub slob_used : ℕ
slob_used = 1

abbrev pub slob_free : ℕ
slob_free = 0

abbrev pub slob_min_part : ℕ
slob_min_part = 0x20

-- `block->allocated = v` and `block->length = v`
abbrev pub set_allocated : Heap → (block v : ℕ) → Heap
set_allocated h block v = record h { allocated = update h.allocated block v }

abbrev pub set_length : Heap → (block v : ℕ) → Heap
set_length h block v = record h { length = update h.length block (v % 2 ^ 31) }

-- `le_to_block`
abbrev pub le_to_block : ℕ → ℕ
le_to_block le = (le + 2 ^ 32 - 4) % 2 ^ 32

-- The rest of `split_chunk` where another chunk fits.
unfoldable pub cut_chunk : Heap → (block len left : ℕ) → Heap
cut_chunk h block len left =
    let new_chunk = (block + len) % 2 ^ 32 in
    let h1 = set_length (set_allocated h new_chunk slob_free) new_chunk left in
    let h2 = record h1 { links = list_add h1.links (new_chunk + 4) (block + 4) } in
    set_allocated (set_length h2 block ((len + 2 ^ 32 - 12) % 2 ^ 32)) block slob_used

unfoldable pub split_chunk : Heap → (block len : ℕ) → Heap
split_chunk h block len =
    let left = (h.length block + 2 ^ 32 - len) % 2 ^ 32 in
    if ltb left (12 + slob_min_part) then h else cut_chunk h block len left

-- `block->length += other->length + sizeof(slob_block_t); list_del(&removed->list)`, where `other` is
-- the block that `removed` names.
unfoldable pub absorb : Heap → (block removed : ℕ) → Heap
absorb h block removed =
    let h1 = set_length h block (h.length block + (h.length removed + 12)) in
    record h1 { links = list_del h1.links (removed + 4) }

module _ (head : ℕ) where
  -- The first `if` of `glue_chunk`, with the new `chunk_block`.
  unfoldable pub glue_prev : Heap → (block prev : ℕ) → Heap × ℕ
  glue_prev h block prev =
      if prev == head
      then (h, block)
      else if h.allocated (le_to_block prev) == slob_free
      then (absorb h (le_to_block prev) block, le_to_block prev)
      else (h, block)

  unfoldable pub glue_next : Heap → (block next : ℕ) → Heap
  glue_next h block next =
      if next == head
      then h
      else if h.allocated (le_to_block next) == slob_free
      then absorb h block (le_to_block next)
      else h

  unfoldable pub glue_chunk : Heap → ℕ → Heap
  glue_chunk h block =
      let prev = h.links.prev (block + 4) in
      let next = h.links.next (block + 4) in
      let (h', block') = glue_prev h block prev in glue_next h' block' next

  -- The loop of `kmalloc` from `le` on, with the returned address, null if no block is large enough.
  unfoldable pub kmalloc_loop : ℕ → Heap → (len le : ℕ) → Option (ℕ × Heap)
  kmalloc_loop zero h len le = none
  kmalloc_loop (suc fuel) h len le =
      let block = le_to_block le in
      let rest = kmalloc_loop fuel h len (h.links.next le) in
      if le == head
      then some (0, h)
      else if (h.allocated block == slob_free) && ltb len (h.length block)
      then some ((block + 12) % 2 ^ 32, split_chunk h block len)
      else rest

  unfoldable pub kmalloc : ℕ → Heap → ℕ → Option (ℕ × Heap)
  kmalloc fuel h size =
      let len = ((if ltb slob_min_part size then size else slob_min_part) + 12) % 2 ^ 32 in
      kmalloc_loop fuel h len (h.links.next head)

  unfoldable pub kfree : Heap → ℕ → Heap
  kfree h addr =
      let block = (addr + 2 ^ 32 - 12) % 2 ^ 32 in
      if h.allocated block == slob_used
      then glue_chunk (set_allocated h block slob_free) block
      else h

  -- `slob_init` up to the call of `slob_test`; `block` is the address of the pages that
  -- `__slob_alloc_pages` returns.
  unfoldable pub slob_init : Heap → (block : ℕ) → Heap
  slob_init h block =
      let h1 = set_length (set_allocated h block slob_free) block (2 ^ 10 * 4096 - 12) in
      record h1 { links = list_add h1.links (block + 4) head }
