-- ===== src/Slob/Tests.antt =====
-- Runs of the allocator on an area of 1024 pages at 4096, with the list head at 100.
use hlos.Base.{◌≡◌, ◌==◌, if◌then◌else◌, inl, refl, [], ◌∷◌, map, some, arith}
use hlos.Links.{list_add}
use hlos.Links.Chain.{IsRing}
use hlos.Links.Insert.{list_add-IsRing}
use hlos.Slob.{Heap, kmalloc, kfree, slob_init}
use hlos.Slob.Blocks.{Block, Holds, used_of}
use hlos.Slob.SelfTest.{init_and_test}
use hlos.Slob.Shown.{line}
use hlos.Slob.Whole.{test_lines, test_addrs, init_and_test-Holds}
use hlos.Slob.Settled.{IsSettled}
use hlos.Slob.Glue.{IsFreed}
use hlos.Slob.Free.{kfree-IsFreed, kfree-not_used}
use hlos.Slob.Split.{slob_init-Holds, carve}
use hlos.Slob.Alloc.{first_fit, IsFit, kmalloc-Refines, kmalloc-not_taken}

abbrev blank : Heap
blank = record {
  links = record { prev = λ a. a; next = λ a. a };
  allocated = λ a. 0;
  length = λ a. 0;
}

blank-IsRing : IsRing blank.links 100 []
blank-IsRing = record { chain = (refl, refl); distinct = (refl, tt) }

abbrev whole : Block
whole = record { addr = 4096; len = 4194292; used = 0 }

abbrev start : Heap
start = slob_init 100 blank 4096

slob_init-Holds_run : Holds 100 start 4096 4198400 (whole ∷ [])
slob_init-Holds_run =
    slob_init-Holds 100 4096 4198400 blank 4096 blank-IsRing refl refl (omega arith)
      (inl (omega arith))

abbrev fresh : Holds 100 start 4096 4198400 (whole ∷ [])
fresh =
    slob_init-Holds 100 4096 4198400 blank 4096 blank-IsRing refl refl (omega arith)
      (inl (omega arith))

kmalloc-Refines_example :
    IsFit 100 4096 4198400 start [] (first_fit 112 (whole ∷ [])) (kmalloc 100 5 start 100)
kmalloc-Refines_example =
    kmalloc-Refines 100 4096 4198400 start 5 100 (whole ∷ []) fresh (omega arith) (omega arith)

first : first_fit 112 (whole ∷ []) ≡ (
  4108,
  record { addr = 4096; len = 100; used = 1 }
      ∷ record { addr = 4208; len = 4194180; used = 0 }
      ∷ [],
)
unfolding first_fit carve
first = refl

-- Two blocks, the first of them in use.
abbrev taken : Block
taken = record { addr = 4096; len = 100; used = 1 }

abbrev rest : Block
rest = record { addr = 4208; len = 40; used = 0 }

abbrev busy : Heap
busy = record {
  links = list_add (list_add blank.links 4212 100) 4100 100;
  allocated = λ a. if a == 4096 then 1 else 0;
  length = λ a. if a == 4096 then 100 else 40;
}

busy-Holds : Holds 100 busy 4096 4260 (taken ∷ rest ∷ [])
busy-Holds = record {
  ring =
      list_add-IsRing (list_add blank.links 4212 100) 4100 100 (4212 ∷ [])
        (list_add-IsRing blank.links 4212 100 [] blank-IsRing refl) refl;
  tiles = (refl, (refl, refl));
  fields = (refl, refl, (refl, refl, tt));
  top = omega arith;
  size = omega arith;
  apart = inl (omega arith);
}

kfree-IsFreed_example :
    IsFreed 100 4096 4260 (IsSettled (taken ∷ rest ∷ [])) [] (kfree 100 busy 4108)
unfolding used_of
kfree-IsFreed_example = kfree-IsFreed 100 4096 4260 busy [] taken (rest ∷ []) busy-Holds refl

kfree-not_used_run : kfree 100 busy 4220 ≡ busy
kfree-not_used_run = kfree-not_used 100 4096 4260 busy (taken ∷ []) rest [] busy-Holds (omega arith)

-- A single free block of 150 bytes.
abbrev tight : Block
tight = record { addr = 4096; len = 150; used = 0 }

abbrev small : Heap
small = record { links = list_add blank.links 4100 100; allocated = λ a. 0; length = λ a. 150 }

small-Holds : Holds 100 small 4096 4258 (tight ∷ [])
small-Holds = record {
  ring = list_add-IsRing blank.links 4100 100 [] blank-IsRing refl;
  tiles = (refl, refl);
  fields = (refl, refl, tt);
  top = omega arith;
  size = omega arith;
  apart = inl (omega arith);
}

kmalloc-not_taken_example : kmalloc 100 3 small 100 ≡ some (4108, small)
kmalloc-not_taken_example =
    kmalloc-not_taken 100 4096 4258 small 3 100 [] tight [] small-Holds refl refl (omega arith)
      (omega arith) (omega arith)

-- A block of 100 bytes is taken from the whole area and given back.
abbrev cut : Block
cut = record { addr = 4208; len = 4194180; used = 0 }

init_and_test-Holds_example :
    (g : Heap) × (init_and_test 100 6 blank 4096
      ≡ some (map (map line) (test_lines 4096), test_addrs 4096, g))
    × Holds 100 g 4096 4198400 (whole ∷ [])
init_and_test-Holds_example =
    init_and_test-Holds 100 4096 6 blank blank-IsRing (omega arith) (inl (omega arith))
      (omega arith)
