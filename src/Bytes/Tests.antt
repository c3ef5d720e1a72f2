-- ===== src/Bytes/Tests.antt =====
-- Runs of the `mem*` functions on areas that overlap, and on equal and unequal ones.
use hlos.Base.{ℕ, ◌+◌, ◌%◌, ◌<◌, ◌≡◌, ◌↔◌, refl}
use hlos.Base.Int.{pos, negsuc}
use hlos.Bytes.{Mem, memset, memmove, memcpy, memcmp, memscan}
use hlos.Bytes.Move.{IsCopied, memmove-IsCopied, memset_lem}
use hlos.Bytes.Compare.{IsScan, memcmp-eq-zero_iff, memscan-IsScan}

-- Each byte holds its address.
abbrev counting : Mem
counting a = a

-- Upwards the copy would overwrite what it still has to read.
memmove_overlap : (memmove counting 12 10 4 15 ≡ 13) × (memcpy counting 12 10 4 15 ≡ 11)
unfolding memmove memcpy
memmove_overlap = (refl, refl)

memmove-IsCopied_example : IsCopied counting 12 10 4 (memmove counting 12 10 4)
memmove-IsCopied_example = memmove-IsCopied counting 12 10 4

memset_lem_run : memset counting 10 300 3 11 ≡ 44
memset_lem_run = memset_lem counting 10 300 3 11

-- The same four bytes over and over.
abbrev repeating : Mem
repeating a = a % 4

memcmp-eq-zero_iff_run :
    (memcmp repeating 4 8 3 ≡ pos 0) ↔ ((i : ℕ) → i < 3 → repeating (4 + i) ≡ repeating (8 + i))
memcmp-eq-zero_iff_run = memcmp-eq-zero_iff repeating 4 8 3

memcmp_order : memcmp counting 4 8 3 ≡ negsuc 3
unfolding memcmp
memcmp_order = refl

memscan-IsScan_run : IsScan counting 10 12 5 (memscan counting 10 12 5)
memscan-IsScan_run = memscan-IsScan counting 10 12 5
