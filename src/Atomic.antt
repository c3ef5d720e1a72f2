-- ===== src/Atomic.antt =====
-- include/atomic.h: the atomic counters. An `atomic_t` is the 32-bit pattern of its `counter`, and an
-- `int` argument the pattern of its value. Each function is one locked instruction, so a run of
-- several processors is a sequence of them; the functions that test give the counter afterwards and
-- the zero flag.
mod Tests
use hlos.Base.{ℕ, ◌+◌, ◌-◌, ◌%◌, ◌^◌, Bool, ◌==◌}

abbrev pub atomic_read : ℕ → ℕ
atomic_read v = v

abbrev pub atomic_set : (v i : ℕ) → ℕ
atomic_set v i = i

abbrev pub atomic_add : (v i : ℕ) → ℕ
atomic_add v i = (v + i) % 2 ^ 32

abbrev pub atomic_sub : (v i : ℕ) → ℕ
atomic_sub v i = (v + 2 ^ 32 - i) % 2 ^ 32

abbrev pub atomic_sub_and_test : (v i : ℕ) → ℕ × Bool
atomic_sub_and_test v i = let c = (v + 2 ^ 32 - i) % 2 ^ 32 in (c, c == 0)

abbrev pub atomic_inc : ℕ → ℕ
atomic_inc v = (v + 1) % 2 ^ 32

abbrev pub atomic_inc_and_test : ℕ → ℕ × Bool
atomic_inc_and_test v = let c = (v + 1) % 2 ^ 32 in (c, c == 0)

abbrev pub atomic_dec : ℕ → ℕ
atomic_dec v = (v + 2 ^ 32 - 1) % 2 ^ 32

abbrev pub atomic_dec_and_test : ℕ → ℕ × Bool
atomic_dec_and_test v = let c = (v + 2 ^ 32 - 1) % 2 ^ 32 in (c, c == 0)
