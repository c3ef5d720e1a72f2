-- ===== src/Bytes/Compare.antt =====
-- `memcmp` and `memscan`.
use hlos.Base.{
  ℕ, zero, suc, ◌+◌, ◌<◌, ◌≤◌, ◌≡◌, ◌≢◌, ◌↔◌, ◌⊎◌, inl, inr, refl, arith, ◌==◌, Bool-cases,
}
use hlos.Base.Int.{pos}
use hlos.Bytes.{Mem, memcmp, memscan}

memcmp-step :
    (m : Mem) (cs ct count : ℕ)
    → memcmp m cs ct (suc count) ≡ pos 0
    → (m cs ≡ m ct) × (memcmp m (cs + 1) (ct + 1) count ≡ pos 0)
unfolding memcmp
memcmp-step m cs ct count e = ground arith

memcmp-same :
    (m : Mem) (cs ct count : ℕ)
    → memcmp m cs ct count ≡ pos 0
    → (i : ℕ) → i < count
    → m (cs + i) ≡ m (ct + i)
memcmp-same m cs ct zero e i h = absurd (omega arith)
memcmp-same m cs ct (suc count) e zero h = ground (arith, memcmp-step m cs ct count e)
memcmp-same m cs ct (suc count) e (suc i) h =
    ground (arith, memcmp-same m (cs + 1) (ct + 1) count (memcmp-step m cs ct count e).1 i)

memcmp-zero_of :
    (m : Mem) (cs ct count : ℕ)
    → ((i : ℕ) → i < count → m (cs + i) ≡ m (ct + i))
    → memcmp m cs ct count ≡ pos 0
unfolding memcmp
memcmp-zero_of m cs ct zero h = refl
memcmp-zero_of m cs ct (suc count) h =
    ground (arith, h 0, memcmp-zero_of m (cs + 1) (ct + 1) count (λ i k. ground (arith, h (suc i))))

-- `memcmp` is 0 exactly when the two areas hold the same bytes.
pub memcmp-eq-zero_iff :
    (m : Mem) (cs ct count : ℕ)
    → (memcmp m cs ct count ≡ pos 0) ↔ ((i : ℕ) → i < count → m (cs + i) ≡ m (ct + i))
memcmp-eq-zero_iff m cs ct count = (memcmp-same m cs ct count, memcmp-zero_of m cs ct count)

-- `p` is the first place of the area that holds `c`, or one past the area.
pub record IsScan (m : Mem) (addr c size p : ℕ) : Type 0 where
  pub lower : addr ≤ p
  pub upper : p ≤ addr + size
  pub passed : (a : ℕ) → addr ≤ a → a < p → m a ≢ c
  pub stopped : (p ≡ addr + size) ⊎ (m p ≡ c)

-- `memscan` stops at the first byte that equals the value, or one past the area, and passes no
-- such byte.
pub memscan-IsScan : (m : Mem) (addr c size : ℕ) → IsScan m addr c size (memscan m addr c size)
unfolding memscan
memscan-IsScan m addr c zero = record {
  lower = omega arith;
  upper = omega arith;
  passed = λ a h k. absurd (omega arith);
  stopped = omega arith;
}
memscan-IsScan m addr c (suc size) =
    let rest = memscan-IsScan m (addr + 1) c size in
    elim (Bool-cases (m addr == c)) [
      | inl hit ↦ rw hit (record {
        lower = omega arith;
        upper = omega arith;
        passed = λ a h k. absurd (omega arith);
        stopped = inr (ground arith);
      })
      | inr miss ↦ rw miss (record {
        lower = omega (arith, rest.lower);
        upper = omega (arith, rest.upper);
        passed = λ a h k. ground (arith, rest.passed a);
        stopped = ground (arith, rest.stopped);
      })
    ]
