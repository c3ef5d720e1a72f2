-- ===== src/Gdt/Decode.antt =====
-- What the processor reads back from a descriptor.
use hlos.Base.{
  ℕ, ◌+◌, ◌*◌, ◌/◌, ◌%◌, ◌^◌, ◌<◌, ◌≡◌, ◌≢◌, refl, true, ◌&&◌, arith, bit_and, bit_or, ◌==◌,
}
use hlos.Base.Bits.{bit_and-mask}
use hlos.Base.Finite.{all_codes, all_codes-at}
use hlos.Gdt.{GdtEntry, Gdt, gdt_set_gate}

unfoldable pub base_of : GdtEntry → ℕ
base_of e = e.base_low + e.base_middle * 2 ^ 16 + e.base_high * 2 ^ 24

unfoldable pub limit_of : GdtEntry → ℕ
limit_of e = e.limit_low + bit_and e.granularity 0x0f * 2 ^ 16

unfoldable pub flags_of : GdtEntry → ℕ
flags_of e = bit_and e.granularity 0xf0

nibbles_table :
    all_codes 16 (λ low. all_codes 256 (λ gran.
      (bit_and (bit_or low (bit_and gran 0xf0)) 0x0f == low)
      && (bit_and (bit_or low (bit_and gran 0xf0)) 0xf0 == bit_and gran 0xf0)))
    ≡ true
unfolding all_codes
nibbles_table = refl

nibbles :
    (low gran : ℕ)
    → low < 16
    → gran < 256
    → (bit_and (bit_or low (bit_and gran 0xf0)) 0x0f ≡ low)
      × (bit_and (bit_or low (bit_and gran 0xf0)) 0xf0 ≡ bit_and gran 0xf0)
nibbles low gran l g =
    let row = all_codes-at 256 _ gran g (all_codes-at 16 _ low l nibbles_table) in ground arith

-- A gate set with a 32-bit base and an 8-bit granularity gives back the base, the low 20 bits of
-- the limit, the access byte and the high half of the granularity, and no other gate changes.
pub gdt_set_gate-decode :
    (t : Gdt) (num base limit access gran : ℕ)
    → base < 2 ^ 32
    → gran < 256
    → let e = (gdt_set_gate t num base limit access gran).entries num in
      (base_of e ≡ base)
      × (limit_of e ≡ limit % 2 ^ 20)
      × (e.access ≡ access)
      × (flags_of e ≡ bit_and gran 0xf0)
      × ((i : ℕ) → i ≢ num → (gdt_set_gate t num base limit access gran).entries i ≡ t.entries i)
unfolding gdt_set_gate base_of limit_of flags_of
gdt_set_gate-decode t num base limit access gran b g =
    let self : (num == num) ≡ true = ground arith in
    let high : bit_and (limit / 2 ^ 16) 0x0f ≡ limit / 2 ^ 16 % 2 ^ 4 =
      bit_and-mask 4 (limit / 2 ^ 16) in
    let small : bit_and (limit / 2 ^ 16) 0x0f < 16 = omega (arith, high) in
    let n = nibbles (bit_and (limit / 2 ^ 16) 0x0f) gran small g in
    (
      rw self (
          omega (
            arith,
            bit_and-mask 16 base,
            bit_and-mask 8 (base / 2 ^ 16),
            bit_and-mask 8 (base / 2 ^ 24),
          )),
      rw self (omega (arith, bit_and-mask 16 limit, n.0, high)),
      rw self refl,
      rw self n.1,
      λ i ne. ground arith,
    )
