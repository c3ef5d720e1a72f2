-- ===== src/Gdt.antt =====
-- gdt/gdt.c: the segment descriptors. `gdt_entries` is a function of the index; each field of a
-- descriptor is cut to its width, and `gdt_flush`, which is assembly, is left out.
pub mod Decode
mod Tests
use hlos.Base.{ℕ, ◌+◌, ◌-◌, ◌*◌, ◌/◌, ◌%◌, ◌^◌, bit_and, bit_or, ◌==◌, if◌then◌else◌}

pub record GdtEntry : Type 0 where
  pub limit_low : ℕ
  pub base_low : ℕ
  pub base_middle : ℕ
  pub access : ℕ
  pub granularity : ℕ
  pub base_high : ℕ

pub record Gdt : Type 0 where
  pub entries : ℕ → GdtEntry
  pub ptr_limit : ℕ
  pub ptr_base : ℕ

unfoldable pub gdt_set_gate : Gdt → (num base limit access gran : ℕ) → Gdt
gdt_set_gate g num base limit access gran = record g {
  entries = λ i.
      if i == num
      then record {
        base_low = bit_and base 0xffff;
        base_middle = bit_and (base / 2 ^ 16) 0xff;
        base_high = bit_and (base / 2 ^ 24) 0xff;
        limit_low = bit_and limit 0xffff;
        granularity = bit_or (bit_and (limit / 2 ^ 16) 0x0f) (bit_and gran 0xf0);
        access = access;
      }
      else g.entries i;
}

-- `address` is that of `gdt_entries`; a descriptor has 8 bytes.
unfoldable pub init_gdt : (address : ℕ) → Gdt → Gdt
init_gdt address g =
    let g0 = record g { ptr_limit = 8 * 5 - 1; ptr_base = address } in
    let g1 = gdt_set_gate g0 0 0 0 0 0 in
    let g2 = gdt_set_gate g1 1 0 0xffff_ffff 0x9a 0xcf in
    let g3 = gdt_set_gate g2 2 0 0xffff_ffff 0x92 0xcf in
    let g4 = gdt_set_gate g3 3 0 0xffff_ffff 0xfa 0xcf in gdt_set_gate g4 4 0 0xffff_ffff 0xf2 0xcf
