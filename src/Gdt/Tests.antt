-- ===== src/Gdt/Tests.antt =====
-- The flat segments.
use hlos.Base.{ℕ, ◌≡◌, ◌≢◌, refl, arith}
use hlos.Gdt.{Gdt, GdtEntry, gdt_set_gate, init_gdt}
use hlos.Gdt.Decode.{base_of, limit_of, flags_of, gdt_set_gate-decode}

abbrev empty_entry : GdtEntry
empty_entry = record {
  limit_low = 0;
  base_low = 0;
  base_middle = 0;
  access = 0;
  granularity = 0;
  base_high = 0;
}

abbrev raw : Gdt
raw = record { entries = λ i. empty_entry; ptr_limit = 0; ptr_base = 0 }

-- The code segment starts at 0 and ends at the top of the address space.
code_segment :
    (base_of ((init_gdt 0x9000 raw).entries 1) ≡ 0)
    × (limit_of ((init_gdt 0x9000 raw).entries 1) ≡ 0xf_ffff)
    × ((init_gdt 0x9000 raw).ptr_limit ≡ 39)
unfolding init_gdt gdt_set_gate base_of limit_of
code_segment = (refl, refl, refl)

gdt_set_gate-decode_run :
    let e = (gdt_set_gate raw 3 0x1234_5678 0xfff_ffff 0x9a 0xcf).entries 3 in
    (base_of e ≡ 0x1234_5678)
    × (limit_of e ≡ 0xf_ffff)
    × (e.access ≡ 0x9a)
    × (flags_of e ≡ 0xc0)
    × ((i : ℕ)
        → i ≢ 3
        → (gdt_set_gate raw 3 0x1234_5678 0xfff_ffff 0x9a 0xcf).entries i ≡ raw.entries i)
gdt_set_gate-decode_run =
    gdt_set_gate-decode raw 3 0x1234_5678 0xfff_ffff 0x9a 0xcf (omega arith) (omega arith)
