-- ===== src/Ksym.antt =====
-- kernel/ksym.c: the table of the kernel's function symbols. `num`, `addr` and `name` are
-- `kallsyms_num`, `kallsyms_addr` and `kallsyms_name`; the table that the boot loader leaves is given
-- by the value and the name offset of each symbol.
pub mod Sort
pub mod Lookup
pub mod Sections
pub mod Trace
mod Tests
use hlos.Base.{
  ℕ, zero, suc, ◌+◌, ◌-◌, ◌/◌, ◌%◌, ◌^◌, Bool, ◌&&◌, Option, none, some, ◌==◌, ltb, leb,
  if◌then◌else◌,
}
use hlos.Links.{update}

abbrev pub page_offset : ℕ
page_offset = 0xc000_0000

pub record Symbols : Type 0 where
  pub num : ℕ
  pub addr : ℕ → ℕ
  pub name : ℕ → ℕ

-- `text_start` and `text_end` are the linker script's `kern_text_start` and `kern_text_end`.
unfoldable pub is_kernel_text : (text_start text_end addr : ℕ) → Bool
is_kernel_text text_start text_end addr =
    ltb ((text_start + page_offset) % 2 ^ 32) addr && ltb addr ((text_end + page_offset) % 2 ^ 32)

-- The loop over the symbol table, from entry `i` on: `value` and `offset` are the `value` and `name`
-- fields, `strtab` is `strtab_offset`. An index above 1023 is not caught, as in the code.
unfoldable pub load_loop :
    ℕ → (text_start text_end strtab : ℕ) → (value offset : ℕ → ℕ) → Symbols → ℕ → Symbols
load_loop zero text_start text_end strtab value offset s i = s
load_loop (suc count) text_start text_end strtab value offset s i =
    load_loop count text_start text_end strtab value offset
      (if is_kernel_text text_start text_end (value i)
        then record s {
          addr = update s.addr s.num (value i);
          name = update s.name s.num ((strtab + offset i) % 2 ^ 32);
          num = s.num + 1;
        }
        else s)
      (i + 1)

-- The inner loop of the sort, from `k` on: the final `idx` and `addr_t`.
unfoldable pub scan : ℕ → (ℕ → ℕ) → (k idx addr_t : ℕ) → ℕ × ℕ
scan zero addr k idx addr_t = (idx, addr_t)
scan (suc count) addr k idx addr_t =
    if ltb (addr k) addr_t
    then scan count addr (k + 1) k (addr k)
    else scan count addr (k + 1) idx addr_t

unfoldable pub swap : Symbols → (i idx addr_t : ℕ) → Symbols
swap s i idx addr_t = record s {
  addr = update (update s.addr idx (s.addr i)) i addr_t;
  name = update (update s.name idx (s.name i)) i (s.name idx);
}

-- One round of the outer loop.
unfoldable pub sort_step : Symbols → ℕ → Symbols
sort_step s i =
    let (idx, addr_t) = scan (s.num - (i + 1)) s.addr (i + 1) i (s.addr i) in
    if i == idx then s else swap s i idx addr_t

unfoldable pub sort_loop : ℕ → Symbols → ℕ → Symbols
sort_loop zero s i = s
sort_loop (suc count) s i = sort_loop count (sort_step s i) (i + 1)

unfoldable pub load_ksym :
    (text_start text_end strtab symtab_size : ℕ) → (value offset : ℕ → ℕ) → Symbols → Symbols
load_ksym text_start text_end strtab symtab_size value offset s =
    let loaded =
      load_loop symtab_size text_start text_end strtab value offset (record s { num = 0 }) 0 in
    sort_loop loaded.num loaded 0

-- The binary search of `get_symbol_pos`.
unfoldable pub search_loop : ℕ → (ℕ → ℕ) → (addr low high : ℕ) → Option ℕ
search_loop zero addrs addr low high = none
search_loop (suc fuel) addrs addr low high =
    let mid = low + (high - low) / 2 in
    let up = search_loop fuel addrs addr mid high in
    let down = search_loop fuel addrs addr low mid in
    if ltb 1 (high - low) then (if leb (addrs mid) addr then up else down) else some low

-- The loop back to the first symbol with the same address.
unfoldable pub first_alias : (ℕ → ℕ) → ℕ → ℕ
first_alias addrs zero = zero
first_alias addrs (suc low) =
    if addrs low == addrs (suc low) then first_alias addrs low else suc low

-- The position and the new `*offset`.
unfoldable pub get_symbol_pos : ℕ → Symbols → ℕ → Option (ℕ × ℕ)
get_symbol_pos fuel s addr = elim (search_loop fuel s.addr addr 0 s.num) [
  | none ↦ none
  | some found ↦
      let low = first_alias s.addr found in some (low, (addr + 2 ^ 32 - s.addr low) % 2 ^ 32)
]

unfoldable pub ksym_lookup_name : ℕ → Symbols → ℕ → Option ℕ
ksym_lookup_name fuel s addr = elim (get_symbol_pos fuel s addr) [
  | none ↦ none
  | some (idx, offset) ↦ some (s.name idx)
]
