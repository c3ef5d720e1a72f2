-- ===== src/Ksym/Tests.antt =====
-- A table of four symbols, two of them at one address.
use hlos.Base.{
  ℕ, ◌+◌, ◌-◌, ◌%◌, ◌^◌, ◌<◌, ◌≡◌, ◌⊎◌, inl, inr, refl, sym, subst, List, [], ◌∷◌, some, arith,
  get_or, ◌==◌, if◌then◌else◌,
}
use hlos.Ksym.{Symbols, scan, swap, sort_step, sort_loop, get_symbol_pos}
use hlos.Ksym.Sort.{IsSorting, sort_loop-sorts}
use hlos.Bytes.{Mem}
use hlos.Str.Text.{IsStr}
use hlos.Ksym.{load_ksym}
use hlos.Ksym.Sections.{
  SectionHeader, Image, section_at, AreNamed, load_ksym_from_multiboot,
  load_ksym_from_multiboot-sections,
}
use hlos.Ksym.Trace.{TraceLine, Frame, AreShown, print_stack_trace, print_stack_trace-AreShown}
use hlos.Ksym.Lookup.{IsPosition, get_symbol_pos-IsPosition}

abbrev unsorted : Symbols
unsorted = record {
  num = 4;
  addr = λ i. get_or (30 ∷ 10 ∷ 20 ∷ 10 ∷ []) i 0;
  name = λ i. get_or (103 ∷ 101 ∷ 102 ∷ 104 ∷ []) i 0;
}

abbrev sorted : Symbols
sorted = sort_loop 4 unsorted 0

sorted_names : (sorted.name 0 ≡ 101) × (sorted.name 2 ≡ 102) × (sorted.addr 3 ≡ 30)
unfolding sort_loop sort_step scan swap
sorted_names = (refl, refl, refl)

sort_loop-sorts_example : IsSorting unsorted 4 (sort_loop 4 unsorted 0)
sort_loop-sorts_example = sort_loop-sorts unsorted

sorted_start : (sorted.addr 0 ≡ 10) × (sorted.num ≡ 4)
unfolding sort_loop sort_step scan swap
sorted_start = (refl, refl)

get_symbol_pos-IsPosition_example :
    (p : ℕ) × (get_symbol_pos 4 sorted 25 ≡ some (p, 25 - sorted.addr p)) × IsPosition sorted 25 p
get_symbol_pos-IsPosition_example =
    get_symbol_pos-IsPosition 4 sorted 25
      (λ j k a b c.
        sort_loop-sorts_example.sorted j k a (omega (arith, sorted_start.1))
          (omega (arith, sorted_start.1)))
      (omega (arith, sorted_start.1)) (omega (arith, sorted_start.1))
      (omega (arith, sorted_start.0)) (omega arith)

-- Two frames at 100 and 200, with the return addresses 25 and 12.
abbrev stack_words : ℕ → ℕ
stack_words a = if a == 100 then 200 else if a == 104 then 25 else if a == 204 then 12 else 0

abbrev frames : List Frame
frames = record { base = 100; return = 25 } ∷ record { base = 200; return = 12 } ∷ []

print_stack_trace-AreShown_example :
    (lines : List TraceLine) × (print_stack_trace 4 sorted stack_words 3 100 ≡ some lines)
    × AreShown sorted frames lines
print_stack_trace-AreShown_example =
    print_stack_trace-AreShown 4 sorted stack_words 3 100 frames
      (λ j k a b c.
        sort_loop-sorts_example.sorted j k a (omega (arith, sorted_start.1))
          (omega (arith, sorted_start.1)))
      (omega (arith, sorted_start.1)) (omega (arith, sorted_start.1))
      (refl, omega arith, refl, (refl, omega arith, refl, refl))
      (
        (omega (arith, sorted_start.0), omega arith),
        ((omega (arith, sorted_start.0), omega arith), tt),
      )
      (omega arith)

-- Two sections whose names, "s" and "t", stand for those of the two tables.
abbrev bytes : Mem
bytes a = get_or (b's' ∷ 0 ∷ b't' ∷ 0 ∷ []) a 0

abbrev header_of : ℕ → SectionHeader
header_of i =
    if i == 0
    then record { name = 0; addr = 2 ^ 30; size = 0 }
    else record { name = 2; addr = 64; size = 32 }

abbrev image : Image
image = record {
  mem = bytes;
  num = 2;
  shndx = 0;
  headers = header_of;
  values = λ table i. 0xc010_0010 + i;
  names = λ table i. i;
  strtab_text = 0;
  symtab_text = 2;
  text_start = 0x10_0000;
  text_end = 0x20_0000;
}

abbrev text_of : ℕ → List ℕ
text_of i = if i == 0 then b's' ∷ [] else b't' ∷ []

image-AreNamed : AreNamed 5 image text_of (b's' ∷ []) (b't' ∷ []) 0 1
image-AreNamed = record {
  names = λ i lt. elim (below_two i lt) [
    | inl e ↦ subst (λ j. IsStr bytes (name_at j) (text_of j)) (sym e) (refl, omega arith, refl)
    | inr e ↦ subst (λ j. IsStr bytes (name_at j) (text_of j)) (sym e) (refl, omega arith, refl)
  ];
  short = λ i lt. ground arith;
  strtab_literal = (refl, omega arith, refl);
  symtab_literal = (refl, omega arith, refl);
  at_strtab = refl;
  at_symtab = refl;
  only_strtab = λ i lt ne e. ground arith;
  only_symtab = λ i lt ne e. ground arith;
}
  where
    name_at : ℕ → ℕ
    name_at j = (2 ^ 30 + 0xc000_0000 + (header_of j).name) % 2 ^ 32

    below_two : (i : ℕ) → i < 2 → (i ≡ 0) ⊎ (i ≡ 1)
    below_two i lt = omega arith

abbrev nothing_yet : Symbols
nothing_yet = record { num = 0; addr = λ i. 0; name = λ i. 0 }

load_ksym_from_multiboot-sections_example :
    load_ksym_from_multiboot 5 image (record { strtab = 0; symtab = 0; count = 0 }) nothing_yet
    ≡ some (
        load_ksym 0x10_0000 0x20_0000
          (section_at image 0)
          2
          (image.values (section_at image 1))
          (image.names (section_at image 1))
          nothing_yet)
load_ksym_from_multiboot-sections_example =
    load_ksym_from_multiboot-sections 5 image text_of (b's' ∷ []) (b't' ∷ []) 0 1 image-AreNamed
      (record { strtab = 0; symtab = 0; count = 0 }) nothing_yet (omega arith) (omega arith)
