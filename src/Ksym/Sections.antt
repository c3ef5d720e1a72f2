-- ===== src/Ksym/Sections.antt =====
-- The search of the section headers in `load_ksym_from_multiboot`, and the whole of that function.
use mathlib.Core.Option
use hlos.Base.{
  ℕ, zero, suc, ◌+◌, ◌/◌, ◌%◌, ◌^◌, ◌<◌, ◌≤◌, ◌≡◌, ◌≢◌, inl, inr, refl, ap, sym, ◌∙◌, Bool, true,
  false, ◌&&◌, Bool-cases, List, Option, some, arith, length, ◌==◌, ==_iff, ltb, leb, ◌>>=◌,
  if◌then◌else◌,
}
use hlos.Base.Int.{ℤ, pos, negsuc}
use hlos.Bytes.{Mem}
use hlos.Str.{strcmp}
use hlos.Str.Text.{IsStr}
use hlos.Str.Compare.{order_of, order_of-zero, order_of_self, strcmp-order_of}
use hlos.StrInline.{equals_zero}
use hlos.Ksym.{page_offset, Symbols, load_ksym}

pub record SectionHeader : Type 0 where
  pub name : ℕ
  pub addr : ℕ
  pub size : ℕ

-- What the boot loader leaves: the bytes of memory, `mb->num` and `mb->shndx`, the section headers at
-- `mb->addr + PAGE_OFFSET`, and the fields of the symbols of a table at an address. `strtab_text` and
-- `symtab_text` are the addresses of the string literals ".strtab" and ".symtab".
pub record Image : Type 0 where
  pub mem : Mem
  pub num : ℕ
  pub shndx : ℕ
  pub headers : ℕ → SectionHeader
  pub values : (table i : ℕ) → ℕ
  pub names : (table i : ℕ) → ℕ
  pub strtab_text : ℕ
  pub symtab_text : ℕ
  pub text_start : ℕ
  pub text_end : ℕ

-- `strtab_offset`, `ksymtab` and `symtab_size`
pub record Found : Type 0 where
  pub strtab : ℕ
  pub symtab : ℕ
  pub count : ℕ

abbrev pub section_name : Image → ℕ → ℕ
section_name image i =
    ((image.headers image.shndx).addr + page_offset + (image.headers i).name) % 2 ^ 32

abbrev pub section_at : Image → ℕ → ℕ
section_at image i = ((image.headers i).addr + page_offset) % 2 ^ 32

-- `strcmp(name, text) == 0`
unfoldable pub named : ℕ → Mem → (name text : ℕ) → Option Bool
unfolding strcmp
named fuel m name text = Option.map equals_zero (strcmp fuel m name text)

-- The body of the loop, after the two comparisons.
abbrev pub note_section : Image → Found → ℕ → (is_strtab is_symtab : Bool) → Found
note_section image found i is_strtab is_symtab =
    let found' = if is_strtab then record found { strtab = section_at image i } else found in
    if is_symtab
    then record found' { symtab = section_at image i; count = (image.headers i).size / 16 }
    else found'

unfoldable pub find_sections : ℕ → Image → (rounds : ℕ) → Found → ℕ → Option Found
unfolding named
find_sections fuel image zero found i = some found
find_sections fuel image (suc rounds) found i = do
  is_strtab ← named fuel image.mem (section_name image i) image.strtab_text
  is_symtab ← named fuel image.mem (section_name image i) image.symtab_text
  find_sections fuel image rounds (note_section image found i is_strtab is_symtab) (i + 1)

-- `raw` is what the two variables that the declaration leaves unset hold.
unfoldable pub load_ksym_from_multiboot : ℕ → Image → (raw : Found) → Symbols → Option Symbols
unfolding find_sections load_ksym
load_ksym_from_multiboot fuel image raw s = do
  found ← find_sections fuel image image.num (record raw { count = 0 }) 0
  some (
      load_ksym image.text_start image.text_end found.strtab found.count (image.values found.symtab)
        (image.names found.symtab) s)

module _ (fuel : ℕ) (m : Mem) (name text : ℕ) (xs ys : List ℕ) where
  named-same :
      IsStr m name xs
      → IsStr m text ys
      → length xs < fuel
      → xs ≡ ys
      → named fuel m name text ≡ some true
  unfolding named
  named-same h k enough e =
      let same : order_of xs ys ≡ pos 0 = ap (order_of xs) (sym e) ∙ order_of_self xs in
      rw (strcmp-order_of fuel m name text xs ys h k enough, same) refl

  named-differs :
      IsStr m name xs
      → IsStr m text ys
      → length xs < fuel
      → xs ≢ ys
      → named fuel m name text ≡ some false
  unfolding named
  named-differs h k enough ne = elim (Bool-cases (equals_zero (order_of xs ys))) [
    | inl zero_order ↦
        absurd (ne (order_of-zero xs ys (equals_zero-eq (order_of xs ys) zero_order)))
    | inr other ↦ rw (strcmp-order_of fuel m name text xs ys h k enough, other) refl
  ]
    where
      equals_zero-eq : (z : ℤ) → equals_zero z ≡ true → z ≡ pos 0
      equals_zero-eq (pos zero) e = refl
      equals_zero-eq (pos (suc n)) e = cc
      equals_zero-eq (negsuc n) e = cc

-- Is `c` one of the `rounds` indices from `i` on?
abbrev among : (c i rounds : ℕ) → Bool
among c i rounds = leb i c && ltb c (i + rounds)

pass :
    (v : ℕ → ℕ) (old c i rounds : ℕ)
    → (if among c (i + 1) rounds then v c else if i == c then v i else old)
      ≡ (if among c i (suc rounds) then v c else old)
pass v old c i rounds = elim (Bool-cases (i == c)) [
  | inl here ↦
      let same = ap v ((==_iff i c).0 here) in
      let before : among c (i + 1) rounds ≡ false = ground arith in
      let inside : among c i (suc rounds) ≡ true = ground arith in rw (here, before, inside) same
  | inr other ↦
      let same : among c (i + 1) rounds ≡ among c i (suc rounds) = ground arith in
      rw (other, same) refl
]

module _ (image : Image) (found : Found) (i : ℕ) where
  note-strtab :
      (t u : Bool)
      → (note_section image found i t u).strtab ≡ (if t then section_at image i else found.strtab)
  note-strtab true true = refl
  note-strtab true false = refl
  note-strtab false true = refl
  note-strtab false false = refl

  note-symtab :
      (t u : Bool)
      → (note_section image found i t u).symtab ≡ (if u then section_at image i else found.symtab)
  note-symtab true true = refl
  note-symtab true false = refl
  note-symtab false true = refl
  note-symtab false false = refl

  note-count :
      (t u : Bool)
      → (note_section image found i t u).count
        ≡ (if u then (image.headers i).size / 16 else found.count)
  note-count true true = refl
  note-count true false = refl
  note-count false true = refl
  note-count false false = refl

-- The sections have the names `texts`, `a` alone that of the string table and `b` alone that of the
-- symbol table, and the fuel is more than the length of each name.
pub record AreNamed (fuel : ℕ) (image : Image) (texts : ℕ → List ℕ) (strtab symtab : List ℕ)
    (a b : ℕ) : Type 0 where
  pub names : (i : ℕ) → i < image.num → IsStr image.mem (section_name image i) (texts i)
  pub short : (i : ℕ) → i < image.num → length (texts i) < fuel
  pub strtab_literal : IsStr image.mem image.strtab_text strtab
  pub symtab_literal : IsStr image.mem image.symtab_text symtab
  pub at_strtab : texts a ≡ strtab
  pub at_symtab : texts b ≡ symtab
  pub only_strtab : (i : ℕ) → i < image.num → i ≢ a → texts i ≢ strtab
  pub only_symtab : (i : ℕ) → i < image.num → i ≢ b → texts i ≢ symtab

module _ (fuel : ℕ) (image : Image) (texts : ℕ → List ℕ) (strtab symtab : List ℕ) (a b : ℕ)
    (n : AreNamed fuel image texts strtab symtab a b) where
  named-strtab :
      (i : ℕ)
      → i < image.num
      → named fuel image.mem (section_name image i) image.strtab_text ≡ some (i == a)
  named-strtab i lt = elim (Bool-cases (i == a)) [
    | inl here ↦ rw here (
        named-same fuel image.mem _ _ (texts i) strtab (n.names i lt) n.strtab_literal
          (n.short i lt) (ap texts ((==_iff i a).0 here) ∙ n.at_strtab))
    | inr other ↦ rw other (
        named-differs fuel image.mem _ _ (texts i) strtab (n.names i lt) n.strtab_literal
          (n.short i lt) (n.only_strtab i lt (ground arith)))
  ]

  named-symtab :
      (i : ℕ)
      → i < image.num
      → named fuel image.mem (section_name image i) image.symtab_text ≡ some (i == b)
  named-symtab i lt = elim (Bool-cases (i == b)) [
    | inl here ↦ rw here (
        named-same fuel image.mem _ _ (texts i) symtab (n.names i lt) n.symtab_literal
          (n.short i lt) (ap texts ((==_iff i b).0 here) ∙ n.at_symtab))
    | inr other ↦ rw other (
        named-differs fuel image.mem _ _ (texts i) symtab (n.names i lt) n.symtab_literal
          (n.short i lt) (n.only_symtab i lt (ground arith)))
  ]

  -- Where the loop from `i` on passes `a` and `b`.
  abbrev found_after : (rounds : ℕ) → Found → ℕ → Found
  found_after rounds found i = record {
    strtab = if among a i rounds then section_at image a else found.strtab;
    symtab = if among b i rounds then section_at image b else found.symtab;
    count = if among b i rounds then (image.headers b).size / 16 else found.count;
  }

  find_sections-step :
      (rounds : ℕ) (found : Found) (i : ℕ)
      → found_after rounds (note_section image found i (i == a) (i == b)) (i + 1)
        ≡ found_after (suc rounds) found i
  find_sections-step rounds found i =
      let strtab_path =
        ap (λ o. if among a (i + 1) rounds then section_at image a else o)
          (note-strtab image found i (i == a) (i == b))
        ∙ pass (section_at image) found.strtab a i rounds in
      let symtab_path =
        ap (λ o. if among b (i + 1) rounds then section_at image b else o)
          (note-symtab image found i (i == a) (i == b))
        ∙ pass (section_at image) found.symtab b i rounds in
      let count_path =
        ap (λ o. if among b (i + 1) rounds then (image.headers b).size / 16 else o)
          (note-count image found i (i == a) (i == b))
        ∙ pass (λ c. (image.headers c).size / 16) found.count b i rounds in
      λ j. record { strtab = strtab_path j; symtab = symtab_path j; count = count_path j }

  find_sections-after :
      (rounds : ℕ) (found : Found) (i : ℕ)
      → i + rounds ≤ image.num
      → find_sections fuel image rounds found i ≡ some (found_after rounds found i)
  unfolding find_sections
  find_sections-after zero found i le =
      let out_a : among a i 0 ≡ false = ground arith in
      let out_b : among b i 0 ≡ false = ground arith in rw (out_a, out_b) refl
  find_sections-after (suc rounds) found i le =
      rw (named-strtab i (omega arith), named-symtab i (omega arith))
        (find_sections-after rounds (note_section image found i (i == a) (i == b)) (i + 1)
            (omega arith)
          ∙ ap some (find_sections-step rounds found i))

  -- If the section names are strings, one section alone is named as the string table and one
  -- alone as the symbol table, and the fuel is more than the length of each name, then
  -- `load_ksym_from_multiboot` ends with the table that `load_ksym` makes of the symbols of the
  -- one section and the names at the other.
  pub load_ksym_from_multiboot-sections :
      (raw : Found) (s : Symbols)
      → a < image.num
      → b < image.num
      → load_ksym_from_multiboot fuel image raw s
        ≡ some (
            load_ksym image.text_start image.text_end
              (section_at image a)
              ((image.headers b).size / 16)
              (image.values (section_at image b))
              (image.names (section_at image b))
              s)
  unfolding load_ksym_from_multiboot
  load_ksym_from_multiboot-sections raw s lt_a lt_b =
      let in_a : among a 0 image.num ≡ true = ground arith in
      let in_b : among b 0 image.num ≡ true = ground arith in
      rw (find_sections-after image.num (record raw { count = 0 }) 0 (omega arith), in_a, in_b) refl
