-- ===== src/Ksym/Trace.antt =====
-- `print_stack_trace` of kernel/ksym.c. The frame pointer that the assembly line reads is an argument,
-- `words` gives the 32-bit word at each address, and the function gives the lines that `printk` shows:
-- a return address and the address of a symbol's name.
use hlos.Base.{
  ℕ, zero, suc, ◌+◌, ◌-◌, ◌%◌, ◌^◌, ◌≤◌, ◌<◌, ◌≡◌, ◌≢◌, refl, false, List, [], ◌∷◌, Option, none,
  some, arith, ◌==◌, ◌>>=◌, length, All, if◌then◌else◌,
}
use hlos.Ksym.{Symbols, get_symbol_pos, ksym_lookup_name}
use hlos.Ksym.Sort.{IsSortedTo}
use hlos.Ksym.Lookup.{IsPosition, get_symbol_pos-IsPosition}

pub record TraceLine : Type 0 where
  pub address : ℕ
  pub name : ℕ

-- The loop from the frame pointer `ebp` on; `search` is the fuel of the symbol search.
unfoldable pub trace_loop :
    (search : ℕ) → Symbols → (words : ℕ → ℕ) → ℕ → (ebp : ℕ) → Option (List TraceLine)
unfolding ksym_lookup_name
trace_loop search s words zero ebp = none
trace_loop search s words (suc fuel) ebp =
    let eip = words ((ebp + 4) % 2 ^ 32) in
    let rest = trace_loop search s words fuel (words ebp) in
    if ebp == 0 then some [] else do
      name ← ksym_lookup_name search s eip
      lines ← rest
      some (record { address = eip; name = name } ∷ lines)

unfoldable pub print_stack_trace :
    (search : ℕ) → Symbols → (words : ℕ → ℕ) → ℕ → (ebp : ℕ) → Option (List TraceLine)
unfolding trace_loop
print_stack_trace search s words fuel ebp = trace_loop search s words fuel ebp

-- A frame: its address and its return address.
pub record Frame : Type 0 where
  pub base : ℕ
  pub return : ℕ

-- From `ebp` the saved frame pointers lead through `frames` to null.
abbrev pub Stack : (ℕ → ℕ) → ℕ → List Frame → Type 0
Stack words ebp [] = ebp ≡ 0
Stack words ebp (f ∷ fs) =
    (ebp ≡ f.base)
    × (ebp ≢ 0)
    × (words ((ebp + 4) % 2 ^ 32) ≡ f.return)
    × Stack words (words ebp) fs

-- The lines show the return addresses, each with the first symbol nearest below it.
abbrev pub AreShown : Symbols → List Frame → List TraceLine → Type 0
AreShown s [] [] = Unit
AreShown s [] (l ∷ ls) = ⊥
AreShown s (f ∷ fs) [] = ⊥
AreShown s (f ∷ fs) (l ∷ ls) =
    (l.address ≡ f.return)
    × ((p : ℕ) × IsPosition s f.return p × (l.name ≡ s.name p))
    × AreShown s fs ls

module _ (search : ℕ) (s : Symbols) (words : ℕ → ℕ) where
  ksym_lookup_name-eq :
      (addr p offset : ℕ)
      → get_symbol_pos search s addr ≡ some (p, offset)
      → ksym_lookup_name search s addr ≡ some (s.name p)
  unfolding ksym_lookup_name
  ksym_lookup_name-eq addr p offset e = rw (ksym_lookup_name, e) refl

  trace_loop-step :
      (fuel ebp eip name : ℕ) (lines : List TraceLine)
      → (ebp == 0) ≡ false
      → words ((ebp + 4) % 2 ^ 32) ≡ eip
      → ksym_lookup_name search s eip ≡ some name
      → trace_loop search s words fuel (words ebp) ≡ some lines
      → trace_loop search s words (suc fuel) ebp
        ≡ some (record { address = eip; name = name } ∷ lines)
  unfolding trace_loop
  trace_loop-step fuel ebp eip name lines ne e found rest = rw (e, found, rest, ne) refl

  -- On a sorted table that is not empty, with at least as much search fuel as symbols: if the
  -- saved frame pointers lead from the given one through the frames to null, every return address
  -- is of 32 bits and not below the first symbol, and the fuel is more than the number of frames,
  -- then `print_stack_trace` ends and shows every return address, innermost first, with the name
  -- of the first of the symbols nearest below it.
  pub print_stack_trace-AreShown :
      (fuel ebp : ℕ) (frames : List Frame)
      → IsSortedTo s.num s
      → 0 < s.num
      → s.num ≤ search
      → Stack words ebp frames
      → All (λ f. (s.addr 0 ≤ f.return) × (f.return < 2 ^ 32)) frames
      → length frames < fuel
      → (lines : List TraceLine) × (print_stack_trace search s words fuel ebp ≡ some lines)
        × AreShown s frames lines
  unfolding print_stack_trace
  print_stack_trace-AreShown zero ebp frames sorted filled enough stack known few =
      absurd (omega arith)
  print_stack_trace-AreShown (suc fuel) ebp [] sorted filled enough stack known few =
      ([], unfold trace_loop in (ground (arith, stack)), tt)
  print_stack_trace-AreShown (suc fuel) ebp (f ∷ frames) sorted filled enough stack known few =
      let rest =
        print_stack_trace-AreShown fuel (words ebp) frames sorted filled enough stack.3 known.1
          (omega arith) in
      let found =
        get_symbol_pos-IsPosition search s f.return sorted filled enough known.0.0 known.0.1 in
      (
        record { address = f.return; name = s.name found.0 } ∷ rest.0,
        trace_loop-step fuel ebp f.return (s.name found.0) rest.0 (ground arith) stack.2
            (ksym_lookup_name-eq f.return found.0 (f.return - s.addr found.0) found.1) rest.1,
        (refl, (found.0, found.2, refl), rest.2),
      )
