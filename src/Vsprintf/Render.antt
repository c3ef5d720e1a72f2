-- ===== src/Vsprintf/Render.antt =====
-- `vsnprintf` of a format of text and the directives %%, %c and %s.
use hlos.Base.{
  ℕ, zero, suc, ◌+◌, ◌-◌, ◌%◌, ◌^◌, ◌<◌, ◌≤◌, ◌≡◌, refl, ap, sym, ◌∙◌, subst, List, [], ◌∷◌, ◌++◌,
  Option, some, arith, length, length-append,
}
use hlos.Bytes.{Mem}
use hlos.Vsprintf.{◌>>=◌, format_none, Out}
use hlos.Vsprintf.Print.{Printing, print_loop, terminate, at_start, vsnprintf}
use hlos.Vsprintf.Layout.{put_all}
use hlos.Vsprintf.Cut.{IsCut, terminate-IsCut}
use hlos.Vsprintf.Buffer.{vsnprintf-eq}
use hlos.Vsprintf.Plain.{print_loop-stop}
use hlos.Vsprintf.Text.{Agrees, Byte, put_all-at, put_all-append, put_all-Agrees}
use hlos.Vsprintf.Directive.{
  Directive, letter, shown, after, IsOrdinary, plain_spec-IsOrdinary, text_spec-IsOrdinary,
  zero_spec-IsOrdinary, Pieces, rendered, format_length,
}
use hlos.Vsprintf.Round.{Spelled, Argument, HasRoom, Arguments, text_round, directive_round}

module _ (buf end : ℕ) (m0 : Mem) (null_text : ℕ) where
  -- The loop prints the rest of a format.
  record IsRendered (o : Out) (text : List ℕ) (result : Option Printing) : Type 0 where
    final : Printing
    ends : result ≡ some final
    writes : final.out ≡ put_all end o text

  stop_round :
      (fuel : ℕ) (s : Printing)
      → Agrees buf end m0 s.out.mem
      → Byte buf end m0 s.fmt 0
      → IsRendered s.out [] (print_loop end null_text buf (suc fuel) s)
  unfolding put_all
  stop_round fuel s same b =
      let value = same s.fmt b.0 ∙ b.1 in
      record {
        final = s;
        ends = print_loop-stop end null_text buf fuel s (ground (arith, value));
        writes = refl;
      }

  then-IsRendered :
      (o : Out) (xs ys : List ℕ) (r q : Option Printing)
      → r ≡ q
      → IsRendered (put_all end o xs) ys q
      → IsRendered o (xs ++ ys) r
  then-IsRendered o xs ys r q e i = record {
    final = i.final;
    ends = e ∙ i.ends;
    writes = i.writes ∙ sym (put_all-append end o xs ys);
  }

  HasRoom-first : (o : Out) (xs ys : List ℕ) → HasRoom o (xs ++ ys) → HasRoom o xs
  HasRoom-first o xs ys room =
      let n = length-append xs ys in (omega (arith, n, room), omega (arith, n, room))

  HasRoom-rest : (o : Out) (xs ys : List ℕ) → HasRoom o (xs ++ ys) → HasRoom (put_all end o xs) ys
  HasRoom-rest o xs ys room =
      let n = length-append xs ys in
      let place = put_all-at end o xs in (omega (arith, n, place, room), omega (arith, n, room))

  last-IsRendered :
      (fuel : ℕ) (s : Printing) (last : List ℕ)
      → buf ≤ s.out.at
      → Agrees buf end m0 s.out.mem
      → IsOrdinary s.spec
      → Spelled buf end m0 s.fmt [] last
      → length last < fuel
      → HasRoom s.out last
      → IsRendered s.out last (print_loop end null_text buf fuel s)
  unfolding put_all
  last-IsRendered zero s last low same plain t enough room = absurd (omega arith)
  last-IsRendered (suc fuel) s [] low same plain t enough room =
      stop_round fuel s same (subst (λ q. Byte buf end m0 q 0) (omega arith) t.1)
  last-IsRendered (suc zero) s (x ∷ xs) low same plain t enough room = absurd (omega arith)
  last-IsRendered (suc (suc fuel)) s (x ∷ xs) low same plain t enough room =
      let nul = same (s.fmt + length (x ∷ xs)) t.1.0 ∙ t.1.1 in
      let round =
        text_round buf end m0 null_text (suc fuel) s x xs low same plain t.0 (ground (arith, nul))
          (omega arith) room in
      let stop =
        stop_round fuel
          (record s {
            out = put_all end s.out (x ∷ xs);
            fmt = s.fmt + length (x ∷ xs);
            spec = record s.spec { type = format_none };
          })
          (put_all-Agrees buf end m0 s.out (x ∷ xs) low same) t.1 in
      record { final = stop.final; ends = round ∙ stop.ends; writes = stop.writes }

  piece-IsRendered :
      (fuel : ℕ) (s : Printing) (d : Directive) (ys : List ℕ)
      → buf ≤ s.out.at
      → Agrees buf end m0 s.out.mem
      → IsOrdinary s.spec
      → Byte buf end m0 s.fmt b'%'
      → Byte buf end m0 (s.fmt + 1) (letter d)
      → Argument buf end m0 s.args d
      → HasRoom s.out (shown d)
      → IsRendered (after end s d).out ys (print_loop end null_text buf fuel (after end s d))
      → IsRendered s.out (shown d ++ ys) (print_loop end null_text buf (suc fuel) s)
  piece-IsRendered fuel s d ys low same plain e k a room rest =
      then-IsRendered s.out (shown d) ys _ _
        (directive_round buf end m0 null_text fuel s d low same plain e k a room) rest

  low_after : (o : Out) (cs : List ℕ) → buf ≤ o.at → buf ≤ (put_all end o cs).at
  low_after o cs low = omega (arith, put_all-at end o cs)

  print_loop-IsRendered :
      (fuel : ℕ) (s : Printing) (ps : Pieces) (last : List ℕ)
      → buf ≤ s.out.at
      → Agrees buf end m0 s.out.mem
      → IsOrdinary s.spec
      → Spelled buf end m0 s.fmt ps last
      → Arguments buf end m0 s.args ps
      → format_length ps last < fuel
      → HasRoom s.out (rendered ps last)
      → IsRendered s.out (rendered ps last) (print_loop end null_text buf fuel s)
  print_loop-IsRendered fuel s [] last low same plain t a enough room =
      last-IsRendered fuel s last low same plain t enough room
  print_loop-IsRendered zero s (p ∷ ps) last low same plain t a enough room = absurd (omega arith)
  print_loop-IsRendered (suc zero) s (p ∷ ps) last low same plain t a enough room =
      absurd (omega arith)
  print_loop-IsRendered (suc (suc fuel)) s (([], d) ∷ ps) last low same plain t a enough room =
      let here : s.fmt + 0 ≡ s.fmt = omega arith in
      let rest =
        print_loop-IsRendered (suc fuel) (after end s d) ps last (low_after s.out (shown d) low)
          (put_all-Agrees buf end m0 s.out (shown d) low same) (plain_spec-IsOrdinary d)
          (subst (λ q. Spelled buf end m0 (q + 2) ps last) here t.3) a.1 (omega arith)
          (HasRoom-rest s.out (shown d) (rendered ps last) room) in
      piece-IsRendered (suc fuel) s d (rendered ps last) low same plain
        (subst (λ q. Byte buf end m0 q b'%') here t.1)
        (subst (λ q. Byte buf end m0 (q + 1) (letter d)) here t.2) a.0
        (HasRoom-first s.out (shown d) (rendered ps last) room) rest
  print_loop-IsRendered (suc (suc fuel)) s ((x ∷ xs, d) ∷ ps) last low same plain t a enough room =
      let n = length (x ∷ xs) in
      let sign = same (s.fmt + n) t.1.0 ∙ t.1.1 in
      let s1 = record s {
        out = put_all end s.out (x ∷ xs);
        fmt = s.fmt + n;
        spec = record s.spec { type = format_none };
      } in
      let room1 = HasRoom-rest s.out (x ∷ xs) (shown d ++ rendered ps last) room in
      let low1 = low_after s.out (x ∷ xs) low in
      let same1 = put_all-Agrees buf end m0 s.out (x ∷ xs) low same in
      let rest =
        print_loop-IsRendered fuel (after end s1 d) ps last (low_after s1.out (shown d) low1)
          (put_all-Agrees buf end m0 s1.out (shown d) low1 same1) (plain_spec-IsOrdinary d) t.3 a.1
          (omega arith) (HasRoom-rest s1.out (shown d) (rendered ps last) room1) in
      then-IsRendered s.out (x ∷ xs) (shown d ++ rendered ps last) _ _
        (text_round buf end m0 null_text (suc fuel) s x xs low same plain t.0 (ground (arith, sign))
          (omega arith) (HasRoom-first s.out (x ∷ xs) (shown d ++ rendered ps last) room))
        (piece-IsRendered fuel s1 d (rendered ps last) low1 same1 (text_spec-IsOrdinary s.spec) t.1
          t.2 a.0 (HasRoom-first s1.out (shown d) (rendered ps last) room1) rest)

-- If the buffer does not wrap around the address space and its size is below 2^31, and the
-- format, its arguments and their strings, which stand at 4096 or above and have fewer than
-- 2^31 characters, stand outside it, then for a format of texts and the directives %%, %c and %s,
-- more fuel than it has characters, and a whole text of fewer than 2^31 characters that would end
-- before the address space does, vsnprintf returns the length of the whole text: the texts, the
-- characters and the strings one behind the other. The buffer then holds as much of it as fits,
-- with a NUL behind it unless the size is 0, and all other bytes are as they were.
pub vsnprintf-rendered :
    (fuel null_text num : ℕ) (m : Mem) (buf size fmt args : ℕ) (ps : Pieces) (last : List ℕ)
    → size < 2 ^ 31
    → buf + size < 2 ^ 32
    → Spelled buf (buf + size) m fmt ps last
    → Arguments buf (buf + size) m args ps
    → format_length ps last < fuel
    → buf + length (rendered ps last) < 2 ^ 32
    → length (rendered ps last) < 2 ^ 31
    → (m' : Mem) × (vsnprintf fuel null_text num m buf size fmt args
        ≡ some (length (rendered ps last), m'))
      × IsCut buf size (rendered ps last) m m'
vsnprintf-rendered fuel null_text num m buf size fmt args ps last small fits t a enough below
      short =
    let o : Out = record { mem = m; at = buf } in
    let text = rendered ps last in
    let r =
      print_loop-IsRendered buf (buf + size) m null_text fuel (at_start num m buf fmt args) ps last
        (omega arith) (λ b out. refl) zero_spec-IsOrdinary t a enough (below, short) in
    let place = ap (λ (p : Out). p.at) r.writes ∙ put_all-at (buf + size) o text in
    let count : (r.final.out.at - buf) % 2 ^ 32 ≡ length text = omega (arith, place) in
    (
      terminate (buf + size) size (put_all (buf + size) o text),
      vsnprintf-eq fuel null_text num m buf size fmt args fits small
          ∙ ap (λ e. e >>= λ s. some ((s.out.at - buf) % 2 ^ 32, terminate (buf + size) size s.out))
              r.ends
          ∙ (λ i. some (count i, terminate (buf + size) size (r.writes i))),
      terminate-IsCut m buf size text,
    )
