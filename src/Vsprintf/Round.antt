-- ===== src/Vsprintf/Round.antt =====
-- A round of the loop of `vsnprintf` on a text, and on one of the directives %%, %c and %s.
use hlos.Base.{
  ℕ, zero, suc, ◌+◌, ◌-◌, ◌%◌, ◌^◌, ◌<◌, ◌≤◌, ◌≡◌, ◌⊎◌, refl, ap, sym, ◌∙◌, subst, true, false,
  ◌||◌, List, [], ◌∷◌, some, arith, ◌==◌, length,
}
use hlos.Bytes.{Mem}
use hlos.Vsprintf.{
  FormatType, format_none, format_char, format_str, format_percent_char, PrintfSpec, Out, put,
  string,
}
use hlos.Vsprintf.Decode.{find_percent, from_start}
use hlos.Vsprintf.Print.{Printing, word, put_text, print_as, print_loop}
use hlos.Vsprintf.Writes.{print_one-eq}
use hlos.Vsprintf.Layout.{put_all}
use hlos.Vsprintf.Plain.{print_loop-next}
use hlos.Vsprintf.Text.{
  Agrees, Byte, Reads, Holds, put_all-at, put_text-put_all, plain_spec, string-plain,
}
use hlos.Vsprintf.Directive.{
  Directive, percent, char_of, text_at, letter, type_of, arg_size, shown, after, find_percent-stop,
  from_start-directive, IsOrdinary, Pieces,
}

-- The text fits into the address space, and its length into an int.
abbrev pub HasRoom : Out → List ℕ → Type 0
HasRoom o text = (o.at + length text < 2 ^ 32) × (length text < 2 ^ 31)

module _ (buf end : ℕ) (m0 : Mem) where
  -- The format stands at `fmt`, outside the buffer, with its NUL.
  abbrev pub Spelled : ℕ → Pieces → List ℕ → Type 0
  Spelled fmt [] last = Reads buf end m0 fmt last × Byte buf end m0 (fmt + length last) 0
  Spelled fmt (p ∷ ps) last =
      Reads buf end m0 fmt p.0
      × Byte buf end m0 (fmt + length p.0) b'%'
      × Byte buf end m0 (fmt + length p.0 + 1) (letter p.1)
      × Spelled (fmt + length p.0 + 2) ps last

  -- The words from `args` on, outside the buffer, are the arguments of the directives.
  abbrev pub Argument : ℕ → Directive → Type 0
  Argument args percent = Unit
  Argument args (char_of c) = ((args + 4 ≤ buf) ⊎ (end ≤ args)) × (word m0 args ≡ c)
  Argument args (text_at p xs) =
      ((args + 4 ≤ buf) ⊎ (end ≤ args))
      × (word m0 args ≡ p)
      × Holds buf end m0 p xs
      × (4096 ≤ p)
      × (length xs < 2 ^ 31)

  abbrev pub Arguments : ℕ → Pieces → Type 0
  Arguments args [] = Unit
  Arguments args (p ∷ ps) = Argument args p.1 × Arguments (args + arg_size p.1) ps

  find_percent-text :
      (fuel : ℕ) (m : Mem) (p : ℕ) (xs : List ℕ)
      → Agrees buf end m0 m
      → Reads buf end m0 p xs
      → ((m (p + length xs) == 0) || (m (p + length xs) == b'%')) ≡ true
      → length xs < fuel
      → find_percent fuel m p ≡ some (p + length xs)
  unfolding find_percent
  find_percent-text zero m p xs same r stop enough = absurd (omega arith)
  find_percent-text (suc fuel) m p [] same r stop enough =
      let here : p + 0 ≡ p = omega arith in
      find_percent-stop fuel m p (subst (λ q. ((m q == 0) || (m q == b'%')) ≡ true) here stop)
      ∙ ap some (sym here)
  find_percent-text (suc fuel) m p (x ∷ xs) same r stop enough =
      let value = same p r.0.0 ∙ r.0.1 in
      let place : p + suc (length xs) ≡ p + 1 + length xs = omega arith in
      let rest =
        find_percent-text fuel m (p + 1) xs same r.3
          (subst (λ q. ((m q == 0) || (m q == b'%')) ≡ true) place stop) (omega arith) in
      ground (arith, value, r.1, r.2, rest, place)

  word-Agrees :
      (m : Mem) (args : ℕ)
      → Agrees buf end m0 m
      → (args + 4 ≤ buf) ⊎ (end ≤ args)
      → word m args ≡ word m0 args
  unfolding word
  word-Agrees m args same out =
      rw
        (
          same args (omega arith),
          same (args + 1) (omega arith),
          same (args + 2) (omega arith),
          same (args + 3) (omega arith),
        )
        refl

  from_start-text :
      (fuel : ℕ) (m : Mem) (fmt : ℕ) (x : ℕ) (xs : List ℕ) (spec : PrintfSpec)
      → find_percent fuel m fmt ≡ some (fmt + length (x ∷ xs))
      → from_start fuel m fmt spec
        ≡ some (fmt + length (x ∷ xs), record spec { type = format_none })
  unfolding from_start
  from_start-text fuel m fmt x xs spec e =
      let far : (fmt + length (x ∷ xs) == fmt) ≡ false = ground arith in rw (e, far) refl

  module _ (null_text : ℕ) where
    -- A piece of text is one round of the loop.
    pub text_round :
        (fuel : ℕ) (s : Printing) (x : ℕ) (xs : List ℕ)
        → buf ≤ s.out.at
        → Agrees buf end m0 s.out.mem
        → IsOrdinary s.spec
        → Reads buf end m0 s.fmt (x ∷ xs)
        → ((s.out.mem (s.fmt + length (x ∷ xs)) == 0)
            || (s.out.mem (s.fmt + length (x ∷ xs)) == b'%'))
          ≡ true
        → length (x ∷ xs) < suc fuel
        → HasRoom s.out (x ∷ xs)
        → print_loop end null_text buf (suc fuel) s
          ≡ print_loop end null_text buf fuel (record s {
            out = put_all end s.out (x ∷ xs);
            fmt = s.fmt + length (x ∷ xs);
            spec = record s.spec { type = format_none };
          })
    unfolding print_as
    text_round fuel s x xs low same plain r stop enough room =
        let value = same s.fmt r.0.0 ∙ r.0.1 in
        let found = find_percent-text (suc fuel) s.out.mem s.fmt (x ∷ xs) same r stop enough in
        let size : s.fmt + length (x ∷ xs) - s.fmt ≡ length (x ∷ xs) = omega arith in
        let place = put_all-at end s.out (x ∷ xs) in
        print_loop-next end null_text buf fuel s
          (s.fmt + length (x ∷ xs), record s.spec { type = format_none })
          (record s {
            out = put_all end s.out (x ∷ xs);
            fmt = s.fmt + length (x ∷ xs);
            spec = record s.spec { type = format_none };
          })
          (ground (arith, value, r.1))
          (plain (suc fuel) s.out.mem s.fmt
            ∙ from_start-text (suc fuel) s.out.mem s.fmt x xs s.spec found)
          (print_one-eq end null_text buf s.fmt _ _
            (ap
              (λ o. some (record s {
                out = o;
                fmt = s.fmt + length (x ∷ xs);
                spec = record s.spec { type = format_none };
              }))
              (ap (put_text end s.out s.fmt) size
                ∙ put_text-put_all buf end m0 s.out.mem s.out.at s.fmt (x ∷ xs) low same r))
            (omega (arith, place, room)) (omega (arith, place, room)))

    -- The state behind a directive with an argument.
    abbrev printed : Printing → Out → FormatType → Printing
    printed s o type = record s {
      out = o;
      fmt = s.fmt + 2;
      args = s.args + 4;
      spec = plain_spec type;
    }

    print_as-directive :
        (old_fmt : ℕ) (s : Printing) (d : Directive)
        → buf ≤ s.out.at
        → Agrees buf end m0 s.out.mem
        → Argument s.args d
        → print_as end null_text buf old_fmt
            (record s { fmt = s.fmt + 2; spec = plain_spec (type_of d) })
            (type_of d)
          ≡ some (after end s d)
    unfolding print_as put_all
    print_as-directive old_fmt s percent low same a =
        let stays : s.args ≡ s.args + 0 = omega arith in
        ap
          (λ n. some (record s {
            out = put end s.out b'%';
            fmt = s.fmt + 2;
            args = n;
            spec = plain_spec format_percent_char;
          }))
          stays
    print_as-directive old_fmt s (char_of c) low same a =
        let value = word-Agrees s.out.mem s.args same a.0 ∙ a.1 in
        ap (λ v. some (printed s (put end s.out (v % 256)) format_char)) value
    print_as-directive old_fmt s (text_at p xs) low same a =
        let value = word-Agrees s.out.mem s.args same a.0 ∙ a.1 in
        ap (λ o. some (printed s o format_str))
          (ap (λ v. string end null_text s.out v (plain_spec format_str)) value
            ∙ string-plain buf end m0 null_text s.out p xs low same a.2 a.3 (omega (arith, a.4)))

    -- A directive is one round too.
    pub directive_round :
        (fuel : ℕ) (s : Printing) (d : Directive)
        → buf ≤ s.out.at
        → Agrees buf end m0 s.out.mem
        → IsOrdinary s.spec
        → Byte buf end m0 s.fmt b'%'
        → Byte buf end m0 (s.fmt + 1) (letter d)
        → Argument s.args d
        → HasRoom s.out (shown d)
        → print_loop end null_text buf (suc fuel) s
          ≡ print_loop end null_text buf fuel (after end s d)
    directive_round fuel s d low same plain e k a room =
        let here = same s.fmt e.0 ∙ e.1 in
        let place = put_all-at end s.out (shown d) in
        print_loop-next end null_text buf fuel s (s.fmt + 2, plain_spec (type_of d)) (after end s d)
          (ground (arith, here))
          (plain (suc fuel) s.out.mem s.fmt
            ∙ from_start-directive s.out.mem fuel s.fmt d s.spec here (same (s.fmt + 1) k.0 ∙ k.1))
          (print_one-eq end null_text buf s.fmt _ _ (print_as-directive s.fmt s d low same a)
            (omega (arith, place, room)) (omega (arith, place, room)))
