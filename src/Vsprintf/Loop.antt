-- ===== src/Vsprintf/Loop.antt =====
-- Where the loop of `vsnprintf` writes, and the NUL behind it.
use hlos.Base.{
  ℕ, zero, suc, ◌≤◌, ◌≡◌, inl, inr, refl, sym, subst, ◌∙◌, Bool, true, false, not, ◌&&◌, Bool-cases,
  none, some, arith, ◌==◌,
}
use mathlib.Core.Option.{some-injective}
use hlos.Vsprintf.{◌>>=◌, PrintfSpec}
use hlos.Vsprintf.Decode.{format_decode}
use hlos.Vsprintf.Print.{Printing, print_one, print_loop}
use hlos.Vsprintf.Bounds.{IsInside, IsInside-none, IsInside-then}
use hlos.Vsprintf.Writes.{bind-some, is_count, print_one-IsInside, print_one-as, print_as-later}

module _ (end null_text buf : ℕ) where
  print_one-later :
      (old_fmt : ℕ) (s s' : Printing)
      → print_one end null_text buf old_fmt s ≡ some s'
      → s.out.at ≤ s'.out.at
  print_one-later old_fmt s s' e =
      print_as-later end null_text buf old_fmt s s' s.spec.type
        (print_one-as end null_text buf old_fmt s s' e)

  -- One round of the loop.
  print_loop-round :
      (fuel : ℕ) (s s' : Printing)
      → (s.out.mem s.fmt == 0) ≡ false
      → print_loop end null_text buf (suc fuel) s ≡ some s'
      → (r : ℕ × PrintfSpec) × (t : Printing) × (format_decode (suc fuel) s.out.mem s.fmt s.spec
          ≡ some r)
        × (print_one end null_text buf s.fmt (record s { fmt = r.0; spec = r.1 }) ≡ some t)
        × (print_loop end null_text buf fuel t ≡ some s')
  unfolding print_loop
  print_loop-round fuel s s' more e =
      let step = λ (r : ℕ × PrintfSpec).
        print_one end null_text buf s.fmt (record s { fmt = r.0; spec = r.1 }) >>= λ t.
        print_loop end null_text buf fuel t in
      let a =
        bind-some (format_decode (suc fuel) s.out.mem s.fmt s.spec) step s'
          (rw (more, print_loop) at e) in
      let b =
        bind-some (print_one end null_text buf s.fmt (record s { fmt = a.0.0; spec = a.0.1 }))
          (λ t. print_loop end null_text buf fuel t) s' a.2 in
      (a.0, b.0, a.1, b.1, b.2)

  print_loop-done :
      (fuel : ℕ) (s s' : Printing)
      → (s.out.mem s.fmt == 0) ≡ true
      → print_loop end null_text buf (suc fuel) s ≡ some s'
      → s ≡ s'
  unfolding print_loop
  print_loop-done fuel s s' done e = some-injective s s' (rw (done, print_loop) at e)

  -- The loop from `s` on carries out no "%n".
  unfoldable pub no_count : (fuel : ℕ) → Printing → Bool
  unfolding format_decode print_one
  no_count zero s = true
  no_count (suc fuel) s = elim (s.out.mem s.fmt == 0) [
    | true ↦ true
    | false ↦ elim (format_decode (suc fuel) s.out.mem s.fmt s.spec) [
      | none ↦ true
      | some r ↦
          not (is_count r.1.type)
          && elim (print_one end null_text buf s.fmt (record s { fmt = r.0; spec = r.1 })) [
            | none ↦ true
            | some t ↦ no_count fuel t
          ]
    ]
  ]

  no_count-round :
      (fuel : ℕ) (s : Printing) (r : ℕ × PrintfSpec) (t : Printing)
      → (s.out.mem s.fmt == 0) ≡ false
      → format_decode (suc fuel) s.out.mem s.fmt s.spec ≡ some r
      → print_one end null_text buf s.fmt (record s { fmt = r.0; spec = r.1 }) ≡ some t
      → no_count (suc fuel) s ≡ (not (is_count r.1.type) && no_count fuel t)
  unfolding no_count
  no_count-round fuel s r t more d p = rw (more, d, p, no_count) refl

  pub print_loop-IsInside :
      (fuel : ℕ) (s s' : Printing)
      → no_count fuel s ≡ true
      → print_loop end null_text buf fuel s ≡ some s'
      → IsInside end s.out s'.out
  unfolding print_loop
  print_loop-IsInside zero s s' n e = cc
  print_loop-IsInside (suc fuel) s s' n e = elim (Bool-cases (s.out.mem s.fmt == 0)) [
    | inl done ↦
        subst (λ t. IsInside end s.out t.out) (print_loop-done fuel s s' done e)
          (IsInside-none end s.out)
    | inr more ↦
        let (r, t, d, p, rest) = print_loop-round fuel s s' more e in
        let both = sym (no_count-round fuel s r t more d p) ∙ n in
        IsInside-then end s.out t.out s'.out
          (print_one-IsInside end null_text buf s.fmt (record s { fmt = r.0; spec = r.1 }) t
            (ground arith) p)
          (print_loop-IsInside fuel t s' (ground arith) rest)
  ]

  pub print_loop-later :
      (fuel : ℕ) (s s' : Printing)
      → print_loop end null_text buf fuel s ≡ some s'
      → s.out.at ≤ s'.out.at
  unfolding print_loop
  print_loop-later zero s s' e = cc
  print_loop-later (suc fuel) s s' e = elim (Bool-cases (s.out.mem s.fmt == 0)) [
    | inl done ↦ subst (λ t. s.out.at ≤ t.out.at) (print_loop-done fuel s s' done e) (omega arith)
    | inr more ↦
        let (r, t, d, p, rest) = print_loop-round fuel s s' more e in
        omega (
          arith,
          print_one-later s.fmt (record s { fmt = r.0; spec = r.1 }) t p,
          print_loop-later fuel t s' rest,
        )
  ]
