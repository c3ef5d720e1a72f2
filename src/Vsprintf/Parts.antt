-- ===== src/Vsprintf/Parts.antt =====
-- `print_parts` prints the layout, for every setting of the flags.
use mathlib.Core.List.{append_assoc}
use hlos.Base.{
  ℕ, ◌+◌, ◌-◌, ◌%◌, ◌^◌, ◌<◌, ◌≤◌, ◌≡◌, refl, ap, ◌∙◌, Bool, true, false, ◌||◌, List, ◌++◌, arith,
  if◌then◌else◌, length,
}
use hlos.Base.Finite.{all_codes, all_codes-at, bool_eq, bool_eq→eq}
use hlos.Vsprintf.{zeropad, left_flag, has_flag, Out, pad, still}
use hlos.Vsprintf.Number.{at_least, put_head, put_number, print_parts}
use hlos.Vsprintf.Layout.{
  times, backwards, sign_text, prefix_text, layout, IsFill, put_all, pad-fill, pad-rest, pad-none,
  pad-negative, put_head-lem, put_number-lem, put_all-three,
}

flags_table :
    all_codes 256
      (λ f. bool_eq (has_flag f (zeropad + left_flag)) (has_flag f left_flag || has_flag f zeropad))
    ≡ true
unfolding all_codes bool_eq
flags_table = refl

has_flag_either :
    (flags : ℕ)
    → flags < 256
    → has_flag flags (zeropad + left_flag) ≡ (has_flag flags left_flag || has_flag flags zeropad)
has_flag_either flags lt = bool_eq→eq _ _ (all_codes-at 256 _ flags lt flags_table)

module _ (end : ℕ) (o : Out) (base sign locase : ℕ) (need_pfx is_zero : Bool) (width precision : ℕ)
    (tmp : List ℕ) where
  abbrev lead : Out → Out
  lead q = put_head end q sign base locase need_pfx is_zero

  abbrev lead_text : List ℕ
  lead_text = sign_text sign ++ prefix_text base locase need_pfx is_zero

  -- `print_parts` by its tests of the flags.
  parts_by : (either left zeros : Bool) → Out
  parts_by either left zeros =
      let r = if either then (o, width) else pad end still b' ' o width in
      let q =
        if left
        then (lead r.0, r.1)
        else pad end still (if zeros then b'0' else b' ') (lead r.0) r.1 in
      (pad end still b' ' (put_number end q.0 precision tmp) q.1).0

  parts_by-layout :
      (left zeros : Bool) (fill : ℕ)
      → length tmp ≤ precision
      → precision < 2 ^ 15
      → width < 2 ^ 16
      → IsFill width fill
      → parts_by (left || zeros) left zeros
        ≡ put_all end o (layout left zeros lead_text fill (precision - length tmp) tmp)
  unfolding parts_by layout
  parts_by-layout true zeros fill le lt w_lt f =
      let more = times (precision - length tmp) b'0' in
      let rest = more ++ backwards tmp in
      pad-fill end b' ' (put_number end (lead o) precision tmp) width fill w_lt f
      ∙ ap (λ q. put_all end q (times fill b' '))
          (put_number-lem end (lead o) precision tmp le lt
            ∙ ap (λ q. put_all end q rest) (put_head-lem end o sign base locase need_pfx is_zero))
      ∙ put_all-three end o lead_text rest (times fill b' ')
      ∙ ap (λ t. put_all end o (lead_text ++ t))
          (append_assoc more (backwards tmp) (times fill b' '))
  parts_by-layout false true fill le lt w_lt f =
      let rest = times (precision - length tmp) b'0' ++ backwards tmp in
      let r = pad end still b'0' (lead o) width in
      pad-none end b' ' (put_number end r.0 precision tmp) r.1
        (omega (arith, pad-rest end b'0' (lead o) width fill w_lt f))
      ∙ put_number-lem end r.0 precision tmp le lt
      ∙ ap (λ q. put_all end q rest)
          (pad-fill end b'0' (lead o) width fill w_lt f
            ∙ ap (λ q. put_all end q (times fill b'0'))
                (put_head-lem end o sign base locase need_pfx is_zero))
      ∙ put_all-three end o lead_text (times fill b'0') rest
  parts_by-layout false false fill le lt w_lt f =
      let rest = times (precision - length tmp) b'0' ++ backwards tmp in
      let r = pad end still b' ' o width in
      let far = pad-rest end b' ' o width fill w_lt f in
      ap (λ (q : Out × ℕ). (pad end still b' ' (put_number end q.0 precision tmp) q.1).0)
        (pad-negative end b' ' (lead r.0) r.1 (omega (arith, far)))
      ∙ pad-none end b' ' (put_number end (lead r.0) precision tmp) (r.1 - 1) (omega (arith, far))
      ∙ put_number-lem end (lead r.0) precision tmp le lt
      ∙ ap (λ q. put_all end q rest)
          (put_head-lem end r.0 sign base locase need_pfx is_zero
            ∙ ap (λ q. put_all end q lead_text) (pad-fill end b' ' o width fill w_lt f))
      ∙ put_all-three end o (times fill b' ') lead_text rest

module _ (end : ℕ) where
  pub print_parts-layout :
      (o : Out) (flags base sign locase : ℕ) (need_pfx is_zero : Bool) (width precision fill : ℕ)
      (tmp : List ℕ)
      → flags < 256
      → at_least precision (length tmp) < 2 ^ 15
      → IsFill ((width + 2 ^ 16 - at_least precision (length tmp)) % 2 ^ 16) fill
      → print_parts end o flags base sign locase need_pfx is_zero width precision tmp
        ≡ put_all end o (
            layout
              (has_flag flags left_flag)
              (has_flag flags zeropad)
              (sign_text sign ++ prefix_text base locase need_pfx is_zero)
              fill
              (at_least precision (length tmp) - length tmp)
              tmp)
  unfolding print_parts parts_by
  print_parts-layout o flags base sign locase need_pfx is_zero width precision fill tmp byte lt f =
      let p = at_least precision (length tmp) in
      let w = (width + 2 ^ 16 - p) % 2 ^ 16 in
      ap
        (λ b.
          parts_by end o base sign locase need_pfx is_zero w p tmp b (has_flag flags left_flag)
            (has_flag flags zeropad))
        (has_flag_either flags byte)
      ∙ parts_by-layout end o base sign locase need_pfx is_zero w p tmp (has_flag flags left_flag)
          (has_flag flags zeropad) fill (ground arith) lt (omega arith) f
