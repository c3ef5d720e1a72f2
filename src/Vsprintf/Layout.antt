-- ===== src/Vsprintf/Layout.antt =====
-- The text that `number` prints: its parts, in order.
use hlos.Base.{
  ℕ, zero, suc, ◌+◌, ◌-◌, ◌^◌, ◌<◌, ◌≤◌, ◌≡◌, ◌⊎◌, inl, inr, refl, ap, sym, ◌∙◌, Bool, true, false,
  not, ◌&&◌, ◌||◌, Bool-cases, List, [], ◌∷◌, ◌++◌, arith, ◌==◌, leb, if◌then◌else◌, length, bit_or,
}
use hlos.Vsprintf.{Out, put, pad, still}
use hlos.Vsprintf.Number.{put_digits, put_head, put_number}

-- `n` times the character `c`.
abbrev pub times : (n c : ℕ) → List ℕ
times zero c = []
times (suc n) c = c ∷ times n c

abbrev pub backwards : List ℕ → List ℕ
backwards [] = []
backwards (c ∷ cs) = backwards cs ++ c ∷ []

abbrev pub sign_text : ℕ → List ℕ
sign_text sign = if sign == 0 then [] else sign ∷ []

abbrev pub prefix_text : (base locase : ℕ) → (need_pfx is_zero : Bool) → List ℕ
prefix_text base locase need_pfx is_zero =
    (if need_pfx && ((base == 16) || not is_zero) then b'0' ∷ [] else [])
    ++ (if need_pfx && (base == 16) then bit_or b'X' locase ∷ [] else [])

-- `fill` characters fill up the field, and `more` zeros the precision.
unfoldable pub layout : (left zeros : Bool) → (head : List ℕ) → (fill more : ℕ) → List ℕ → List ℕ
layout true zeros head fill more tmp =
    head ++ (times more b'0' ++ (backwards tmp ++ times fill b' '))
layout false true head fill more tmp =
    head ++ (times fill b'0' ++ (times more b'0' ++ backwards tmp))
layout false false head fill more tmp =
    times fill b' ' ++ (head ++ (times more b'0' ++ backwards tmp))

-- The width that is left over is `fill`, or is negative.
abbrev pub IsFill : (width fill : ℕ) → Type 0
IsFill width fill = ((width ≡ fill) × (fill < 2 ^ 15)) ⊎ ((2 ^ 15 + 8 < width) × (fill ≡ 0))

module _ (end : ℕ) where
  unfoldable pub put_all : Out → List ℕ → Out
  unfolding put
  put_all o [] = o
  put_all o (c ∷ cs) = put_all (put end o c) cs

  put_all-append : (o : Out) (cs ds : List ℕ) → put_all o (cs ++ ds) ≡ put_all (put_all o cs) ds
  unfolding put_all
  put_all-append o [] ds = refl
  put_all-append o (c ∷ cs) ds = put_all-append (put end o c) cs ds

  put_digits-backwards : (o : Out) (cs : List ℕ) → put_digits end o cs ≡ put_all o (backwards cs)
  unfolding put_digits put_all
  put_digits-backwards o [] = refl
  put_digits-backwards o (c ∷ cs) =
      ap (λ p. put end p c) (put_digits-backwards o cs)
      ∙ sym (put_all-append o (backwards cs) (c ∷ []))

  -- Padding to width `w`.
  pad-still :
      (c : ℕ) (o : Out) (w : ℕ) → w < 2 ^ 15 → pad end still c o w ≡ (put_all o (times w c), 0xffff)
  unfolding pad put_all
  pad-still c o zero lt = refl
  pad-still c o (suc w) lt =
      let go : still w ≡ true = ground arith in
      rw (go, pad) (pad-still c (put end o c) w (omega arith))

  pub pad-negative : (c : ℕ) (o : Out) (w : ℕ) → 2 ^ 15 < w → pad end still c o w ≡ (o, w - 1)
  unfolding pad
  pad-negative c o zero lt = absurd (omega arith)
  pad-negative c o (suc w) lt =
      let stop : still w ≡ false = ground arith in rw (stop, pad) (ap (λ n. (o, n)) (omega arith))

  -- Padding a field with `fill` left leaves nothing to fill.
  pub pad-fill :
      (c : ℕ) (o : Out) (w fill : ℕ)
      → w < 2 ^ 16
      → IsFill w fill
      → (pad end still c o w).0 ≡ put_all o (times fill c)
  unfolding put_all
  pad-fill c o w fill lt (inl (e, small)) =
      ap (λ (x : Out × ℕ). x.0) (pad-still c o w (omega (arith, e)))
      ∙ ap (λ n. put_all o (times n c)) e
  pad-fill c o w fill lt (inr (big, e)) =
      ap (λ (x : Out × ℕ). x.0) (pad-negative c o w (omega arith))
      ∙ ap (λ n. put_all o (times n c)) (sym e)

  -- What is left of the width then is far below 0.
  pub pad-rest :
      (c : ℕ) (o : Out) (w fill : ℕ)
      → w < 2 ^ 16
      → IsFill w fill
      → 2 ^ 15 + 6 < (pad end still c o w).1
  pad-rest c o w fill lt (inl (e, small)) = rw (pad-still c o w (omega (arith, e))) (omega arith)
  pad-rest c o w fill lt (inr (big, e)) = rw (pad-negative c o w (omega arith)) (omega arith)

  pub pad-none : (c : ℕ) (o : Out) (w : ℕ) → 2 ^ 15 < w → (pad end still c o w).0 ≡ o
  pad-none c o w big = ap (λ (x : Out × ℕ). x.0) (pad-negative c o w big)

  pad-precision :
      (o : Out) (i p : ℕ)
      → i ≤ p
      → p < 2 ^ 15
      → (pad end (λ w. leb i w && still w) b'0' o p).0 ≡ put_all o (times (p - i) b'0')
  unfolding pad put_all
  pad-precision o i zero le lt =
      let nothing : 0 ≡ 0 - i = omega arith in ap (λ n. put_all o (times n b'0')) nothing
  pad-precision o i (suc p) le lt = elim (Bool-cases (leb i p)) [
    | inl go ↦
        let more : (leb i p && still p) ≡ true = ground arith in
        let count : suc p - i ≡ suc (p - i) = ground arith in
        rw (more, count, pad) (pad-precision (put end o b'0') i p (ground arith) (omega arith))
    | inr stop ↦
        let none_left : suc p - i ≡ 0 = ground arith in
        let done : (leb i p && still p) ≡ false = ground arith in rw (done, none_left, pad) refl
  ]

  pub put_head-lem :
      (o : Out) (sign base locase : ℕ) (need_pfx is_zero : Bool)
      → put_head end o sign base locase need_pfx is_zero
        ≡ put_all o (sign_text sign ++ prefix_text base locase need_pfx is_zero)
  unfolding put_head put_all
  put_head-lem o sign base locase need_pfx is_zero = elim (Bool-cases (sign == 0)) [
    | inl e ↦ rw e (prefix o)
    | inr e ↦ rw e (prefix (put end o sign))
  ]
    where
      prefix :
          (o : Out)
          → (let o2 = if need_pfx && ((base == 16) || not is_zero) then put end o b'0' else o in
              if need_pfx && (base == 16) then put end o2 (bit_or b'X' locase) else o2)
            ≡ put_all o (prefix_text base locase need_pfx is_zero)
      prefix o = elim (Bool-cases (need_pfx && ((base == 16) || not is_zero))) [
        | inl a ↦
            rw a (elim (Bool-cases (need_pfx && (base == 16))) [
              | inl b ↦ rw b refl
              | inr b ↦ rw b refl
            ])
        | inr a ↦
            rw a (elim (Bool-cases (need_pfx && (base == 16))) [
              | inl b ↦ rw b refl
              | inr b ↦ rw b refl
            ])
      ]

  pub put_number-lem :
      (o : Out) (p : ℕ) (tmp : List ℕ)
      → length tmp ≤ p
      → p < 2 ^ 15
      → put_number end o p tmp ≡ put_all o (times (p - length tmp) b'0' ++ backwards tmp)
  unfolding put_number
  put_number-lem o p tmp le lt =
      put_digits-backwards _ tmp
      ∙ ap (λ q. put_all q (backwards tmp)) (pad-precision o (length tmp) p le lt)
      ∙ sym (put_all-append o (times (p - length tmp) b'0') (backwards tmp))

  pub put_all-three :
      (o : Out) (xs ys zs : List ℕ)
      → put_all (put_all (put_all o xs) ys) zs ≡ put_all o (xs ++ (ys ++ zs))
  put_all-three o xs ys zs =
      sym (put_all-append o xs (ys ++ zs) ∙ put_all-append (put_all o xs) ys zs)
