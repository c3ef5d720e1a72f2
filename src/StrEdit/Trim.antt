-- ===== src/StrEdit/Trim.antt =====
-- `strim`.
use hlos.Base.{
  ℕ, zero, suc, ◌+◌, ◌<◌, ◌≤◌, ◌≡◌, ◌≢◌, inl, inr, refl, ap, sym, subst, ◌∙◌, true, false, ◌&&◌,
  Bool-cases, List, [], ◌∷◌, some, arith, length, ◌==◌, ==_refl, if◌then◌else◌,
}
use hlos.Bytes.{Mem, poke}
use hlos.Ctype.{isspace}
use hlos.Ctype.Laws.{isspace_lem}
use hlos.Str.{strlen, skip_spaces}
use hlos.Str.Text.{IsStr}
use hlos.Str.Length.{strlen-length}
use hlos.StrEdit.{trim_end, strim}

-- A text without the spaces at its end, and one without those at its start.
abbrev pub trim_back : List ℕ → List ℕ
trim_back [] = []
trim_back (x ∷ xs) = if isspace x && (length (trim_back xs) == 0) then [] else x ∷ trim_back xs

abbrev pub trim_front : List ℕ → List ℕ
trim_front [] = []
trim_front (x ∷ xs) = if isspace x then trim_front xs else x ∷ xs

trim_end-step :
    (m : Mem) (s k : ℕ)
    → trim_end m s (suc k) ≡ (if isspace (m (s + k)) then trim_end m s k else s + suc k)
unfolding trim_end
trim_end-step m s k = refl

trim_end-zero : (m : Mem) (s : ℕ) → trim_end m s 0 ≡ s
unfolding trim_end
trim_end-zero m s = refl

-- The end of the text, given the end of what stands behind its first byte.
abbrev whole_end : Mem → (s rest : ℕ) → ℕ
whole_end m s rest = if isspace (m s) && (rest == s + 1) then s else rest

trim_end-shift : (m : Mem) (s k : ℕ) → trim_end m s (suc k) ≡ whole_end m s (trim_end m (s + 1) k)
trim_end-shift m s zero =
    let same : s + 0 ≡ s = omega arith in
    rw (trim_end-step m s 0, trim_end-zero m s, trim_end-zero m (s + 1), same, ==_refl (s + 1))
      (elim (Bool-cases (isspace (m s))) [ inl b ↦ rw b refl | inr b ↦ rw b refl ])
trim_end-shift m s (suc k) =
    let place : s + 1 + k ≡ s + suc k = omega arith in
    let all = trim_end-step m s (suc k) in
    let rest = trim_end-step m (s + 1) k in
    elim (Bool-cases (isspace (m (s + suc k)))) [
      | inl space ↦
          let shorter : trim_end m s (suc (suc k)) ≡ trim_end m s (suc k) = all ∙ (rw space refl) in
          let rest_shorter : trim_end m (s + 1) (suc k) ≡ trim_end m (s + 1) k =
            rest ∙ (rw (place, space) refl) in
          shorter ∙ trim_end-shift m s k ∙ ap (whole_end m s) (sym rest_shorter)
      | inr text ↦
          let here : trim_end m s (suc (suc k)) ≡ s + suc (suc k) = all ∙ (rw text refl) in
          let rest_here : trim_end m (s + 1) (suc k) ≡ s + 1 + suc k =
            rest ∙ (rw (place, text) refl) in
          let behind : (s + 1 + suc k == s + 1) ≡ false = ground arith in
          let sum : s + suc (suc k) ≡ whole_end m s (s + 1 + suc k) = ground (arith, behind) in
          here ∙ sum ∙ ap (whole_end m s) (sym rest_here)
    ]

trim_end-length :
    (m : Mem) (s : ℕ) (xs : List ℕ)
    → IsStr m s xs
    → trim_end m s (length xs) ≡ s + length (trim_back xs)
trim_end-length m s [] h = trim_end-zero m s ∙ omega arith
trim_end-length m s (x ∷ xs) h =
    let n = length (trim_back xs) in
    let rest = trim_end-length m (s + 1) xs h.2 in
    let same : (s + 1 + n == s + 1) ≡ (n == 0) = ground arith in
    trim_end-shift m s (length xs)
    ∙ ap (whole_end m s) rest
    ∙ rw (h.0, same)
        (elim (Bool-cases (isspace x && (n == 0))) [
          | inl b ↦ rw b (omega arith)
          | inr b ↦ rw b (omega arith)
        ])

trim_back-nothing :
    (x : ℕ) (xs : List ℕ)
    → (isspace x && (length (trim_back xs) == 0)) ≡ true
    → trim_back (x ∷ xs) ≡ []
trim_back-nothing x xs b = rw b refl

trim_back-more :
    (x : ℕ) (xs : List ℕ)
    → (isspace x && (length (trim_back xs) == 0)) ≡ false
    → trim_back (x ∷ xs) ≡ x ∷ trim_back xs
trim_back-more x xs b = rw b refl

cut-IsStr :
    (m r : Mem) (s : ℕ) (xs : List ℕ)
    → IsStr m s xs
    → ((a : ℕ) → a < s + length (trim_back xs) → r a ≡ m a)
    → r (s + length (trim_back xs)) ≡ 0
    → IsStr r s (trim_back xs)
cut-IsStr m r s [] h same end = ground (arith, end)
cut-IsStr m r s (x ∷ xs) h same end =
    elim (Bool-cases (isspace x && (length (trim_back xs) == 0))) [
      | inl b ↦
          let none_left = trim_back-nothing x xs b in
          let place : s + length (trim_back (x ∷ xs)) ≡ s =
            ap (λ t. s + length t) none_left ∙ omega arith in
          subst (IsStr r s) (sym none_left) (subst (λ p. r p ≡ 0) place end)
      | inr b ↦
          let kept = trim_back-more x xs b in
          let size = ap length kept in
          let place : s + length (trim_back (x ∷ xs)) ≡ s + 1 + length (trim_back xs) =
            omega (arith, size) in
          subst (IsStr r s) (sym kept) (
            same s (omega (arith, size)) ∙ h.0,
            h.1,
            cut-IsStr m r (s + 1) xs h.2 (λ a lt. same a (omega (arith, size)))
                (subst (λ p. r p ≡ 0) place end),
          )
    ]

-- `skip_spaces` ends at the text without the spaces at its start.
skip_spaces-IsStr :
    (fuel : ℕ) (m : Mem) (s : ℕ) (xs : List ℕ)
    → IsStr m s xs
    → length xs < fuel
    → (p : ℕ) × (skip_spaces fuel m s ≡ some p) × IsStr m p (trim_front xs)
unfolding skip_spaces
skip_spaces-IsStr zero m s xs h enough = absurd (omega arith)
skip_spaces-IsStr (suc fuel) m s [] h enough =
    let plain : isspace 0 ≡ false = isspace_lem 0 (omega arith) in (s, rw (h, plain) refl, h)
skip_spaces-IsStr (suc fuel) m s (x ∷ xs) h enough = elim (Bool-cases (isspace x)) [
  | inl space ↦
      let rest = skip_spaces-IsStr fuel m (s + 1) xs h.2 (omega arith) in
      (rest.0, rw (h.0, space) rest.1, rw space rest.2)
  | inr text ↦ (s, rw (h.0, text) refl, rw text h)
]

length-trim_back : (xs : List ℕ) → length (trim_back xs) ≤ length xs
length-trim_back [] = omega arith
length-trim_back (x ∷ xs) =
    let rest = length-trim_back xs in
    elim (Bool-cases (isspace x && (length (trim_back xs) == 0))) [
      | inl b ↦ omega (arith, ap length (trim_back-nothing x xs b))
      | inr b ↦ omega (arith, ap length (trim_back-more x xs b), rest)
    ]

strim-eq :
    (fuel : ℕ) (m : Mem) (s size end p : ℕ)
    → strlen fuel m s ≡ some size
    → (size == 0) ≡ false
    → trim_end m s size ≡ end
    → skip_spaces fuel (poke m end 0) s ≡ some p
    → strim fuel m s ≡ some (p, poke m end 0)
unfolding strim
strim-eq fuel m s size end p l ne e k = rw (l, strim, ne, e, k) refl

-- With more fuel than the string has bytes, `strim` ends: it returns the place where the text
-- without the spaces at its start and its end stands, and writes at most one byte, the NUL behind
-- that text.
pub strim-IsStr :
    (fuel : ℕ) (m : Mem) (s : ℕ) (xs : List ℕ)
    → IsStr m s xs
    → length xs < fuel
    → (p : ℕ) × (m' : Mem) × (strim fuel m s ≡ some (p, m'))
      × IsStr m' p (trim_front (trim_back xs))
      × ((a : ℕ) → a ≢ s + length (trim_back xs) → m' a ≡ m a)
strim-IsStr fuel m s [] h enough =
    (s, m, unfold strim in rw (strlen-length fuel m s [] h enough, strim) refl, h, λ a ne. refl)
strim-IsStr fuel m s (x ∷ xs) h enough =
    let ys = trim_back (x ∷ xs) in
    let end = s + length ys in
    let r = poke m end 0 in
    let cut = cut-IsStr m r s (x ∷ xs) h (λ a lt. ground arith) (ground arith) in
    let skipped = skip_spaces-IsStr fuel r s ys cut (omega (arith, length-trim_back (x ∷ xs))) in
    (
      skipped.0,
      r,
      strim-eq fuel m s (suc (length xs)) end skipped.0 (strlen-length fuel m s (x ∷ xs) h enough)
          (ground arith) (trim_end-length m s (x ∷ xs) h) skipped.1,
      skipped.2,
      λ a ne. ground arith,
    )
