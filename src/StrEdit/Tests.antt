-- ===== src/StrEdit/Tests.antt =====
-- "ab" is copied, appended and cut.
use hlos.Base.{
  ℕ, ◌+◌, ◌<◌, ◌≤◌, ◌≡◌, ◌≢◌, ◌⊎◌, inl, inr, refl, List, [], ◌∷◌, some, arith, get_or, length,
}
use hlos.Bytes.{Mem}
use hlos.Bytes.Move.{IsCopied}
use hlos.Str.Text.{IsStr}
use hlos.StrEdit.{strcpy, strncpy, strlcpy, strcat, strim}
use hlos.StrEdit.Trim.{trim_front, trim_back, strim-IsStr}
use hlos.Ctype.{isspace}
use hlos.StrEdit.Copy.{strcpy-IsCopied, strcat-append, strncpy_lem, strlcpy-take}

-- "ab" stands at 1 and "c d" at 10.
abbrev memory : Mem
memory a = get_or (0 ∷ b'a' ∷ b'b' ∷ 0 ∷ 0 ∷ 0 ∷ 0 ∷ 0 ∷ 0 ∷ 0 ∷ b'c' ∷ b' ' ∷ b'd' ∷ []) a 0

abbrev ab : List ℕ
ab = b'a' ∷ b'b' ∷ []

abbrev cd : List ℕ
cd = b'c' ∷ b' ' ∷ b'd' ∷ []

ab-IsStr : IsStr memory 1 ab
ab-IsStr = (refl, omega arith, (refl, omega arith, refl))

cd-IsStr : IsStr memory 10 cd
cd-IsStr = (refl, omega arith, (refl, omega arith, (refl, omega arith, refl)))

strcpy-IsCopied_run :
    (m' : Mem) × (strcpy 4 memory 20 10 ≡ some m') × IsCopied memory 20 10 4 m' × IsStr m' 20 cd
strcpy-IsCopied_run = strcpy-IsCopied 4 memory 20 10 cd cd-IsStr (inr (omega arith)) (omega arith)

strcat-append_run :
    (m' : Mem) × (strcat 4 memory 1 10 ≡ some m')
    × IsStr m' 1 (b'a' ∷ b'b' ∷ b'c' ∷ b' ' ∷ b'd' ∷ [])
    × ((a : ℕ) → (a < 1) ⊎ (6 < a) → m' a ≡ memory a)
strcat-append_run =
    strcat-append 4 memory 1 10 ab cd ab-IsStr cd-IsStr (inl (omega arith)) (omega arith)
      (omega arith)

strncpy_lem_run : strncpy memory 20 10 5 24 ≡ 0
strncpy_lem_run = strncpy_lem memory 20 10 5 cd cd-IsStr (inr (omega arith)) 24

strlcpy-take_example :
    (m' : Mem) × (strlcpy 4 memory 20 10 3 ≡ some (3, m'))
    × IsStr m' 20 (b'c' ∷ b' ' ∷ [])
    × ((a : ℕ) → (a < 20) ⊎ (23 ≤ a) → m' a ≡ memory a)
strlcpy-take_example = strlcpy-take 4 memory 20 10 2 cd cd-IsStr (inr (omega arith)) (omega arith)

-- " a " stands at 1.
abbrev padded : Mem
padded a = get_or (0 ∷ b' ' ∷ b'a' ∷ b' ' ∷ 0 ∷ []) a 0

abbrev padded_text : List ℕ
padded_text = b' ' ∷ b'a' ∷ b' ' ∷ []

strim-IsStr_example :
    (p : ℕ) × (m' : Mem) × (strim 4 padded 1 ≡ some (p, m'))
    × IsStr m' p (trim_front (trim_back padded_text))
    × ((a : ℕ) → a ≢ 1 + length (trim_back padded_text) → m' a ≡ padded a)
strim-IsStr_example =
    strim-IsStr 4 padded 1 padded_text
      (refl, omega arith, (refl, omega arith, (refl, omega arith, refl))) (omega arith)

trimmed : trim_front (trim_back padded_text) ≡ b'a' ∷ []
unfolding isspace
trimmed = refl
