-- ===== src/Str/Text.antt =====
-- What a string in memory is: the bytes up to its NUL.
use hlos.Base.{ℕ, zero, suc, ◌+◌, ◌<◌, ◌≡◌, ◌≢◌, List, [], ◌∷◌, arith, length}
use hlos.Bytes.{Mem}

-- At `s` stand the bytes `xs`, none of them NUL, and then a NUL.
abbrev pub IsStr : Mem → ℕ → List ℕ → Type 0
IsStr m s [] = m s ≡ 0
IsStr m s (x ∷ xs) = (m s ≡ x) × (x ≢ 0) × IsStr m (s + 1) xs

pub IsStr-end : (m : Mem) (s : ℕ) (xs : List ℕ) → IsStr m s xs → m (s + length xs) ≡ 0
IsStr-end m s [] h = ground (arith)
IsStr-end m s (x ∷ xs) h = ground (arith, IsStr-end m (s + 1) xs h.2)

pub IsStr-inside :
    (m : Mem) (s : ℕ) (xs : List ℕ) → IsStr m s xs → (i : ℕ) → i < length xs → m (s + i) ≢ 0
IsStr-inside m s [] h i l = absurd (omega arith)
IsStr-inside m s (x ∷ xs) h zero l = ground (arith, h.0, h.1)
IsStr-inside m s (x ∷ xs) h (suc i) l = ground (arith, IsStr-inside m (s + 1) xs h.2 i)
