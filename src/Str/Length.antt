-- ===== src/Str/Length.antt =====
-- `strlen` and `strnlen`.
use hlos.Base.{ℕ, zero, suc, ◌+◌, ◌-◌, ◌<◌, ◌≤◌, ◌≡◌, min, List, [], ◌∷◌, some, arith, length}
use hlos.Bytes.{Mem}
use hlos.Str.{strlen_loop, strlen, strnlen_loop, strnlen}
use hlos.Str.Text.{IsStr}

strlen_loop_lem :
    (fuel : ℕ) (m : Mem) (sc s : ℕ) (xs : List ℕ)
    → IsStr m sc xs
    → s ≤ sc
    → length xs < fuel
    → strlen_loop fuel m sc s ≡ some (sc - s + length xs)
unfolding strlen_loop
strlen_loop_lem zero m sc s xs h le l = absurd (omega arith)
strlen_loop_lem (suc fuel) m sc s [] h le l = ground arith
strlen_loop_lem (suc fuel) m sc s (x ∷ xs) h le l =
    ground (arith, h.0, h.1, strlen_loop_lem fuel m (sc + 1) s xs h.2)

-- With more fuel than the string has bytes, `strlen` ends and returns the number of bytes
-- before the NUL.
pub strlen-length :
    (fuel : ℕ) (m : Mem) (s : ℕ) (xs : List ℕ)
    → IsStr m s xs
    → length xs < fuel
    → strlen fuel m s ≡ some (length xs)
unfolding strlen
strlen-length fuel m s xs h l = ground (arith, strlen_loop_lem fuel m s s xs h)

strnlen_loop_lem :
    (m : Mem) (sc s count : ℕ) (xs : List ℕ)
    → IsStr m sc xs
    → s ≤ sc
    → strnlen_loop m sc s count ≡ sc - s + min (length xs) count
unfolding strnlen_loop
strnlen_loop_lem m sc s zero xs h le = omega arith
strnlen_loop_lem m sc s (suc count) [] h le = ground arith
strnlen_loop_lem m sc s (suc count) (x ∷ xs) h le =
    ground (arith, h.0, h.1, strnlen_loop_lem m (sc + 1) s count xs h.2)

-- `strnlen` returns the length of the string, or count where that is smaller.
pub strnlen-length :
    (m : Mem) (s count : ℕ) (xs : List ℕ) → IsStr m s xs → strnlen m s count ≡ min (length xs) count
unfolding strnlen
strnlen-length m s count xs h = omega (arith, strnlen_loop_lem m s s count xs h)
