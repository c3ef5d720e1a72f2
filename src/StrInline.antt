-- ===== src/StrInline.antt =====
-- The inline functions of include/string.h.
pub mod Names
mod Tests
use mathlib.Core.Option
use hlos.Base.{ℕ, zero, suc, ◌+◌, Bool, true, false, not, Option, ◌==◌, if◌then◌else◌}
use hlos.Base.Int.{ℤ, pos}
use hlos.Bytes.{Mem, null, memset}
use hlos.Str.{strlen, strncmp, strrchr}
use hlos.StrEdit.{strim}

unfoldable pub strstrip : ℕ → Mem → ℕ → Option (ℕ × Mem)
unfolding strim
strstrip fuel m str = strim fuel m str

unfoldable pub bzero : Mem → (dest len : ℕ) → Mem
unfolding memset
bzero m dest len = memset m dest 0 len

-- The test `== 0` of an `int`.
abbrev pub equals_zero : ℤ → Bool
equals_zero (pos zero) = true
equals_zero _ = false

unfoldable pub strstarts : ℕ → Mem → (str prefix : ℕ) → Option Bool
unfolding strlen strncmp
strstarts fuel m str prefix =
    Option.map (λ len. equals_zero (strncmp m str prefix len)) (strlen fuel m prefix)

unfoldable pub kbasename : ℕ → Mem → ℕ → Option ℕ
unfolding strrchr
kbasename fuel m path =
    Option.map (λ tail. if not (tail == null) then tail + 1 else path) (strrchr fuel m path b'/')
