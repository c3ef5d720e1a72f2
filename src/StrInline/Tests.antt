-- ===== src/StrInline/Tests.antt =====
-- Runs on a path and its start.
use hlos.Base.{◌≡◌, refl, [], ◌∷◌, some, true, arith, get_or}
use hlos.Bytes.{Mem, memset}
use hlos.Str.Text.{IsStr}
use hlos.StrInline.{bzero, strstarts, kbasename}
use hlos.StrInline.Names.{strstarts-is_start, kbasename-IsStr, kbasename-plain}

-- "a/b" stands at 1 and "a" at 5.
abbrev memory : Mem
memory a = get_or (0 ∷ b'a' ∷ b'/' ∷ b'b' ∷ 0 ∷ b'a' ∷ 0 ∷ []) a 0

path-IsStr : IsStr memory 1 (b'a' ∷ b'/' ∷ b'b' ∷ [])
path-IsStr = (refl, omega arith, (refl, omega arith, (refl, omega arith, refl)))

start-IsStr : IsStr memory 5 (b'a' ∷ [])
start-IsStr = (refl, omega arith, refl)

strstarts-is_start_run : strstarts 9 memory 1 5 ≡ some true
strstarts-is_start_run =
    strstarts-is_start 9 memory 1 5 (b'a' ∷ b'/' ∷ b'b' ∷ []) (b'a' ∷ []) path-IsStr start-IsStr
      (omega arith)

kbasename-IsStr_example : (kbasename 9 memory 1 ≡ some 3) × IsStr memory 3 (b'b' ∷ [])
kbasename-IsStr_example =
    kbasename-IsStr 9 memory 1 (b'a' ∷ []) (b'b' ∷ []) (omega arith) refl (omega arith) path-IsStr

kbasename-plain_run : kbasename 9 memory 5 ≡ some 5
kbasename-plain_run =
    kbasename-plain 9 memory 5 (b'a' ∷ []) (omega arith) refl (omega arith) start-IsStr

bzero_run : bzero memory 1 2 3 ≡ b'b'
unfolding bzero memset
bzero_run = refl
