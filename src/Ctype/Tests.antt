-- ===== src/Ctype/Tests.antt =====
-- The character classes of a digit, a space and a letter.
use hlos.Base.{◌≡◌, refl, true, false, arith}
use hlos.Ctype.{isdigit, isupper, isspace, islower, tolower, toupper}
use hlos.Ctype.Laws.{isdigit_lem, isspace_lem, toupper-tolower}

isdigit_lem_run : isdigit b'7' ≡ true
isdigit_lem_run = isdigit_lem b'7' (omega arith)

isspace_lem_run : isspace 0 ≡ false
isspace_lem_run = isspace_lem 0 (omega arith)

toupper-tolower_run : (islower (tolower b'Q') ≡ true) × (toupper (tolower b'Q') ≡ b'Q')
unfolding isupper
toupper-tolower_run = toupper-tolower b'Q' (omega arith) refl
