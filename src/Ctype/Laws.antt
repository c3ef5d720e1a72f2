-- ===== src/Ctype/Laws.antt =====
-- What the character classes are, checked over all 256 codes.
use hlos.Base.{ℕ, ◌<◌, ◌≡◌, refl, true, ◌&&◌, ◌||◌, not, arith, ◌==◌, leb}
use hlos.Base.Finite.{all_codes, all_codes-at, bool_eq, bool_eq→eq}
use hlos.Ctype.{isdigit, isupper, islower, isspace, tolower, toupper}

digits_table : all_codes 256 (λ c. bool_eq (isdigit c) (leb b'0' c && leb c b'9')) ≡ true
unfolding all_codes bool_eq isdigit
digits_table = refl

-- `isdigit` holds of the ten digits and of nothing else.
pub isdigit_lem : (c : ℕ) → c < 256 → isdigit c ≡ (leb b'0' c && leb c b'9')
isdigit_lem c h = bool_eq→eq _ _ (all_codes-at 256 _ c h digits_table)

spaces_table :
    all_codes 256 (λ c. bool_eq (isspace c) ((leb 9 c && leb c 13) || (c == 32) || (c == 160)))
    ≡ true
unfolding all_codes bool_eq isspace
spaces_table = refl

-- For codes below 256 `isspace` holds of tab to carriage return, of the space and of the hard
-- space, and of nothing else.
pub isspace_lem : (c : ℕ) → c < 256 → isspace c ≡ ((leb 9 c && leb c 13) || (c == 32) || (c == 160))
isspace_lem c h = bool_eq→eq _ _ (all_codes-at 256 _ c h spaces_table)

case_table :
    all_codes 256 (λ c.
      not (isupper c)
      || (islower (tolower c) && (toupper (tolower c) == c) && (tolower (tolower c) == tolower c)))
    ≡ true
unfolding all_codes isupper islower tolower toupper
case_table = refl

-- For codes below 256, an upper-case letter has a lower-case letter for its `tolower`, and
-- `toupper` leads back to it.
pub toupper-tolower :
    (c : ℕ) → c < 256 → isupper c ≡ true → (islower (tolower c) ≡ true) × (toupper (tolower c) ≡ c)
toupper-tolower c h up = ground (arith, all_codes-at 256 _ c h case_table)
