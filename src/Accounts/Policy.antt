-- ===== src/Accounts/Policy.antt =====
-- dashboard/server/src/utils/credential-policy.js, and the normalisation of emails that the
-- services share. A text is the list of its UTF-16 code units.
use lidar_dashboard.Prelude.{
  ℕ, ◌+◌, Bool, true, false, not, ◌&&◌, ◌||◌, Option, none, some, List, [], ◌∷◌, leb, ltb, ◌==◌,
  if◌then◌else◌, length,
}
use lidar_dashboard.Prelude.Text.{Text, trim, to_lower, is_space}
use lidar_dashboard.Prelude.Patterns.{Piece, matches}

abbrev pub min_password_length : ℕ
min_password_length = 8

abbrev pub max_password_bytes : ℕ
max_password_bytes = 72

abbrev pub is_high : ℕ → Bool
is_high c = leb 0xd800 c && leb c 0xdbff

abbrev pub is_low : ℕ → Bool
is_low c = leb 0xdc00 c && leb c 0xdfff

-- The bytes of a code unit that is no half of a pair, or of the replacement of a lone second half.
abbrev pub unit_bytes : ℕ → ℕ
unit_bytes c = if ltb c 0x80 then 1 else if ltb c 0x800 then 2 else 3

-- `Buffer.byteLength(_, "utf8")` after a code unit that is a first half of a pair, or after none.
-- A pair takes four bytes, a half without the other the three of its replacement.
unfoldable pub utf8_length_after : (pending : Bool) → Text → ℕ
utf8_length_after false [] = 0
utf8_length_after true [] = 3
utf8_length_after true (c ∷ s) =
    if is_low c
    then 4 + utf8_length_after false s
    else if is_high c
    then 3 + utf8_length_after true s
    else 3 + unit_bytes c + utf8_length_after false s
utf8_length_after false (c ∷ s) =
    if is_high c then utf8_length_after true s else unit_bytes c + utf8_length_after false s

unfoldable pub utf8_length : Text → ℕ
unfolding utf8_length_after
utf8_length s = utf8_length_after false s

pub data PasswordError : Type 0 where
  too_short too_long : PasswordError

unfoldable pub get_password_validation_error : Text → Option PasswordError
get_password_validation_error password =
    if ltb (length password) min_password_length
    then some too_short
    else if ltb max_password_bytes (utf8_length password)
    then some too_long
    else none

abbrev no_error : Option PasswordError → Bool
no_error none = true
no_error (some e) = false

unfoldable pub is_valid_password : Text → Bool
is_valid_password password = no_error (get_password_validation_error password)

abbrev pub is_digit : ℕ → Bool
is_digit c = leb b'0' c && leb c b'9'

abbrev pub is_letter : ℕ → Bool
is_letter c = (leb b'a' c && leb c b'z') || (leb b'A' c && leb c b'Z')

abbrev pub once : (ℕ → Bool) → Piece
once class = record { class = class; least = 1; most = some 1 }

abbrev pub one_or_more : (ℕ → Bool) → Piece
one_or_more class = record { class = class; least = 1; most = none }

abbrev pub between : ℕ → ℕ → (ℕ → Bool) → Piece
between least most class = record { class = class; least = least; most = some most }

-- `USER_ID_PATTERN`.
abbrev pub user_id_pattern : List Piece
user_id_pattern = between 4 30 (λ c. is_letter c || is_digit c) ∷ []

unfoldable pub is_valid_user_id : Text → Bool
is_valid_user_id user_id = matches user_id_pattern (trim user_id)

-- `replace(/\D/g, "")`.
unfoldable pub digits_of : Text → Text
digits_of [] = []
digits_of (c ∷ s) = let rest = digits_of s in if is_digit c then c ∷ rest else rest

abbrev pub starts_with_plus : Text → Bool
starts_with_plus [] = false
starts_with_plus (c ∷ s) = c == b'+'

unfoldable pub normalize_phone_number : Text → Text
normalize_phone_number phone_number =
    let value = trim phone_number in
    if starts_with_plus value then b'+' ∷ digits_of value else digits_of value

-- 01[016789]\d{7,8}
abbrev pub mobile_pattern : List Piece
mobile_pattern =
    once (λ c. c == b'0')
    ∷ once (λ c. c == b'1')
    ∷ once (λ c. c == b'0' || c == b'1' || (leb b'6' c && leb c b'9'))
    ∷ between 7 8 is_digit
    ∷ []

-- \+?[1-9]\d{7,14}
abbrev pub international_pattern : List Piece
international_pattern =
    between 0 1 (λ c. c == b'+') ∷ once (λ c. leb b'1' c && leb c b'9') ∷ between 7 14 is_digit ∷ []

unfoldable pub is_valid_phone_number : Text → Bool
is_valid_phone_number phone_number =
    matches mobile_pattern phone_number || matches international_pattern phone_number

unfoldable pub normalize_email : Text → Text
normalize_email email = to_lower (trim email)

-- [^\s@]
unfoldable pub is_plain : ℕ → Bool
is_plain c = not (is_space c) && not (c == b'@')

-- [^\s@]+@[^\s@]+\.[^\s@]+
abbrev pub email_pattern : List Piece
email_pattern =
    one_or_more is_plain
    ∷ once (λ c. c == b'@')
    ∷ one_or_more is_plain
    ∷ once (λ c. c == b'.')
    ∷ one_or_more is_plain
    ∷ []

unfoldable pub is_email : Text → Bool
is_email email = matches email_pattern email
