-- ===== src/Accounts/Phones.antt =====
-- The phone numbers that are stored.
use lidar_dashboard.Prelude.{ℕ, ◌≤◌, ◌≡◌, Bool, true, List, [], ◌∷◌, ◌++◌, arith, ◌==◌, length}
use lidar_dashboard.Prelude.Text.{Text}
use lidar_dashboard.Prelude.Tables.{All}
use lidar_dashboard.Prelude.Patterns.{Piece}
use lidar_dashboard.Accounts.Policy.{is_digit, between}
use lidar_dashboard.Prelude.{◌⊎◌, ◌&&◌, ◌||◌, leb}

-- A text of `least` to `most` digits.
abbrev pub IsDigits : (least most : ℕ) → Text → Type 0
IsDigits least most s = All (λ c. is_digit c ≡ true) s × (least ≤ length s) × (length s ≤ most)

-- `01`, one of 0, 1, 6, 7, 8 and 9, and 7 or 8 digits.
abbrev pub IsMobile : Text → Type 0
IsMobile s =
    (x : ℕ) × (rest : Text) × ((x ≡ b'0') ⊎ (x ≡ b'1') ⊎ ((b'6' ≤ x) × (x ≤ b'9')))
    × IsDigits 7 8 rest
    × (s ≡ b'0' ∷ b'1' ∷ x ∷ rest)

-- A plus or none, and 8 to 15 digits the first of which is not 0.
abbrev pub IsInternational : Text → Type 0
IsInternational s =
    (sign : Text) × (x : ℕ) × (rest : Text) × ((sign ≡ []) ⊎ (sign ≡ b'+' ∷ []))
    × (b'1' ≤ x)
    × (x ≤ b'9')
    × IsDigits 7 14 rest
    × (s ≡ sign ++ x ∷ rest)

abbrev pub IsPhone : Text → Type 0
IsPhone s = IsMobile s ⊎ IsInternational s

-- The pieces of the two expressions, from the second on.
abbrev is_code_unit : ℕ → ℕ → Bool
is_code_unit k c = c == k

abbrev is_third : ℕ → Bool
is_third c = c == b'0' || c == b'1' || (leb b'6' c && leb c b'9')

abbrev is_first : ℕ → Bool
is_first c = leb b'1' c && leb c b'9'

abbrev last_digits : ℕ → ℕ → List Piece
last_digits least most = between least most is_digit ∷ []

is_third-digit : (x : ℕ) → is_third x ≡ true → is_digit x ≡ true
is_third-digit x h = ground (arith, h)

is_first-digit : (x : ℕ) → b'1' ≤ x → x ≤ b'9' → is_digit x ≡ true
is_first-digit x low high = ground (arith, low, high)
