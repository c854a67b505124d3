-- ===== src/Prelude/Text.antt =====
-- JavaScript text as its list of code units, with the `String` methods that the server uses.
-- `to_upper` and `to_lower` map the ASCII letters and leave every other code unit as it is.
use Prim.Native.Char.{code}
use Prim.Native.String.{String}
use lidar_dashboard.Prelude.{
  ℕ, ◌+◌, ◌-◌, ◌≡◌, refl, Bool, true, false, ◌&&◌, ◌||◌, List, [], ◌∷◌, map, arith, leb, ◌==◌,
  if◌then◌else◌,
}

abbrev pub Text : Type 0
Text = List ℕ

abbrev pub codes : String → Text
codes String.[] = []
codes (String.◌∷◌ c s) = code c ∷ codes s

-- `a === b` on strings.
unfoldable pub text_eq : Text → Text → Bool
text_eq [] [] = true
text_eq [] (c ∷ b) = false
text_eq (c ∷ a) [] = false
text_eq (c ∷ a) (d ∷ b) = (c == d) && text_eq a b

pub text_eq→≡ : (a b : Text) → text_eq a b ≡ true → a ≡ b
unfolding text_eq
text_eq→≡ [] [] h = refl
text_eq→≡ [] (c ∷ b) h = cc
text_eq→≡ (c ∷ a) [] h = cc
text_eq→≡ (c ∷ a) (d ∷ b) h = ground (arith, text_eq→≡ a b)

pub text_eq_refl : (a : Text) → text_eq a a ≡ true
unfolding text_eq
text_eq_refl [] = refl
text_eq_refl (c ∷ a) = ground (arith, text_eq_refl a)

-- The white space and line ends that `trim` and `\s` take.
unfoldable pub is_space : ℕ → Bool
is_space c =
    (leb 9 c && leb c 13)
    || c == 32
    || c == 160
    || c == 0x1680
    || (leb 0x2000 c && leb c 0x200a)
    || c == 0x2028
    || c == 0x2029
    || c == 0x202f
    || c == 0x205f
    || c == 0x3000
    || c == 0xfeff

-- What `.` of a regular expression does not match.
unfoldable pub is_line_end : ℕ → Bool
is_line_end c = c == 10 || c == 13 || c == 0x2028 || c == 0x2029

unfoldable pub trim_start : Text → Text
unfolding is_space
trim_start [] = []
trim_start (c ∷ s) = let rest = trim_start s in if is_space c then rest else c ∷ s

-- White space at the end goes when nothing else follows it.
unfoldable pub trim_end : Text → Text
unfolding is_space
trim_end [] = []
trim_end (c ∷ s) = elim (trim_end s) [
  | [] ↦ if is_space c then [] else c ∷ []
  | d ∷ rest ↦ c ∷ d ∷ rest
]

unfoldable pub trim : Text → Text
unfolding trim_start trim_end
trim s = trim_end (trim_start s)

unfoldable pub upper_code : ℕ → ℕ
upper_code c = if leb b'a' c && leb c b'z' then c - 32 else c

unfoldable pub to_upper : Text → Text
unfolding upper_code
to_upper s = map upper_code s

unfoldable pub lower_code : ℕ → ℕ
lower_code c = if leb b'A' c && leb c b'Z' then c + 32 else c

unfoldable pub to_lower : Text → Text
unfolding lower_code
to_lower s = map lower_code s

unfoldable pub contains_code : ℕ → Text → Bool
contains_code d [] = false
contains_code d (c ∷ s) = c == d || contains_code d s

unfoldable pub replace_code : ℕ → ℕ → Text → Text
replace_code from to [] = []
replace_code from to (c ∷ s) = (if c == from then to else c) ∷ replace_code from to s

trim_test : trim (codes "  a b ") ≡ codes "a b"
unfolding trim
trim_test = refl
