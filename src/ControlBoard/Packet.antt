-- ===== src/ControlBoard/Packet.antt =====
-- `normalizePacket`, `parseByteToken`, `toHex` and `toHexString` of dashboard/server/src/domains/
-- external-ingest/protocol/controlBoardProtocol.js: a packet as an HTTP client sends it, an array
-- or a text, and the bytes that it stands for.
use lidar_dashboard.Prelude.{
  ℕ, zero, suc, ◌+◌, ◌-◌, ◌*◌, ◌/◌, ◌%◌, ◌≡◌, refl, Bool, ◌&&◌, ◌||◌, Option, none, some, List, [],
  ◌∷◌, ◌++◌, map, leb, ltb, ◌==◌, if◌then◌else◌,
}
use lidar_dashboard.Prelude.Text.{
  Text, codes, is_space, is_line_end, trim, trim_start, contains_code,
}

-- A JavaScript number: a natural number, or one that `Number.isInteger(value) && value >= 0`
-- rejects (negative, fractional, infinite, NaN).
pub data Number : Type 0 where
  nat : ℕ → Number
  other : Number

-- An entry of a packet array. A value that is no number is read through `String(value)`.
pub data Element : Type 0 where
  number : Number → Element
  string : Text → Element

pub data PacketInput : Type 0 where
  array : List Element → PacketInput
  text : Text → PacketInput
  neither : PacketInput

pub data PacketError : Type 0 where
  array_not_bytes empty_text text_not_hex not_a_packet : PacketError

pub data Normalized : Type 0 where
  ok : List ℕ → Normalized
  err : PacketError → Normalized

unfoldable pub hex_value : ℕ → Option ℕ
hex_value c =
    if leb b'0' c && leb c b'9'
    then some (c - b'0')
    else if leb b'a' c && leb c b'f'
    then some (c - 87)
    else if leb b'A' c && leb c b'F'
    then some (c - 55)
    else none

-- The digits that `Number.parseInt` reads: the longest run at the front; `none` is NaN.
unfoldable pub parse_digits : Option ℕ → Text → Option ℕ
unfolding hex_value
parse_digits seen [] = seen
parse_digits seen (c ∷ s) = elim (hex_value c) [
  | none ↦ seen
  | some d ↦ parse_digits (some (elim seen [ none ↦ d | some n ↦ n * 16 + d ])) s
]

unfoldable pub drop_radix_prefix : Text → Text
drop_radix_prefix (c ∷ d ∷ s) = if c == b'0' && (d == b'x' || d == b'X') then s else c ∷ d ∷ s
drop_radix_prefix s = s

-- `-n` is not negative when n is 0.
unfoldable pub negated : Option ℕ → Option ℕ
negated none = none
negated (some n) = if n == 0 then some 0 else none

-- `Number.parseInt(s, 16)` after white space, with `none` for NaN and for what is negative.
unfoldable pub parse_signed : Text → Option ℕ
unfolding parse_digits drop_radix_prefix negated
parse_signed [] = none
parse_signed (c ∷ s) =
    if c == b'-'
    then negated (parse_digits none (drop_radix_prefix s))
    else if c == b'+'
    then parse_digits none (drop_radix_prefix s)
    else parse_digits none (drop_radix_prefix (c ∷ s))

unfoldable pub parse_int_16 : Text → Option ℕ
unfolding trim_start parse_signed
parse_int_16 s = parse_signed (trim_start s)

unfoldable pub at_most_255 : Option ℕ → Option ℕ
at_most_255 none = none
at_most_255 (some n) = if leb n 255 then some n else none

-- `normalized.toLowerCase().startsWith("0x")`, and then `slice(2)`.
unfoldable pub after_0x : Text → Option Text
after_0x (c ∷ d ∷ s) = if c == b'0' && (d == b'x' || d == b'X') then some s else none
after_0x s = none

unfoldable pub parse_trimmed : Text → Option ℕ
unfolding after_0x parse_int_16 at_most_255
parse_trimmed [] = none
parse_trimmed s = elim (after_0x s) [
  | some digits ↦ at_most_255 (parse_int_16 digits)
  | none ↦ at_most_255 (parse_int_16 s)
]

unfoldable pub parse_byte_token : Text → Option ℕ
unfolding trim parse_trimmed
parse_byte_token token = parse_trimmed (trim token)

-- A number of an array passes as it is, and is then held to the range of a byte.
unfoldable pub element_byte : Element → Option ℕ
unfolding at_most_255 parse_byte_token
element_byte (number (nat n)) = at_most_255 (some n)
element_byte (number other) = none
element_byte (string s) = parse_byte_token s

-- All results, or `none` if one is missing.
unfoldable pub all_some : List (Option ℕ) → Option (List ℕ)
all_some [] = some []
all_some (none ∷ xs) = none
all_some (some x ∷ xs) = elim (all_some xs) [ none ↦ none | some ys ↦ some (x ∷ ys) ]

unfoldable pub is_separator : ℕ → Bool
unfolding is_space
is_separator c = is_space c || c == b','

-- A non-empty word is put in front; `filter(Boolean)` drops the empty ones.
unfoldable pub put_word : Text → List Text → List Text
put_word [] ws = ws
put_word (c ∷ w) ws = (c ∷ w) ∷ ws

-- `split(/[\s,]+/).filter(Boolean)`; `word` is the current word, and is empty at the start.
unfoldable pub split_words : Text → Text → List Text
unfolding is_separator put_word
split_words word [] = put_word word []
split_words word (c ∷ s) =
    let cut = put_word word (split_words [] s) in
    let more = split_words (word ++ c ∷ []) s in if is_separator c then cut else more

-- `match(/.{1,2}/g) || []`.
unfoldable pub pairs : Text → List Text
unfolding is_line_end
pairs [] = []
pairs (c ∷ []) = if is_line_end c then [] else (c ∷ []) ∷ []
pairs (c ∷ d ∷ s) =
    let skip = pairs (d ∷ s) in
    let rest = pairs s in
    if is_line_end c then skip else if is_line_end d then (c ∷ []) ∷ rest else (c ∷ d ∷ []) ∷ rest

unfoldable pub tokens : Text → List Text
tokens s = if contains_code b' ' s || contains_code b',' s then split_words [] s else pairs s

unfoldable pub text_bytes : Text → Normalized
text_bytes [] = err empty_text
text_bytes s = elim (all_some (map parse_byte_token (tokens s))) [
  | none ↦ err text_not_hex
  | some bytes ↦ ok bytes
]

unfoldable pub normalize_packet : PacketInput → Normalized
normalize_packet (array values) = elim (all_some (map element_byte values)) [
  | none ↦ err array_not_bytes
  | some bytes ↦ ok bytes
]
normalize_packet (text s) = text_bytes (trim s)
normalize_packet neither = err not_a_packet

-- `toString(16).toUpperCase()`.
unfoldable pub hex_digit : ℕ → ℕ
hex_digit d = if ltb d 10 then d + b'0' else d + 55

unfoldable pub to_string_16 : ℕ → ℕ → Text → Text
unfolding hex_digit
to_string_16 zero n done = done
to_string_16 (suc fuel) n done =
    let longer = to_string_16 fuel (n / 16) (hex_digit (n % 16) ∷ done) in
    if n == 0 then done else longer

-- `padStart(2, "0")`.
unfoldable pub pad_2 : Text → Text
pad_2 [] = b'0' ∷ b'0' ∷ []
pad_2 (c ∷ []) = b'0' ∷ c ∷ []
pad_2 s = s

-- The fuel is one more than the number, and a number has fewer digits than that. "0" itself is
-- padded from the empty text.
unfoldable pub hex_pair : ℕ → Text
unfolding to_string_16 pad_2
hex_pair byte = pad_2 (to_string_16 (suc byte) byte [])

unfoldable pub to_hex : ℕ → Text
unfolding hex_pair
to_hex byte = codes "0x" ++ hex_pair byte

unfoldable pub to_hex_string : List ℕ → Text
unfolding hex_pair
to_hex_string [] = []
to_hex_string (byte ∷ []) = hex_pair byte
to_hex_string (byte ∷ next ∷ bytes) = hex_pair byte ++ b' ' ∷ to_hex_string (next ∷ bytes)

parse_tests :
    (parse_byte_token (codes " 0xA1 ") ≡ some 161)
    × (parse_byte_token (codes "fg") ≡ some 15)
    × (parse_byte_token (codes "g1") ≡ none)
    × (parse_byte_token (codes "-1") ≡ none)
    × (parse_byte_token (codes "100") ≡ none)
unfolding parse_byte_token
parse_tests = (refl, refl, refl, refl, refl)

normalize_tests :
    (normalize_packet (text (codes "02 A1,0x10  ff")) ≡ ok (2 ∷ 161 ∷ 16 ∷ 255 ∷ []))
    × (normalize_packet (text (codes "02A110f")) ≡ ok (2 ∷ 161 ∷ 16 ∷ 15 ∷ []))
    × (normalize_packet (array (number (nat 2) ∷ string (codes "A1") ∷ [])) ≡ ok (2 ∷ 161 ∷ []))
    × (normalize_packet (array (number (nat 256) ∷ [])) ≡ err array_not_bytes)
    × (normalize_packet (text (codes "   ")) ≡ err empty_text)
    × (to_hex_string (2 ∷ 161 ∷ 0 ∷ []) ≡ codes "02 A1 00")
unfolding normalize_packet text_bytes tokens contains_code split_words pairs all_some
    parse_byte_token element_byte trim to_hex_string
normalize_tests = (refl, refl, refl, refl, refl, refl)
