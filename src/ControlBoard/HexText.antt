-- ===== src/ControlBoard/HexText.antt =====
-- The HEX text that the server shows for a packet is read back as the same bytes.
use lidar_dashboard.Prelude.{
  tested_under, tested_under-apply, ℕ, ◌<◌, ◌≡◌, refl, ap, ◌∙◌, Bool, true, false, not, ◌&&◌,
  Option, none, some, List, [], ◌∷◌, ◌++◌, map, arith, ◌==◌,
}
use lidar_dashboard.Prelude.Text.{Text, is_space, is_line_end, trim, trim_end, contains_code}
use lidar_dashboard.ControlBoard.Crc.{AllBytes}
use lidar_dashboard.ControlBoard.Packet.{
  hex_pair, to_hex_string, parse_byte_token, all_some, tokens, pairs, split_words, is_separator,
  text_bytes, normalize_packet, text, ok,
}

abbrev is_value : Option ℕ → ℕ → Bool
is_value none b = false
is_value (some a) b = a == b

-- Two digits that are no separators, and that are read as the byte.
abbrev is_good : Text → ℕ → Bool
is_good (c ∷ d ∷ []) b =
    not (is_separator c) && not (is_separator d) && is_value (parse_byte_token (c ∷ d ∷ [])) b
is_good _ b = false

pair_table : tested_under (λ b. is_good (hex_pair b) b) 256 ≡ true
unfolding tested_under hex_pair parse_byte_token is_separator
pair_table = refl

abbrev IsPair : Text → ℕ → Type 0
IsPair s b =
    (c d : ℕ) × (s ≡ c ∷ d ∷ [])
    × (is_separator c ≡ false)
    × (is_separator d ≡ false)
    × (parse_byte_token (c ∷ d ∷ []) ≡ some b)

IsPair-of_good : (s : Text) (b : ℕ) → is_good s b ≡ true → IsPair s b
IsPair-of_good [] b h = cc
IsPair-of_good (c ∷ []) b h = cc
IsPair-of_good (c ∷ d ∷ []) b h = (c, d, refl, ground arith, ground arith, ground arith)
IsPair-of_good (c ∷ d ∷ e ∷ s) b h = cc

hex_pair-IsPair : (b : ℕ) → b < 256 → IsPair (hex_pair b) b
hex_pair-IsPair b h =
    IsPair-of_good _ b (tested_under-apply (λ n. is_good (hex_pair n) n) 256 pair_table b h)

-- What `trim` leaves alone: a text that is not empty, with no white space at either end.
abbrev IsKept : Text → Type 0
IsKept s = (c : ℕ) × (r : Text) × (s ≡ c ∷ r) × (trim_end s ≡ s) × (is_space c ≡ false)

cons-IsKept : (c : ℕ) (s : Text) → is_space c ≡ false → IsKept s → IsKept (c ∷ s)
unfolding trim_end
cons-IsKept c s h (d, r, e, k, _) = let k' = rw e at k in (c, s, refl, rw (e, k'), h)

space-trim_end : (c : ℕ) (s : Text) → IsKept s → trim_end (c ∷ s) ≡ c ∷ s
unfolding trim_end
space-trim_end c s (d, r, e, k, _) = let k' = rw e at k in rw (e, k')

cons_space-IsKept : (c w : ℕ) (s : Text) → is_space c ≡ false → IsKept s → IsKept (c ∷ w ∷ s)
unfolding trim_end
cons_space-IsKept c w s h k = (c, w ∷ s, refl, rw (space-trim_end w s k), h)

not_space : (c : ℕ) → is_separator c ≡ false → is_space c ≡ false
unfolding is_separator
not_space c h = ground arith

single-IsKept : (c : ℕ) → is_space c ≡ false → IsKept (c ∷ [])
unfolding trim_end
single-IsKept c h = (c, [], refl, rw h, h)

pair-IsKept : {s : Text} {b : ℕ} → IsPair s b → IsKept s
pair-IsKept (c, d, e, hc, hd, _) =
    rw e (cons-IsKept c (d ∷ []) (not_space c hc) (single-IsKept d (not_space d hd)))

pair_more-IsKept : {s : Text} {b : ℕ} (r : Text) → IsPair s b → IsKept r → IsKept (s ++ b' ' ∷ r)
pair_more-IsKept r (c, d, e, hc, hd, _) k =
    rw e (cons-IsKept c _ (not_space c hc) (cons_space-IsKept d b' ' r (not_space d hd) k))

to_hex_string-IsKept : (b : ℕ) (bs : List ℕ) → AllBytes (b ∷ bs) → IsKept (to_hex_string (b ∷ bs))
unfolding to_hex_string
to_hex_string-IsKept b [] k = pair-IsKept (hex_pair-IsPair b k.0)
to_hex_string-IsKept b (n ∷ bs) k =
    pair_more-IsKept _ (hex_pair-IsPair b k.0) (to_hex_string-IsKept n bs k.1)

trim-kept : (s : Text) → IsKept s → trim s ≡ s
unfolding trim
trim-kept s (c, r, e, k, h) = let k' = rw e at k in rw (e, h, k')

pair_split :
    {s : Text} {b : ℕ} (r : Text)
    → IsPair s b
    → split_words [] (s ++ b' ' ∷ r) ≡ s ∷ split_words [] r
unfolding split_words
pair_split r (c, d, e, hc, hd, _) = rw (e, hc, hd)

pair_split_last : {s : Text} {b : ℕ} → IsPair s b → split_words [] s ≡ s ∷ []
unfolding split_words
pair_split_last (c, d, e, hc, hd, _) = rw (e, hc, hd)

split_words-to_hex_string :
    (b : ℕ) (bs : List ℕ)
    → AllBytes (b ∷ bs)
    → split_words [] (to_hex_string (b ∷ bs)) ≡ map hex_pair (b ∷ bs)
unfolding to_hex_string
split_words-to_hex_string b [] k = pair_split_last (hex_pair-IsPair b k.0)
split_words-to_hex_string b (n ∷ bs) k =
    pair_split (to_hex_string (n ∷ bs)) (hex_pair-IsPair b k.0)
    ∙ ap (◌∷◌ (hex_pair b)) (split_words-to_hex_string n bs k.1)

separator_free :
    (c : ℕ)
    → is_separator c ≡ false
    → ((c == 32) ≡ false) × ((c == 44) ≡ false) × (is_line_end c ≡ false)
unfolding is_separator is_space is_line_end
separator_free c h = (ground arith, ground arith, ground arith)

pair_tokens : {s : Text} {b : ℕ} → IsPair s b → tokens s ≡ s ∷ []
unfolding tokens contains_code pairs
pair_tokens (c, d, e, hc, hd, _) =
    let (c1, c2, c3) = separator_free c hc in
    let (d1, d2, d3) = separator_free d hd in rw (e, c1, d1, c2, d2, c3, d3)

more_tokens :
    {s : Text} {b : ℕ} (r : Text)
    → IsPair s b
    → tokens (s ++ b' ' ∷ r) ≡ split_words [] (s ++ b' ' ∷ r)
unfolding tokens contains_code
more_tokens r (c, d, e, hc, hd, _) =
    let (c1, _, _) = separator_free c hc in let (d1, _, _) = separator_free d hd in rw (e, c1, d1)

tokens-to_hex_string :
    (b : ℕ) (bs : List ℕ)
    → AllBytes (b ∷ bs)
    → tokens (to_hex_string (b ∷ bs)) ≡ map hex_pair (b ∷ bs)
unfolding to_hex_string
tokens-to_hex_string b [] k = pair_tokens (hex_pair-IsPair b k.0)
tokens-to_hex_string b (n ∷ bs) k =
    more_tokens (to_hex_string (n ∷ bs)) (hex_pair-IsPair b k.0)
    ∙ split_words-to_hex_string b (n ∷ bs) k

pair_value : {s : Text} {b : ℕ} → IsPair s b → parse_byte_token s ≡ some b
pair_value (c, d, e, _, _, v) = rw e v

parse_all :
    (bs : List ℕ) → AllBytes bs → all_some (map parse_byte_token (map hex_pair bs)) ≡ some bs
unfolding all_some
parse_all [] k = refl
parse_all (b ∷ bs) k = rw (pair_value (hex_pair-IsPair b k.0), all_some, parse_all bs k.1)

text_bytes-kept :
    (s : Text) (bs : List ℕ)
    → IsKept s
    → all_some (map parse_byte_token (tokens s)) ≡ some bs
    → text_bytes s ≡ ok bs
unfolding text_bytes
text_bytes-kept s bs (c, r, e, _, _) h = let h' = rw e at h in rw (e, h', text_bytes)

-- The HEX text of a packet, the bytes as pairs of digits with spaces between them, is read back
-- as the same bytes, for every packet that is not empty.
pub normalize_packet-to_hex_string :
    (b : ℕ) (bs : List ℕ)
    → AllBytes (b ∷ bs)
    → normalize_packet (text (to_hex_string (b ∷ bs))) ≡ ok (b ∷ bs)
unfolding normalize_packet
normalize_packet-to_hex_string b bs k =
    let kept = to_hex_string-IsKept b bs k in
    rw (trim-kept (to_hex_string (b ∷ bs)) kept)
      (text_bytes-kept _ (b ∷ bs) kept (rw (tokens-to_hex_string b bs k) (parse_all (b ∷ bs) k)))
