-- ===== src/ControlBoard/Crc.antt =====
-- `calculateCrc8Smbus` of dashboard/server/src/domains/external-ingest/protocol/
-- controlBoardProtocol.js: CRC-8 with polynomial 0x07, most significant bit first. `& 0xff` of a
-- natural number is the remainder by 256.
use lidar_dashboard.Prelude.{
  tested_under, tested_under-apply, ℕ, zero, suc, ◌+◌, ◌*◌, ◌/◌, ◌%◌, ◌<◌, bit_and, bit_xor, ◌≡◌,
  refl, sym, ap, ◌∙◌, Bool, true, ◌&&◌, List, [], ◌∷◌, ◌++◌, arith, ◌==◌, ==_iff, if◌then◌else◌,
}

-- One round of the inner loop.
unfoldable pub crc_bit : ℕ → ℕ
crc_bit crc = if bit_and crc 0x80 == 0 then crc * 2 % 256 else bit_xor (crc * 2) 0x07 % 256

unfoldable pub crc_rounds : ℕ → ℕ → ℕ
unfolding crc_bit
crc_rounds zero crc = crc
crc_rounds (suc rounds) crc = crc_rounds rounds (crc_bit crc)

unfoldable pub crc_byte : ℕ → ℕ → ℕ
unfolding crc_rounds
crc_byte crc byte = crc_rounds 8 (bit_xor crc byte)

unfoldable pub crc_from : ℕ → List ℕ → ℕ
unfolding crc_byte
crc_from crc [] = crc
crc_from crc (byte ∷ bytes) = crc_from (crc_byte crc byte) bytes

unfoldable pub calculate_crc : List ℕ → ℕ
unfolding crc_from
calculate_crc bytes = crc_from 0 bytes

-- Eight rounds backwards: the last bit says whether the polynomial was put in.
undo_bit : ℕ → ℕ
undo_bit crc = if crc % 2 == 0 then crc / 2 else bit_xor crc 0x07 / 2 + 128

undo_rounds : ℕ → ℕ → ℕ
unfolding undo_bit
undo_rounds zero crc = crc
undo_rounds (suc rounds) crc = undo_rounds rounds (undo_bit crc)

rounds_table : tested_under (λ x. undo_rounds 8 (crc_rounds 8 x) == x) 256 ≡ true
unfolding tested_under undo_rounds crc_rounds
rounds_table = refl

undo_rounds-crc_rounds : (x : ℕ) → x < 256 → undo_rounds 8 (crc_rounds 8 x) ≡ x
undo_rounds-crc_rounds x h = (==_iff _ x).0 (tested_under-apply _ 256 rounds_table x h)

range_table : tested_under (λ x. crc_rounds 8 x / 256 == 0) 256 ≡ true
unfolding tested_under crc_rounds
range_table = refl

crc_rounds-lt : (x : ℕ) → x < 256 → crc_rounds 8 x < 256
crc_rounds-lt x h = omega (arith, (==_iff _ 0).0 (tested_under-apply _ 256 range_table x h))

abbrev xor_cancels : ℕ → ℕ → Bool
xor_cancels x y =
    bit_xor (bit_xor x y) y == x && bit_xor (bit_xor x y) x == y && bit_xor x y / 256 == 0

xor_row : ℕ → Bool
unfolding tested_under
xor_row x = tested_under (xor_cancels x) 256

xor_table : tested_under xor_row 256 ≡ true
unfolding tested_under xor_row
xor_table = refl

xor_lem :
    (x y : ℕ)
    → x < 256
    → y < 256
    → (bit_xor (bit_xor x y) y ≡ x) × (bit_xor (bit_xor x y) x ≡ y) × (bit_xor x y < 256)
unfolding xor_row
xor_lem x y h k =
    let e : xor_cancels x y ≡ true =
      tested_under-apply (xor_cancels x) 256 (tested_under-apply xor_row 256 xor_table x h) y k in
    ground arith

abbrev pub AllBytes : List ℕ → Type 0
AllBytes [] = Unit {0}
AllBytes (b ∷ bs) = (b < 256) × AllBytes bs

pub crc_byte-lt : (c b : ℕ) → c < 256 → b < 256 → crc_byte c b < 256
unfolding crc_byte
crc_byte-lt c b h k = crc_rounds-lt (bit_xor c b) (xor_lem c b h k).2

-- Two registers that meet after eight rounds were the same.
crc_rounds_injective : (x y : ℕ) → x < 256 → y < 256 → crc_rounds 8 x ≡ crc_rounds 8 y → x ≡ y
crc_rounds_injective x y h k e =
    sym (undo_rounds-crc_rounds x h) ∙ (ap (undo_rounds 8) e ∙ undo_rounds-crc_rounds y k)

crc_byte_injective_register :
    (c d b : ℕ) → c < 256 → d < 256 → b < 256 → crc_byte c b ≡ crc_byte d b → c ≡ d
unfolding crc_byte
crc_byte_injective_register c d b hc hd hb e =
    let (c1, _, lc) = xor_lem c b hc hb in
    let (d1, _, ld) = xor_lem d b hd hb in
    sym c1 ∙ (ap (λ (t : ℕ). bit_xor t b) (crc_rounds_injective _ _ lc ld e) ∙ d1)

crc_byte_injective_byte :
    (c a b : ℕ) → c < 256 → a < 256 → b < 256 → crc_byte c a ≡ crc_byte c b → a ≡ b
unfolding crc_byte
crc_byte_injective_byte c a b hc ha hb e =
    let (_, a1, la) = xor_lem c a hc ha in
    let (_, b1, lb) = xor_lem c b hc hb in
    sym a1 ∙ (ap (λ (t : ℕ). bit_xor t c) (crc_rounds_injective _ _ la lb e) ∙ b1)

pub crc_from-lt : (c : ℕ) (bs : List ℕ) → c < 256 → AllBytes bs → crc_from c bs < 256
unfolding crc_from
crc_from-lt c [] h k = h
crc_from-lt c (b ∷ bs) h k = crc_from-lt (crc_byte c b) bs (crc_byte-lt c b h k.0) k.1

crc_from_injective :
    (c d : ℕ) (bs : List ℕ)
    → c < 256
    → d < 256
    → AllBytes bs
    → crc_from c bs ≡ crc_from d bs
    → c ≡ d
unfolding crc_from
crc_from_injective c d [] hc hd k e = e
crc_from_injective c d (b ∷ bs) hc hd k e = crc_byte_injective_register c d b hc hd k.0 (
    crc_from_injective (crc_byte c b) (crc_byte d b) bs (crc_byte-lt c b hc k.0)
      (crc_byte-lt d b hd k.0) k.1 e)

crc_from_one_byte :
    (c a b : ℕ) (xs ys : List ℕ)
    → c < 256
    → AllBytes xs
    → a < 256
    → b < 256
    → AllBytes ys
    → crc_from c (xs ++ a ∷ ys) ≡ crc_from c (xs ++ b ∷ ys)
    → a ≡ b
unfolding crc_from
crc_from_one_byte c a b [] ys hc hx ha hb hy e = crc_byte_injective_byte c a b hc ha hb (
    crc_from_injective (crc_byte c a) (crc_byte c b) ys (crc_byte-lt c a hc ha)
      (crc_byte-lt c b hc hb) hy e)
crc_from_one_byte c a b (x ∷ xs) ys hc hx ha hb hy e =
    crc_from_one_byte (crc_byte c x) a b xs ys (crc_byte-lt c x hc hx.0) hx.1 ha hb hy e

-- The CRC of a sequence of bytes is a byte.
pub calculate_crc-lt : (bs : List ℕ) → AllBytes bs → calculate_crc bs < 256
unfolding calculate_crc
calculate_crc-lt bs k = crc_from-lt 0 bs (omega arith) k

-- Two sequences of bytes that differ in one place, anywhere, have different CRCs: with equal
-- CRCs the two bytes at that place are equal.
pub calculate_crc_one_byte :
    (xs ys : List ℕ) (a b : ℕ)
    → AllBytes xs
    → AllBytes ys
    → a < 256
    → b < 256
    → calculate_crc (xs ++ a ∷ ys) ≡ calculate_crc (xs ++ b ∷ ys)
    → a ≡ b
unfolding calculate_crc
calculate_crc_one_byte xs ys a b hx hy ha hb e =
    crc_from_one_byte 0 a b xs ys (omega arith) hx ha hb hy e

-- The vector of the protocol's document: check value of CRC-8/SMBUS.
check_value :
    calculate_crc (0x31 ∷ 0x32 ∷ 0x33 ∷ 0x34 ∷ 0x35 ∷ 0x36 ∷ 0x37 ∷ 0x38 ∷ 0x39 ∷ []) ≡ 0xf4
unfolding calculate_crc
check_value = refl
