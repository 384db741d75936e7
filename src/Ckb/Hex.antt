-- ===== src/Ckb/Hex.antt =====
-- Hexadecimal texts and the bytes that they stand for: `toLowerCase`, `Buffer.from(text, 'hex')` and
-- `toString('hex')`, as server/src/rails/ckb/escrow-codec.ts uses them. `lower` is right on ASCII;
-- no other character has a lower case that a hexadecimal text may hold.
use pactagent.Prelude.{
  ℕ, zero, suc, ◌+◌, ◌*◌, ◌-◌, ◌/◌, ◌%◌, ◌<◌, ◌≡◌, refl, Bool, true, ◌&&◌, ◌||◌, nat_eq, ltb, leb,
  List, [], ◌∷◌, map, length, All, arith, if◌then◌else◌,
}
use pactagent.Store.Rows.{Text}

abbrev pub lower : ℕ → ℕ
lower c = if leb b'A' c && leb c b'Z' then c + 32 else c

abbrev pub is_hex_digit : ℕ → Bool
is_hex_digit c = leb b'0' c && leb c b'9' || leb b'a' c && leb c b'f'

abbrev pub all_hex : Text → Bool
all_hex [] = true
all_hex (c ∷ cs) = is_hex_digit c && all_hex cs

abbrev hex_value : ℕ → ℕ
hex_value c = if leb c b'9' then c - 48 else c - 87

abbrev hex_digit : ℕ → ℕ
hex_digit n = if ltb n 10 then n + 48 else n + 87

-- Two digits to a byte; a digit that is left over is dropped.
unfoldable pub from_hex : Text → List ℕ
from_hex (a ∷ b ∷ cs) = (hex_value a * 16 + hex_value b) ∷ from_hex cs
from_hex _ = []

unfoldable pub to_hex : List ℕ → Text
to_hex [] = []
to_hex (b ∷ bs) = hex_digit (b / 16) ∷ hex_digit (b % 16) ∷ to_hex bs

abbrev pub AllBytes : List ℕ → Type 0
AllBytes bs = All (λ (b : ℕ). b < 256) bs

digit_value : (n : ℕ) → n < 16 → hex_value (hex_digit n) ≡ n
digit_value n h = ground arith

pub from_hex-to_hex : (bs : List ℕ) → AllBytes bs → from_hex (to_hex bs) ≡ bs
unfolding from_hex to_hex
from_hex-to_hex [] h = refl
from_hex-to_hex (b ∷ bs) h = ground (
  arith,
  digit_value (b / 16) (omega (arith, h.0)),
  digit_value (b % 16) (omega arith),
  from_hex-to_hex bs h.1,
)

digit_plain :
    (n : ℕ) → n < 16 → (is_hex_digit (hex_digit n) ≡ true) × (lower (hex_digit n) ≡ hex_digit n)
digit_plain n h = (ground arith, ground arith)

-- What is written is plain: two digits to a byte, in lower case.
pub to_hex_plain :
    (bs : List ℕ)
    → AllBytes bs
    → (all_hex (to_hex bs) ≡ true)
      × (map lower (to_hex bs) ≡ to_hex bs)
      × (length (to_hex bs) ≡ 2 * length bs)
unfolding to_hex
to_hex_plain [] h = (refl, refl, refl)
to_hex_plain (b ∷ bs) h =
    let (x, y, z) = to_hex_plain bs h.1 in
    let hi = digit_plain (b / 16) (omega (arith, h.0)) in
    let lo = digit_plain (b % 16) (omega arith) in
    (ground (arith, hi, lo, x), rw (hi.1, lo.1, y) refl, omega (arith, z))

value_digit : (c : ℕ) → is_hex_digit c ≡ true → (hex_digit (hex_value c) ≡ c) × (hex_value c < 16)
value_digit c h = ground arith

-- And a text of digit pairs is what its bytes are written as.
pub to_hex-from_hex :
    (n : ℕ) (cs : Text)
    → all_hex cs ≡ true
    → length cs ≡ 2 * n
    → (to_hex (from_hex cs) ≡ cs) × AllBytes (from_hex cs) × (length (from_hex cs) ≡ n)
unfolding from_hex to_hex
to_hex-from_hex zero [] h l = (refl, tt, refl)
to_hex-from_hex (suc n) [] h l = absurd (omega arith)
to_hex-from_hex n (a ∷ []) h l = absurd (omega arith)
to_hex-from_hex zero (a ∷ b ∷ cs) h l = absurd (omega arith)
to_hex-from_hex (suc n) (a ∷ b ∷ cs) h l =
    let x = value_digit a (ground arith) in
    let y = value_digit b (ground arith) in
    let (same, bytes, size) = to_hex-from_hex n cs (ground arith) (omega (arith, l)) in
    let high : (hex_value a * 16 + hex_value b) / 16 ≡ hex_value a = omega (arith, x.1, y.1) in
    let low : (hex_value a * 16 + hex_value b) % 16 ≡ hex_value b = omega (arith, x.1, y.1) in
    (rw (high, low, x.0, y.0, same) refl, (omega (arith, x.1, y.1), bytes), omega (arith, size))
