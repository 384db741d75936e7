-- ===== src/Ckb/Codec/CellData.antt =====
-- The data of an escrow cell, there and back.
use pactagent.Prelude.{
  ℕ, zero, suc, ◌≤◌, ◌≡◌, refl, sym, ap, ◌∙◌, ◌++◌, map, length, arith, List, [], ◌∷◌,
}
use mathlib.Core.List.{append-nil}
use pactagent.Errors.{ok, bound_ok, same_ok}
use pactagent.Store.Rows.{Text}
use pactagent.Ckb.Hex.{
  lower, from_hex, to_hex, AllBytes, from_hex-to_hex, to_hex_plain, to_hex-from_hex,
}
use pactagent.Ckb.Codec.{
  zeros, Integer, natural, negative, unsafe, EscrowCellData, hex_prefix, max_u32, max_u64,
  unsigned_integer, fixed_hex, little_endian, cell_bytes, read_cell, escrow_magic,
  encode_escrow_cell_data, decode_escrow_cell_data,
}
use pactagent.Ckb.Codec.Slices.{
  IsPlain, fixed_hex-IsPlain, fixed_hex-prefix, take_front, drop_front, take_whole, drop_whole,
  length-append, read-little_endian,
}

-- The first 24 bytes: the magic, the version, three bytes that are free, and the two integers.
abbrev head_bytes : ℕ → ℕ → List ℕ
head_bytes index since =
    escrow_magic ++ (1 ∷ 0 ∷ 0 ∷ 0 ∷ (little_endian 4 index ++ little_endian 8 since))

-- The writes into the buffer leave the parts in a row.
cell_bytes_lem :
    (index since : ℕ) (a m : List ℕ)
    → length a ≡ 32
    → length m ≡ 32
    → cell_bytes index since a m ≡ head_bytes index since ++ (a ++ m)
cell_bytes_lem index since a m la lm =
    rw
      (
        la,
        lm,
        take_front {n = 32} a (zeros 32) la,
        drop_whole {n = 64} (a ++ zeros 32) (omega (arith, length-append a (zeros 32), la)),
        append-nil m,
      )
      refl

-- What the reader sees in them.
read_parts :
    (index since : ℕ) (a m : List ℕ)
    → index ≤ max_u32
    → since ≤ max_u64
    → length a ≡ 32
    → length m ≡ 32
    → read_cell (head_bytes index since ++ (a ++ m))
      ≡ ok (record {
        milestone_index = natural index;
        refund_timeout_since = natural since;
        agreement_digest = hex_prefix ++ to_hex a;
        milestone_digest = hex_prefix ++ to_hex m;
      })
read_parts index since a m hi hs la lm =
    rw
      (
        take_front {n = 32} a m la,
        drop_front {n = 32} a m la,
        take_whole {n = 32} m lm,
        read-little_endian 4 index (omega arith),
        read-little_endian 8 since (omega arith),
      )
      refl

-- A text of plain bytes is read as those bytes.
decode_bytes :
    (bytes : List ℕ)
    → AllBytes bytes
    → length bytes ≡ 88
    → decode_escrow_cell_data (hex_prefix ++ to_hex bytes) ≡ read_cell bytes
unfolding decode_escrow_cell_data
decode_bytes bytes all size =
    let (hex, lowered, digits) = to_hex_plain bytes all in
    let plain : IsPlain 88 (to_hex bytes) = record {
      hex = hex;
      lowered = lowered;
      size = omega (arith, digits, size);
    } in
    rw (fixed_hex-prefix 88 (to_hex bytes) plain, from_hex-to_hex bytes all) refl

head-AllBytes : (index since : ℕ) → AllBytes (head_bytes index since)
head-AllBytes index since = omega arith

AllBytes-append : (xs ys : List ℕ) → AllBytes xs → AllBytes ys → AllBytes (xs ++ ys)
AllBytes-append [] ys h k = k
AllBytes-append (x ∷ xs) ys h k = (h.0, AllBytes-append xs ys h.1 k)

-- An integer that the encoder takes, as the decoder gives it back.
abbrev pub natural_of : Integer → Integer
natural_of (natural n) = natural n
natural_of (negative n) = natural 0
natural_of unsafe = unsafe

taken_integer :
    (maximum : ℕ) (value : Integer) {n : ℕ}
    → unsigned_integer maximum value ≡ ok n
    → (n ≤ maximum) × (natural_of value ≡ natural n)
taken_integer maximum (natural v) {n} h =
    let same : v ≡ n = ground arith in (ground arith, ap natural same)
taken_integer maximum (negative zero) h = (ground arith, ap natural (same_ok h))
taken_integer maximum (negative (suc v)) h = absurd (cc)
taken_integer maximum unsafe h = absurd (cc)

abbrev pub lower_data : EscrowCellData → EscrowCellData
lower_data data' = record {
  milestone_index = natural_of data'.milestone_index;
  refund_timeout_since = natural_of data'.refund_timeout_since;
  agreement_digest = map lower data'.agreement_digest;
  milestone_digest = map lower data'.milestone_digest;
}

-- What the encoder has put together.
record Parts (data' : EscrowCellData) (encoded : Text) : Type 0 where
  index : ℕ
  since : ℕ
  agreement : Text
  milestone : Text
  has_index : unsigned_integer max_u32 data'.milestone_index ≡ ok index
  has_since : unsigned_integer max_u64 data'.refund_timeout_since ≡ ok since
  has_agreement : fixed_hex 32 data'.agreement_digest ≡ ok agreement
  has_milestone : fixed_hex 32 data'.milestone_digest ≡ ok milestone
  joined :
      hex_prefix ++ to_hex (cell_bytes index since (from_hex agreement) (from_hex milestone))
      ≡ encoded

encoded-Parts :
    (data' : EscrowCellData) {encoded : Text}
    → encode_escrow_cell_data data' ≡ ok encoded
    → Parts data' encoded
unfolding encode_escrow_cell_data
encoded-Parts data' h =
    let (index, hi, h₁) = bound_ok (unsigned_integer max_u32 data'.milestone_index) _ h in
    let (since, hs, h₂) = bound_ok (unsigned_integer max_u64 data'.refund_timeout_since) _ h₁ in
    let (agreement, ha, h₃) = bound_ok (fixed_hex 32 data'.agreement_digest) _ h₂ in
    let (milestone, hm, h₄) = bound_ok (fixed_hex 32 data'.milestone_digest) _ h₃ in
    record {
      index = index;
      since = since;
      agreement = agreement;
      milestone = milestone;
      has_index = hi;
      has_since = hs;
      has_agreement = ha;
      has_milestone = hm;
      joined = same_ok h₄;
    }

-- The decoder on what the writes leave.
decode_cell :
    (index since : ℕ) (a m : Text)
    → index ≤ max_u32
    → since ≤ max_u64
    → IsPlain 32 a
    → IsPlain 32 m
    → decode_escrow_cell_data
        (hex_prefix ++ to_hex (cell_bytes index since (from_hex a) (from_hex m)))
      ≡ ok (record {
        milestone_index = natural index;
        refund_timeout_since = natural since;
        agreement_digest = hex_prefix ++ a;
        milestone_digest = hex_prefix ++ m;
      })
decode_cell index since a m hi hs p q =
    let (sa, ba, la) = to_hex-from_hex 32 a p.hex p.size in
    let (sm, bm, lm) = to_hex-from_hex 32 m q.hex q.size in
    let bytes = from_hex a ++ from_hex m in
    rw (cell_bytes_lem index since (from_hex a) (from_hex m) la lm) (
      decode_bytes (head_bytes index since ++ bytes)
        (AllBytes-append (head_bytes index since) bytes (head-AllBytes index since)
          (AllBytes-append (from_hex a) (from_hex m) ba bm))
        (omega (arith, length-append (from_hex a) (from_hex m), la, lm))
      ∙ read_parts index since (from_hex a) (from_hex m) hi hs la lm
      ∙ rw (sa, sm) refl)

decode-Parts :
    (data' : EscrowCellData) (encoded : Text)
    → Parts data' encoded
    → decode_escrow_cell_data encoded ≡ ok (lower_data data')
decode-Parts data' encoded p =
    let (hi, index) = taken_integer max_u32 data'.milestone_index p.has_index in
    let (hs, since) = taken_integer max_u64 data'.refund_timeout_since p.has_since in
    let (a, ea) = fixed_hex-IsPlain 32 data'.agreement_digest p.has_agreement in
    let (m, em) = fixed_hex-IsPlain 32 data'.milestone_digest p.has_milestone in
    ap decode_escrow_cell_data (sym p.joined)
    ∙ decode_cell p.index p.since p.agreement p.milestone hi hs a m
    ∙ rw (index, since, ea, em) refl

-- What the encoder of an escrow cell gives, the decoder reads back: the same index and the same
-- timeout, and the two digests in lower case.
pub decode-encode_escrow_cell_data :
    (data' : EscrowCellData) {encoded : Text}
    → encode_escrow_cell_data data' ≡ ok encoded
    → decode_escrow_cell_data encoded ≡ ok (lower_data data')
decode-encode_escrow_cell_data data' {encoded} h =
    decode-Parts data' encoded (encoded-Parts data' h)
