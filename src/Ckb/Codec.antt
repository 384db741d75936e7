-- ===== src/Ckb/Codec.antt =====
-- server/src/rails/ckb/escrow-codec.ts: the arguments of the escrow lock and the data of an escrow
-- cell, as hexadecimal texts. A digest or a hash is a text; the messages of the errors are left out.
pub mod Slices
pub mod LockArgs
pub mod CellData
use pactagent.Prelude.{
  ℕ, zero, suc, ◌+◌, ◌*◌, ◌/◌, ◌%◌, ◌^◌, Bool, true, false, ◌&&◌, ◌==◌, nat_eq, ltb, List, [], ◌∷◌,
  ◌++◌, map, length,
}
use pactagent.Errors.{Error, Result, ok, err, internal, require, reject_if, ◌>>=◌, ◌>>◌}
use pactagent.Store.Rows.{Text, text_eq, codes}
use pactagent.Ckb.Hex.{lower, all_hex, from_hex, to_hex}

abbrev pub take : ℕ → List ℕ → List ℕ
take zero xs = []
take (suc n) [] = []
take (suc n) (x ∷ xs) = x ∷ take n xs

abbrev pub drop : ℕ → List ℕ → List ℕ
drop zero xs = xs
drop (suc n) [] = []
drop (suc n) (x ∷ xs) = drop n xs

-- `slice(from, to)` and `subarray(from, to)`, by the length of what they give.
abbrev pub slice : ℕ → ℕ → List ℕ → List ℕ
slice from size xs = take size (drop from xs)

abbrev pub max_u32 : ℕ
max_u32 = 0xffff_ffff

abbrev pub max_u64 : ℕ
max_u64 = 0xffff_ffff_ffff_ffff

abbrev pub escrow_lock_args_bytes : ℕ
escrow_lock_args_bytes = 96

abbrev pub escrow_cell_data_bytes : ℕ
escrow_cell_data_bytes = 88

abbrev pub escrow_cell_data_version : ℕ
escrow_cell_data_version = 1

-- `ESCROW_MAGIC`
abbrev pub escrow_magic : List ℕ
escrow_magic = codes "PACTESC1"

abbrev pub hex_prefix : Text
hex_prefix = codes "0x"

abbrev pub malformed : Error
malformed = internal "malformed_hex"

abbrev pub hex_body : ℕ → Text → Result Text
hex_body bytes (zero' ∷ x ∷ digits) = do
  require (zero' == b'0' && x == b'x' && all_hex digits && length digits == 2 * bytes) malformed
  ok digits
hex_body bytes _ = err malformed

-- `fixedHex`: the digits, in lower case.
unfoldable pub fixed_hex : ℕ → Text → Result Text
fixed_hex bytes value = hex_body bytes (map lower value)

-- A `number` or a `bigint`.
pub data Integer : Type 0 where
  natural negative : ℕ → Integer
  unsafe : Integer

-- `unsignedInteger`
abbrev pub unsigned_integer : ℕ → Integer → Result ℕ
unsigned_integer maximum Integer.unsafe = err (internal "unsafe_integer")
unsigned_integer maximum (Integer.negative zero) = ok 0
unsigned_integer maximum (Integer.negative (suc n)) = err (internal "integer_out_of_range")
unsigned_integer maximum (Integer.natural n) = do
  reject_if (ltb maximum n) (internal "integer_out_of_range")
  ok n

pub record EscrowLockArgs : Type 0 where
  pub client_lock_hash : Text
  pub worker_lock_hash : Text
  pub agreement_salt : Text

unfoldable pub encode_escrow_lock_args : EscrowLockArgs → Result Text
unfolding fixed_hex
encode_escrow_lock_args args = do
  client ← fixed_hex 32 args.client_lock_hash
  worker ← fixed_hex 32 args.worker_lock_hash
  salt ← fixed_hex 32 args.agreement_salt
  ok (hex_prefix ++ (client ++ (worker ++ salt)))

unfoldable pub decode_escrow_lock_args : Text → Result EscrowLockArgs
unfolding fixed_hex
decode_escrow_lock_args encoded = do
  value ← fixed_hex escrow_lock_args_bytes encoded
  ok (record {
    client_lock_hash = hex_prefix ++ slice 0 64 value;
    worker_lock_hash = hex_prefix ++ slice 64 64 value;
    agreement_salt = hex_prefix ++ slice 128 64 value;
  })

pub record EscrowCellData : Type 0 where
  pub milestone_index : Integer
  pub refund_timeout_since : Integer
  pub agreement_digest : Text
  pub milestone_digest : Text

abbrev pub zeros : ℕ → List ℕ
zeros zero = []
zeros (suc n) = 0 ∷ zeros n

-- A write at an offset of a buffer: `copy`, and `writeUInt32LE` after `little_endian`.
abbrev pub write_at : ℕ → List ℕ → List ℕ → List ℕ
write_at offset bytes buffer = take offset buffer ++ (bytes ++ drop (offset + length bytes) buffer)

abbrev pub little_endian : ℕ → ℕ → List ℕ
little_endian zero n = []
little_endian (suc size) n = (n % 256) ∷ little_endian size (n / 256)

abbrev pub read_little_endian : List ℕ → ℕ
read_little_endian [] = 0
read_little_endian (b ∷ bs) = b + 256 * read_little_endian bs

-- The writes into the buffer, in the order of the source.
abbrev pub cell_bytes : ℕ → ℕ → List ℕ → List ℕ → List ℕ
cell_bytes index since agreement milestone = write_at 56 milestone (
    write_at 24 agreement (
      write_at 16 (little_endian 8 since) (
        write_at 12 (little_endian 4 index) (
          write_at 8 (escrow_cell_data_version ∷ [])
            (write_at 0 escrow_magic (zeros escrow_cell_data_bytes))))))

unfoldable pub encode_escrow_cell_data : EscrowCellData → Result Text
unfolding fixed_hex
encode_escrow_cell_data data' = do
  index ← unsigned_integer max_u32 data'.milestone_index
  since ← unsigned_integer max_u64 data'.refund_timeout_since
  agreement ← fixed_hex 32 data'.agreement_digest
  milestone ← fixed_hex 32 data'.milestone_digest
  ok (hex_prefix ++ to_hex (cell_bytes index since (from_hex agreement) (from_hex milestone)))

abbrev pub cell_data_of : List ℕ → EscrowCellData
cell_data_of bytes = record {
  milestone_index = Integer.natural (read_little_endian (slice 12 4 bytes));
  refund_timeout_since = Integer.natural (read_little_endian (slice 16 8 bytes));
  agreement_digest = hex_prefix ++ to_hex (slice 24 32 bytes);
  milestone_digest = hex_prefix ++ to_hex (slice 56 32 bytes);
}

abbrev pub read_cell : List ℕ → Result EscrowCellData
read_cell bytes = do
  require (slice 0 8 bytes == escrow_magic) (internal "invalid_magic")
  require (slice 8 1 bytes == escrow_cell_data_version ∷ []) (internal "unsupported_version")
  ok (cell_data_of bytes)

unfoldable pub decode_escrow_cell_data : Text → Result EscrowCellData
unfolding fixed_hex
decode_escrow_cell_data encoded = do
  value ← fixed_hex escrow_cell_data_bytes encoded
  read_cell (from_hex value)
