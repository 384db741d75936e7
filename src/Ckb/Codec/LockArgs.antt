-- ===== src/Ckb/Codec/LockArgs.antt =====
-- The arguments of the lock, there and back.
use pactagent.Prelude.{◌≡◌, refl, sym, ap, subst, ◌∙◌, ◌++◌, map, arith}
use pactagent.Errors.{Result, ok}
use pactagent.Store.Rows.{Text}
use pactagent.Ckb.Hex.{lower}
use pactagent.Ckb.Codec.{
  EscrowLockArgs, hex_prefix, take, slice, fixed_hex, encode_escrow_lock_args,
  decode_escrow_lock_args,
}
use pactagent.Ckb.Codec.Slices.{
  IsPlain, fixed_hex-IsPlain, fixed_hex-prefix, IsPlain-append, take_front, drop_front, take_whole,
  length-append,
}
use pactagent.Errors.{bound_ok, same_ok}
use mathlib.Core.List.{append_assoc}

-- The texts in lower case, which stand for the same bytes.
abbrev pub lower_args : EscrowLockArgs → EscrowLockArgs
lower_args args = record {
  client_lock_hash = map lower args.client_lock_hash;
  worker_lock_hash = map lower args.worker_lock_hash;
  agreement_salt = map lower args.agreement_salt;
}

-- What the encoder has put together.
record Parts (args : EscrowLockArgs) (encoded : Text) : Type 0 where
  client : Text
  worker : Text
  salt : Text
  has_client : fixed_hex 32 args.client_lock_hash ≡ ok client
  has_worker : fixed_hex 32 args.worker_lock_hash ≡ ok worker
  has_salt : fixed_hex 32 args.agreement_salt ≡ ok salt
  joined : ◌≡◌ {A = Result Text} (ok (hex_prefix ++ (client ++ (worker ++ salt)))) (ok encoded)

encoded-Parts :
    (args : EscrowLockArgs) {encoded : Text}
    → encode_escrow_lock_args args ≡ ok encoded
    → Parts args encoded
unfolding encode_escrow_lock_args
encoded-Parts args h =
    let (client, hc, h₁) = bound_ok (fixed_hex 32 args.client_lock_hash) _ h in
    let (worker, hw, h₂) = bound_ok (fixed_hex 32 args.worker_lock_hash) _ h₁ in
    let (salt, hs, h₃) = bound_ok (fixed_hex 32 args.agreement_salt) _ h₂ in
    record {
      client = client;
      worker = worker;
      salt = salt;
      has_client = hc;
      has_worker = hw;
      has_salt = hs;
      joined = h₃;
    }

-- The decoder on three plain texts of 32 bytes each.
decode_joined :
    (a b c : Text)
    → IsPlain 32 a
    → IsPlain 32 b
    → IsPlain 32 c
    → decode_escrow_lock_args (hex_prefix ++ (a ++ (b ++ c)))
      ≡ ok (record {
        client_lock_hash = hex_prefix ++ a;
        worker_lock_hash = hex_prefix ++ b;
        agreement_salt = hex_prefix ++ c;
      })
unfolding decode_escrow_lock_args
decode_joined a b c p q r =
    let first = take_front {n = 64} a (b ++ c) p.size in
    let second : slice 64 64 (a ++ (b ++ c)) ≡ b =
      ap (take 64) (drop_front {n = 64} a (b ++ c) p.size) ∙ take_front {n = 64} b c q.size in
    let third : slice 128 64 (a ++ (b ++ c)) ≡ c =
      ap (λ xs. slice 128 64 xs) (sym (append_assoc a b c))
      ∙ ap (take 64)
          (drop_front {n = 128} (a ++ b) c (omega (arith, length-append a b, p.size, q.size)))
      ∙ take_whole {n = 64} c r.size in
    rw
      (
        fixed_hex-prefix 96 (a ++ (b ++ c))
            (IsPlain-append 32 64 a (b ++ c) p (IsPlain-append 32 32 b c q r)),
        first,
        second,
        third,
      )
      refl

decode-Parts :
    (args : EscrowLockArgs) (encoded : Text)
    → Parts args encoded
    → decode_escrow_lock_args encoded ≡ ok (lower_args args)
decode-Parts args encoded p =
    let (c, ec) = fixed_hex-IsPlain 32 args.client_lock_hash p.has_client in
    let (w, ew) = fixed_hex-IsPlain 32 args.worker_lock_hash p.has_worker in
    let (s, es) = fixed_hex-IsPlain 32 args.agreement_salt p.has_salt in
    rw (ec, ew, es)
      (subst
        (λ text.
          decode_escrow_lock_args text
          ≡ ok (record {
            client_lock_hash = hex_prefix ++ p.client;
            worker_lock_hash = hex_prefix ++ p.worker;
            agreement_salt = hex_prefix ++ p.salt;
          }))
        (same_ok p.joined) (decode_joined p.client p.worker p.salt c w s))

-- What the encoder of the lock's arguments gives, the decoder reads back: the same three hashes, in
-- lower case.
pub decode-encode_escrow_lock_args :
    (args : EscrowLockArgs) {encoded : Text}
    → encode_escrow_lock_args args ≡ ok encoded
    → decode_escrow_lock_args encoded ≡ ok (lower_args args)
decode-encode_escrow_lock_args args {encoded} h = decode-Parts args encoded (encoded-Parts args h)
