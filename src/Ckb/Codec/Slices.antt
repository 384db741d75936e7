-- ===== src/Ckb/Codec/Slices.antt =====
-- Slices of what was put together, and the checked texts.
use pactagent.Prelude.{
  ℕ, zero, suc, ◌+◌, ◌*◌, ◌/◌, ◌^◌, ◌<◌, ◌≡◌, refl, subst, true, List, [], ◌∷◌, ◌++◌, map, length,
  arith, nat_eq,
}
use pactagent.Errors.{ok}
use pactagent.Store.Rows.{Text}
use pactagent.Ckb.Hex.{lower, all_hex}
use pactagent.Ckb.Codec.{take, drop, fixed_hex, hex_prefix, little_endian, read_little_endian}

pub take-append : (xs ys : List ℕ) → take (length xs) (xs ++ ys) ≡ xs
take-append [] ys = refl
take-append (x ∷ xs) ys = rw (take-append xs ys) refl

pub drop-append : (xs ys : List ℕ) → drop (length xs) (xs ++ ys) ≡ ys
drop-append [] ys = refl
drop-append (x ∷ xs) ys = drop-append xs ys

pub take_all : (xs : List ℕ) → take (length xs) xs ≡ xs
take_all [] = refl
take_all (x ∷ xs) = rw (take_all xs) refl

pub length-append : (xs ys : List ℕ) → length (xs ++ ys) ≡ length xs + length ys
length-append [] ys = omega arith
length-append (x ∷ xs) ys = omega (arith, length-append xs ys)

pub all_hex-append :
    (xs ys : Text) → all_hex xs ≡ true → all_hex ys ≡ true → all_hex (xs ++ ys) ≡ true
all_hex-append [] ys h k = k
all_hex-append (x ∷ xs) ys h k = ground (arith, all_hex-append xs ys)

pub map-lower-append : (xs ys : Text) → map lower (xs ++ ys) ≡ map lower xs ++ map lower ys
map-lower-append [] ys = refl
map-lower-append (x ∷ xs) ys = rw (map-lower-append xs ys) refl

-- What the check of a hexadecimal text lets through.
pub record IsPlain (bytes : ℕ) (digits : Text) : Type 0 where
  pub hex : all_hex digits ≡ true
  pub lowered : map lower digits ≡ digits
  pub size : length digits ≡ 2 * bytes

lower_twice : (c : ℕ) → lower (lower c) ≡ lower c
lower_twice c = ground arith

pub lowered_twice : (cs : Text) → map lower (map lower cs) ≡ map lower cs
lowered_twice [] = refl
lowered_twice (c ∷ cs) = rw (lower_twice c, lowered_twice cs) refl

pub fixed_hex-IsPlain :
    (bytes : ℕ) (value : Text) {digits : Text}
    → fixed_hex bytes value ≡ ok digits
    → IsPlain bytes digits × (map lower value ≡ hex_prefix ++ digits)
unfolding fixed_hex
fixed_hex-IsPlain bytes [] h = absurd (cc)
fixed_hex-IsPlain bytes (a ∷ []) h = absurd (cc)
fixed_hex-IsPlain bytes (a ∷ x ∷ value) {digits} h =
    let facts : (lower a ≡ 48)
        × (lower x ≡ 120)
        × (all_hex (map lower value) ≡ true)
        × (length (map lower value) ≡ 2 * bytes)
        × (map lower value ≡ digits) =
      ground arith in
    let (zero', letter, hex, size, same) = facts in
    (
      subst (λ cs. IsPlain bytes cs) same
          (record { hex = hex; lowered = lowered_twice value; size = size }),
      rw (zero', letter, same) refl,
    )

pub fixed_hex-prefix :
    (bytes : ℕ) (digits : Text)
    → IsPlain bytes digits
    → fixed_hex bytes (hex_prefix ++ digits) ≡ ok digits
unfolding fixed_hex
fixed_hex-prefix bytes digits p = ground (arith, p.lowered, p.hex, p.size)

pub read-little_endian :
    (size n : ℕ) → n < 256 ^ size → read_little_endian (little_endian size n) ≡ n
read-little_endian zero n h = omega arith
read-little_endian (suc size) n h = omega (arith, read-little_endian size (n / 256) (omega arith))

pub IsPlain-append :
    (m n : ℕ) (xs ys : Text) → IsPlain m xs → IsPlain n ys → IsPlain (m + n) (xs ++ ys)
IsPlain-append m n xs ys p q = record {
  hex = all_hex-append xs ys p.hex q.hex;
  lowered = rw (map-lower-append, p.lowered, q.lowered) refl;
  size = omega (arith, length-append xs ys, p.size, q.size);
}

-- The part of a known length at the front, and what follows it.
pub take_front : {n : ℕ} (xs ys : List ℕ) → length xs ≡ n → take n (xs ++ ys) ≡ xs
take_front xs ys h = subst (λ n. take n (xs ++ ys) ≡ xs) h (take-append xs ys)

pub drop_front : {n : ℕ} (xs ys : List ℕ) → length xs ≡ n → drop n (xs ++ ys) ≡ ys
drop_front xs ys h = subst (λ n. drop n (xs ++ ys) ≡ ys) h (drop-append xs ys)

pub take_whole : {n : ℕ} (xs : List ℕ) → length xs ≡ n → take n xs ≡ xs
take_whole xs h = subst (λ n. take n xs ≡ xs) h (take_all xs)

drop_all : (xs : List ℕ) → drop (length xs) xs ≡ []
drop_all [] = refl
drop_all (x ∷ xs) = drop_all xs

pub drop_whole : {n : ℕ} (xs : List ℕ) → length xs ≡ n → drop n xs ≡ []
drop_whole xs h = subst (λ n. drop n xs ≡ []) h (drop_all xs)
