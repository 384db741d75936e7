-- ===== src/Ckb/Scripts.antt =====
-- server/src/rails/ckb/script-utils.ts: scripts as they come from the node, from the SDK or out of a
-- column, brought to one form and compared.
use pactagent.Prelude.{
  ℕ, ◌≡◌, refl, sym, ap, ◌↔◌, Bool, true, false, ◌&&◌, ◌||◌, ◌*◌, ◌==◌, nat_eq, Option, none, some,
  ◌∷◌, map, length, if◌then◌else◌, arith,
}
use pactagent.Store.Rows.{Text, text_eq, text_beq_iff, codes}
use pactagent.Ckb.Hex.{lower, all_hex}

-- A field of an unknown object: absent or null, a string, or anything else.
pub data Field : Type 0 where
  absent other : Field
  text : Text → Field

-- The fields that are looked at, in both spellings.
pub record RawScript : Type 0 where
  pub code_hash : Field
  pub code_hash_snake : Field
  pub hash_type : Field
  pub hash_type_snake : Field
  pub args : Field

pub record NormalizedCkbScript : Type 0 where
  pub code_hash : Text
  pub hash_type : Text
  pub args : Text

-- `a ?? b`
abbrev or_else : Field → Field → Field
or_else Field.absent b = b
or_else a b = a

abbrev has_bytes : Option ℕ → Text → Bool
has_bytes none digits = true
has_bytes (some bytes) digits = length digits == 2 * bytes

abbrev hex_or_null : Option ℕ → Text → Option Text
hex_or_null bytes (zero' ∷ x ∷ digits) =
    if zero' == b'0' && x == b'x' && all_hex digits && has_bytes bytes digits
    then some (zero' ∷ x ∷ digits)
    else none
hex_or_null bytes _ = none

-- `normalizeHex`
abbrev normalize_hex : Field → Option ℕ → Option Text
normalize_hex (Field.text value) bytes = hex_or_null bytes (map lower value)
normalize_hex _ bytes = none

abbrev is_hash_type : Text → Bool
is_hash_type value =
    value == codes "data"
    || value == codes "type"
    || value == codes "data1"
    || value == codes "data2"

abbrev hash_type_of : Field → Option Text
hash_type_of (Field.text value) =
    if is_hash_type (map lower value) then some (map lower value) else none
hash_type_of _ = none

abbrev joined : Option Text → Option Text → Option Text → Option NormalizedCkbScript
joined (some code_hash) (some args) (some hash_type) =
    some (record { code_hash = code_hash; hash_type = hash_type; args = args })
joined _ _ _ = none

-- `normalizeScript`; the argument is null when it is no object.
unfoldable pub normalize_script : Option RawScript → Option NormalizedCkbScript
normalize_script none = none
normalize_script (some raw) =
    joined (normalize_hex (or_else raw.code_hash raw.code_hash_snake) (some 32))
      (normalize_hex raw.args none) (hash_type_of (or_else raw.hash_type raw.hash_type_snake))

abbrev normalized_equal : Option NormalizedCkbScript → Option NormalizedCkbScript → Bool
normalized_equal (some left) (some right) =
    left.code_hash == right.code_hash
    && left.hash_type == right.hash_type
    && left.args == right.args
normalized_equal _ _ = false

-- `scriptsEqual`
unfoldable pub scripts_equal : Option RawScript → Option RawScript → Bool
unfolding normalize_script
scripts_equal left right = normalized_equal (normalize_script left) (normalize_script right)

same_script : (a b : NormalizedCkbScript) → (normalized_equal (some a) (some b) ≡ true) ↔ (a ≡ b)
same_script a b = (
  λ h.
      let code = (text_beq_iff a.code_hash b.code_hash).0 (ground arith) in
      let type = (text_beq_iff a.hash_type b.hash_type).0 (ground arith) in
      let args = (text_beq_iff a.args b.args).0 (ground arith) in cc (code, type, args),
  λ h.
      let code = (text_beq_iff a.code_hash b.code_hash).1 (cc h) in
      let type = (text_beq_iff a.hash_type b.hash_type).1 (cc h) in
      let args = (text_beq_iff a.args b.args).1 (cc h) in ground (arith, code, type, args),
)

equal_normal :
    (x y : Option NormalizedCkbScript)
    → (normalized_equal x y ≡ true)
      ↔ ((script : NormalizedCkbScript) × (x ≡ some script) × (y ≡ some script))
equal_normal none y = (λ h. absurd (cc), λ h. absurd (cc))
equal_normal (some a) none = (λ h. absurd (cc), λ h. absurd (cc))
equal_normal (some a) (some b) = (
  λ h. (a, refl, ap some (sym ((same_script a b).0 h))),
  λ h. (same_script a b).1 (cc (h.1, h.2)),
)

-- Two scripts count as equal exactly when both have a normal form and it is the same one.
pub scripts_equal_iff :
    (left right : Option RawScript)
    → (scripts_equal left right ≡ true) ↔ (
        (script : NormalizedCkbScript) × (normalize_script left ≡ some script)
        × (normalize_script right ≡ some script))
unfolding scripts_equal
scripts_equal_iff left right = equal_normal (normalize_script left) (normalize_script right)
