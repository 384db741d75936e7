-- ===== src/Tests/Rails.antt =====
-- A cell, the arguments of a lock, two scripts and a redirect.
use pactagent.Prelude.{
  ◌≡◌, ◌≤◌, ◌↔◌, refl, ap, sym, ◌∙◌, Bool, true, false, Option, none, some, [], ◌∷◌, ◌++◌, All,
  ◌==◌, nat_eq, if◌then◌else◌, length,
}
use pactagent.Errors.{ok}
use pactagent.Store.Rows.{Text, text_eq, codes}
use pactagent.Ckb.Hex.{from_hex, to_hex}
use pactagent.Ckb.Codec.{
  Integer, EscrowCellData, EscrowLockArgs, fixed_hex, encode_escrow_cell_data,
  decode_escrow_cell_data, encode_escrow_lock_args, decode_escrow_lock_args,
}
use pactagent.Ckb.Codec.CellData.{lower_data, decode-encode_escrow_cell_data}
use pactagent.Ckb.Codec.LockArgs.{lower_args, decode-encode_escrow_lock_args}
use pactagent.Ckb.Scripts.{
  Field, RawScript, NormalizedCkbScript, normalize_script, scripts_equal, scripts_equal_iff,
}
use pactagent.Webhooks.Addresses.{
  IpVersion, is_blocked_hostname, is_blocked_ip_address, is_blocked_ipv4_address, parse_ipv4,
}
use pactagent.Webhooks.Fetch.{
  Url, Network, Environment, Sent, fetch_webhook_url, fetch_rounds, resolve_allowed_target,
  assert_webhook_url_shape_allowed,
}
use pactagent.Webhooks.Fetch.Bounds.{fetch_webhook_url-bound}
use pactagent.Webhooks.Fetch.Targets.{IsStable, IsAllowed, requests-IsAllowed}

abbrev first_digest : Text
first_digest = codes "0xABABABABABABABABABABABABABABABABABABABABABABABABABABABABABABABAB"

abbrev second_digest : Text
second_digest = codes "0xcdcdcdcdcdcdcdcdcdcdcdcdcdcdcdcdcdcdcdcdcdcdcdcdcdcdcdcdcdcdcdcd"

abbrev cell : EscrowCellData
cell = record {
  milestone_index = Integer.natural 3;
  refund_timeout_since = Integer.natural 0x2000_0000_0000_0bb8;
  agreement_digest = first_digest;
  milestone_digest = second_digest;
}

abbrev cell_text : Text
cell_text =
    codes "0x50414354455343310100000003000000b80b000000000020ababababab"
    ++ (codes "abababababababababababababababababababababababababababcdcdcd"
        ++ (codes "cdcdcdcdcdcdcdcdcdcdcdcdcdcdcdcdcdcdcdcdcdcdcdcdcdcdcdcdcd"))

cell_encoded : encode_escrow_cell_data cell ≡ ok cell_text
unfolding encode_escrow_cell_data fixed_hex from_hex to_hex
cell_encoded = refl

decode-encode_escrow_cell_data_example : decode_escrow_cell_data cell_text ≡ ok (lower_data cell)
decode-encode_escrow_cell_data_example = decode-encode_escrow_cell_data cell cell_encoded

abbrev lock_args : EscrowLockArgs
lock_args = record {
  client_lock_hash = first_digest;
  worker_lock_hash = second_digest;
  agreement_salt = codes "0x0f0f0f0f0f0f0f0f0f0f0f0f0f0f0f0f0f0f0f0f0f0f0f0f0f0f0f0f0f0f0f0f";
}

abbrev lock_text : Text
lock_text =
    codes "0xababababababababababababababababababababababababababababab"
    ++ (codes "abababcdcdcdcdcdcdcdcdcdcdcdcdcdcdcdcdcdcdcdcdcdcdcdcdcdcdcd"
        ++ (codes "cdcdcdcdcd0f0f0f0f0f0f0f0f0f0f0f0f0f0f0f0f0f0f0f0f0f0f0f0f0f"
            ++ (codes "0f0f0f0f0f0f0f")))

lock_encoded : encode_escrow_lock_args lock_args ≡ ok lock_text
unfolding encode_escrow_lock_args fixed_hex
lock_encoded = refl

decode-encode_escrow_lock_args_example :
    decode_escrow_lock_args lock_text ≡ ok (lower_args lock_args)
decode-encode_escrow_lock_args_example = decode-encode_escrow_lock_args lock_args lock_encoded

abbrev script_of : Field → RawScript
script_of hash_type = record {
  code_hash = Field.text first_digest;
  code_hash_snake = Field.absent;
  hash_type = Field.absent;
  hash_type_snake = hash_type;
  args = Field.text (codes "0xF0");
}

scripts_equal_iff_example :
    (scripts_equal
        (some (script_of (Field.text (codes "TYPE"))))
        (some (script_of (Field.text (codes "type"))))
      ≡ true)
    ↔ ((script : NormalizedCkbScript) × (normalize_script
            (some (script_of (Field.text (codes "TYPE"))))
          ≡ some script)
        × (normalize_script (some (script_of (Field.text (codes "type")))) ≡ some script))
scripts_equal_iff_example =
    scripts_equal_iff (some (script_of (Field.text (codes "TYPE"))))
      (some (script_of (Field.text (codes "type"))))

abbrev url_of : Text → Text → Url
url_of href hostname = record {
  href = href;
  protocol = codes "https:";
  username = [];
  password = [];
  hostname = hostname;
}

abbrev pub old_url : Url
old_url = url_of (codes "https://a.example/") (codes "a.example")

abbrev new_url : Url
new_url = url_of (codes "https://b.example/") (codes "b.example")

-- The first host answers with a redirect to the second.
abbrev parse_two : Text → Option Url
parse_two text =
    if text == codes "https://a.example/"
    then some old_url
    else if text == codes "https://b.example/"
    then some new_url
    else none

abbrev pub two_hosts : Network
two_hosts = record {
  runtime = record { is_ip = λ text. IpVersion.neither; octet = λ text. none };
  parse_url = parse_two;
  resolve_url = λ location base. some new_url;
  lookup_all = λ name. ok (codes "203.0.113.7" ∷ []);
  send = λ url address. ok (
      if url.hostname == codes "a.example"
      then record { status = 302; location = some (codes "https://b.example/") }
      else record { status = 200; location = none });
}

same_url : {a b : Url} → ◌≡◌ {A = Option Url} (some a) (some b) → a ≡ b
same_url h = cc

parse_one :
    (b c : Bool) (url : Url)
    → (if b then some old_url else if c then some new_url else none) ≡ some url
    → parse_two url.href ≡ some url
parse_one true c url h = ap (λ (u : Url). parse_two u.href) (sym (same_url h)) ∙ h
parse_one false true url h = ap (λ (u : Url). parse_two u.href) (sym (same_url h)) ∙ h
parse_one false false url h = absurd (cc)

pub two_hosts-IsStable : IsStable two_hosts
two_hosts-IsStable text url h =
    parse_one (text == codes "https://a.example/") (text == codes "https://b.example/") url h

fetch_webhook_url-bound_example :
    length (fetch_webhook_url two_hosts (codes "https://a.example/") Environment.production 3).1 ≤ 4
fetch_webhook_url-bound_example =
    fetch_webhook_url-bound two_hosts (codes "https://a.example/") Environment.production 3

requests-IsAllowed_example :
    All
      (λ (s : Sent). IsAllowed two_hosts Environment.production s)
      (fetch_webhook_url two_hosts (codes "https://a.example/") Environment.production 3).1
requests-IsAllowed_example =
    requests-IsAllowed two_hosts (codes "https://a.example/") Environment.production 3
      two_hosts-IsStable

-- The redirect is followed: two requests go out.
two_requests :
    length (fetch_webhook_url two_hosts (codes "https://a.example/") Environment.production 3).1 ≡ 2
unfolding fetch_webhook_url fetch_rounds resolve_allowed_target assert_webhook_url_shape_allowed
    is_blocked_hostname is_blocked_ip_address is_blocked_ipv4_address parse_ipv4
two_requests = refl
