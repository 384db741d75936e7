-- ===== src/Webhooks/Addresses.antt =====
-- server/src/modules/webhooks/webhook.security.ts: which addresses and host names a webhook may not
-- go to. `net.isIP` is a parameter, and so is `Number` on a text.
use pactagent.Prelude.{
  ℕ, Bool, true, false, ◌&&◌, ◌||◌, ◌==◌, nat_eq, leb, Option, none, some, List, [], ◌∷◌, map,
  if◌then◌else◌, is_some,
}
use pactagent.Store.Rows.{Text, text_eq, codes}
use pactagent.Ckb.Hex.{lower}
use pactagent.Api.Keys.{after_prefix}

-- What `net.isIP` answers: 4, 6, or 0 for neither.
pub data IpVersion : Type 0 where
  v4 v6 neither : IpVersion

-- What this code calls of the runtime: `net.isIP`, and `Number` where the result is an integer from
-- 0 to 255 (`none` for anything else).
pub record Runtime : Type 0 where
  pub is_ip : Text → IpVersion
  pub octet : Text → Option ℕ

abbrev pub starts_with : Text → Text → Bool
starts_with prefix text = is_some (after_prefix prefix text)

abbrev reversed_onto : Text → Text → Text
reversed_onto done [] = done
reversed_onto done (c ∷ cs) = reversed_onto (c ∷ done) cs

abbrev reverse : Text → Text
reverse text = reversed_onto [] text

abbrev pub ends_with : Text → Text → Bool
ends_with suffix text = starts_with (reverse suffix) (reverse text)

-- `split('.')`
abbrev split_onto : Text → Text → List Text
split_onto part [] = reverse part ∷ []
split_onto part (c ∷ cs) =
    let next = split_onto [] cs in
    let longer = split_onto (c ∷ part) cs in if c == b'.' then reverse part ∷ next else longer

abbrev split_dots : Text → List Text
split_dots text = split_onto [] text

-- `replace(/^\[|\]$/g, '')`: a bracket at either end.
abbrev without_first : ℕ → Text → Text
without_first bracket [] = []
without_first bracket (c ∷ cs) = if c == bracket then cs else c ∷ cs

abbrev pub without_last : ℕ → Text → Text
without_last c text = reverse (without_first c (reverse text))

abbrev pub without_brackets : Text → Text
without_brackets text = without_last b']' (without_first b'[' text)

-- `toLowerCase` on ASCII, which the names and addresses of a parsed URL consist of.
abbrev pub lowered : Text → Text
lowered text = map lower text

abbrev is_one_of : List Text → Text → Bool
is_one_of [] text = false
is_one_of (x ∷ xs) text = text == x || is_one_of xs text

abbrev starts_with_any : List Text → Text → Bool
starts_with_any [] text = false
starts_with_any (x ∷ xs) text = starts_with x text || starts_with_any xs text

pub record Ipv4 : Type 0 where
  pub first : ℕ
  pub second : ℕ
  pub third : ℕ
  pub fourth : ℕ

module _ (runtime : Runtime) where
  abbrev octets : Option ℕ → Option ℕ → Option ℕ → Option ℕ → Option Ipv4
  octets (some a) (some b) (some c) (some d) =
      some (record { first = a; second = b; third = c; fourth = d })
  octets _ _ _ _ = none

  abbrev four_parts : List Text → Option Ipv4
  four_parts (a ∷ b ∷ c ∷ d ∷ []) =
      octets (runtime.octet a) (runtime.octet b) (runtime.octet c) (runtime.octet d)
  four_parts _ = none

  -- `parseIpv4`
  unfoldable pub parse_ipv4 : Text → Option Ipv4
  parse_ipv4 hostname = four_parts (split_dots hostname)

  abbrev pub is_blocked_range : Ipv4 → Bool
  is_blocked_range ip =
      ip.first == 0
      || ip.first == 10
      || ip.first == 127
      || (ip.first == 100 && leb 64 ip.second && leb ip.second 127)
      || (ip.first == 169 && ip.second == 254)
      || (ip.first == 172 && leb 16 ip.second && leb ip.second 31)
      || (ip.first == 192 && ip.second == 168)
      || (ip.first == 198 && (ip.second == 18 || ip.second == 19))
      || leb 224 ip.first

  abbrev blocked_when_parsed : Option Ipv4 → Bool
  blocked_when_parsed none = false
  blocked_when_parsed (some ip) = is_blocked_range ip

  -- `isBlockedIpv4Address`
  unfoldable pub is_blocked_ipv4_address : Text → Bool
  is_blocked_ipv4_address address = blocked_when_parsed (parse_ipv4 address)

  -- `normalizeIpv6`
  abbrev pub normalize_ipv6 : Text → Text
  normalize_ipv6 address = without_brackets (lowered address)

  abbrev blocked_prefixes : List Text
  blocked_prefixes =
      codes "fc"
      ∷ codes "fd"
      ∷ codes "fe80"
      ∷ codes "ff"
      ∷ codes "::ffff:0:"
      ∷ codes "::ffff:10."
      ∷ codes "::ffff:127."
      ∷ codes "::ffff:169.254."
      ∷ codes "::ffff:192.168."
      ∷ []

  abbrev blocked_ipv6 : Text → Bool
  blocked_ipv6 normalized =
      normalized == codes "::"
      || normalized == codes "::1"
      || starts_with_any blocked_prefixes normalized

  -- `isBlockedIpv6Address`
  unfoldable pub is_blocked_ipv6_address : Text → Bool
  is_blocked_ipv6_address address = blocked_ipv6 (normalize_ipv6 address)

  abbrev all_digits : Text → Bool
  all_digits [] = true
  all_digits (c ∷ cs) = leb b'0' c && leb c b'9' && all_digits cs

  abbrev is_number : Text → Bool
  is_number [] = false
  is_number (c ∷ cs) = all_digits (c ∷ cs)

  abbrev is_dotted : List Text → Bool
  is_dotted (a ∷ b ∷ c ∷ d ∷ []) = is_number a && is_number b && is_number c && is_number d
  is_dotted _ = false

  abbrev dotted : Option Text → Option Text
  dotted none = none
  dotted (some rest) = if is_dotted (split_dots rest) then some rest else none

  -- `address.match(/^::ffff:(\d+\.\d+\.\d+\.\d+)$/i)?.[1]`
  unfoldable pub mapped_ipv4 : Text → Option Text
  mapped_ipv4 address = dotted (after_prefix (codes "::ffff:") (lowered address))

  abbrev blocked_by_mapping : Option Text → Text → Bool
  blocked_by_mapping (some ipv4) address = is_blocked_ipv4_address ipv4
  blocked_by_mapping none address = is_blocked_ipv6_address address

  abbrev pub blocked_as : IpVersion → Text → Bool
  blocked_as IpVersion.v4 address = is_blocked_ipv4_address address
  blocked_as IpVersion.v6 address = blocked_by_mapping (mapped_ipv4 address) address
  blocked_as IpVersion.neither address = false

  -- `isBlockedIpAddress`
  unfoldable pub is_blocked_ip_address : Text → Bool
  is_blocked_ip_address address = blocked_as (runtime.is_ip address) address

  abbrev blocked_names : List Text
  blocked_names = codes "localhost" ∷ codes "0.0.0.0" ∷ codes "metadata.google.internal" ∷ []

  abbrev is_local_name : Text → Bool
  is_local_name name =
      is_one_of blocked_names name
      || ends_with (codes ".localhost") name
      || ends_with (codes ".local") name
      || ends_with (codes ".internal") name

  abbrev blocked_literal : IpVersion → Text → Bool
  blocked_literal IpVersion.neither name = is_blocked_ipv4_address name
  blocked_literal _ name = is_blocked_ip_address name

  abbrev blocked_host : Text → Bool
  blocked_host name = is_local_name name || blocked_literal (runtime.is_ip name) name

  -- `isBlockedHostname`
  unfoldable pub is_blocked_hostname : Text → Bool
  is_blocked_hostname hostname =
      blocked_host (without_brackets (without_last b'.' (lowered hostname)))
