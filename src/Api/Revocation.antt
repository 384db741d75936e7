-- ===== src/Api/Revocation.antt =====
-- A key that its owner has revoked.
use pactagent.Prelude.{
  ℕ, ◌≡◌, refl, sym, subst, Bool, if◌then◌else◌, true, false, none, some, List, [], ◌∷◌, All,
  find_first, update_rows, Bool-cases, inl, inr, ◌==◌, ◌&&◌, arith, nat_eq,
}
use pactagent.Store.Rows.{text_eq, text_beq_iff}
use pactagent.Api.Keys.{
  App, ApiKey, Accounts, is_usable, is_owned_by, is_active_key, revoked_key,
  find_active_api_key_by_hash, find_api_key_for_owner, revoke_api_key,
}

-- `keyHash @unique`: the key is the only one under its hash.
abbrev pub OnlyKey : ApiKey → List ApiKey → Type 0
OnlyKey key rows = All (λ (row : ApiKey). row.key_hash ≡ key.key_hash → row ≡ key) rows

found_owned :
    (apps : List App) (owner id : ℕ) (rows : List ApiKey) {key : ApiKey}
    → find_first (is_owned_by apps owner id) rows ≡ some key
    → is_owned_by apps owner id key ≡ true
unfolding find_first
found_owned apps owner id [] h = absurd (cc)
found_owned apps owner id (x ∷ xs) {key} h = elim (Bool-cases (is_owned_by apps owner id x)) [
  | inl own ↦
      let same : x ≡ key = ground arith in
      subst (λ (row : ApiKey). is_owned_by apps owner id row ≡ true) same own
  | inr other ↦
      let rest : find_first (is_owned_by apps owner id) xs ≡ some key = ground arith in
      found_owned apps owner id xs rest
]

-- The row as the revocation leaves it.
unusable_row :
    (apps : List App) (own : Bool) (now : ℕ) (key x : ApiKey)
    → (x.key_hash ≡ key.key_hash → own ≡ true)
    → is_usable apps key.key_hash (if own && is_active_key x.status then revoked_key now x else x)
      ≡ false
unusable_row apps own now key x h = elim (Bool-cases (x.key_hash == key.key_hash)) [
  | inl same ↦ elim (Bool-cases (is_active_key x.status)) [
    | inl on ↦ ground (arith, h ((text_beq_iff x.key_hash key.key_hash).0 same))
    | inr off ↦ ground (arith, h ((text_beq_iff x.key_hash key.key_hash).0 same))
  ]
  | inr differ ↦ elim (Bool-cases (own && is_active_key x.status)) [
    | inl on ↦ ground arith
    | inr off ↦ ground arith
  ]
]

none_usable :
    (apps others : List App) (owner id now : ℕ) (key : ApiKey) (rows : List ApiKey)
    → is_owned_by others owner id key ≡ true
    → OnlyKey key rows
    → find_first (is_usable apps key.key_hash) (
        update_rows
          (λ row. is_owned_by others owner id row && is_active_key row.status)
          (revoked_key now)
          rows)
      ≡ none
unfolding find_first update_rows
none_usable apps others owner id now key [] own only = refl
none_usable apps others owner id now key (x ∷ xs) own only =
    let unusable = unusable_row apps (is_owned_by others owner id x) now key x λ same.
      subst (λ (row : ApiKey). is_owned_by others owner id row ≡ true) (sym (only.0 same)) own in
    rw unusable (none_usable apps others owner id now key xs own only.1)

-- Once the owner of the app has revoked a key, what hashes to its hash authenticates nobody.
pub revoked_unusable :
    (owner id now : ℕ) (accounts : Accounts) (key : ApiKey)
    → find_api_key_for_owner owner id accounts ≡ some key
    → OnlyKey key accounts.api_keys
    → find_active_api_key_by_hash key.key_hash (revoke_api_key owner id now accounts) ≡ none
unfolding find_api_key_for_owner find_active_api_key_by_hash revoke_api_key
revoked_unusable owner id now accounts key found only =
    none_usable accounts.apps accounts.apps owner id now key accounts.api_keys
      (found_owned accounts.apps owner id accounts.api_keys found) only
