-- ===== src/Api/Keys.antt =====
-- server/src/modules/api-keys: the keys of the apps (api-key.service.ts, api-key.repository.ts and
-- api-key.middleware.ts), with the scopes of server/src/modules/auth/scopes.ts. The hash of a key
-- (`hashApiKey`, SHA-256) is a parameter. The columns that are only shown are left out.
use pactagent.Prelude.{
  ℕ, Bool, true, false, ◌&&◌, ◌||◌, ◌==◌, nat_eq, leb, Option, none, some, is_some, List, [], ◌∷◌,
  nat_beq, find_first, update_rows, if◌then◌else◌,
}
use pactagent.Errors.{Result, ok, err, authentication_error, not_found}
use pactagent.Store.Rows.{Text, text_eq, codes}

-- `API_KEY_SCOPES`
pub data ApiKeyScope : Type 0 where
  apps_read agreements_create agreements_read agreements_update agreements_cancel milestones_create
        milestones_read escrows_create escrows_read escrows_fund escrows_release escrows_refund
        proofs_create proofs_read proofs_review disputes_create disputes_read disputes_resolve
        events_read webhooks_manage webhooks_read admin_read admin_write :
      ApiKeyScope

abbrev pub scope_tag : ApiKeyScope → ℕ
scope_tag apps_read = 0
scope_tag agreements_create = 1
scope_tag agreements_read = 2
scope_tag agreements_update = 3
scope_tag agreements_cancel = 4
scope_tag milestones_create = 5
scope_tag milestones_read = 6
scope_tag escrows_create = 7
scope_tag escrows_read = 8
scope_tag escrows_fund = 9
scope_tag escrows_release = 10
scope_tag escrows_refund = 11
scope_tag proofs_create = 12
scope_tag proofs_read = 13
scope_tag proofs_review = 14
scope_tag disputes_create = 15
scope_tag disputes_read = 16
scope_tag disputes_resolve = 17
scope_tag events_read = 18
scope_tag webhooks_manage = 19
scope_tag webhooks_read = 20
scope_tag admin_read = 21
scope_tag admin_write = 22

abbrev pub scope_beq : ApiKeyScope → ApiKeyScope → Bool
scope_beq a b = nat_beq (scope_tag a) (scope_tag b)

-- The status of an app, and of a key.
pub data AppStatus : Type 0 where
  active disabled suspended : AppStatus

pub data ApiKeyStatus : Type 0 where
  active revoked : ApiKeyStatus

pub record App : Type 0 where
  pub id : ℕ
  pub owner_id : ℕ
  pub slug : Text
  pub status : AppStatus

pub record ApiKey : Type 0 where
  pub id : ℕ
  pub app_id : ℕ
  pub key_hash : Text
  pub status : ApiKeyStatus
  pub scopes : List ApiKeyScope
  pub last_used_at : Option ℕ
  pub revoked_at : Option ℕ

-- The two tables.
pub record Accounts : Type 0 where
  pub apps : List App
  pub api_keys : List ApiKey

abbrev is_space : ℕ → Bool
is_space c =
    leb 9 c && leb c 13
    || c == 32
    || c == 160
    || c == 5760
    || leb 8192 c && leb c 8202
    || c == 8232
    || c == 8233
    || c == 8239
    || c == 8287
    || c == 12288
    || c == 65279

abbrev trim_start : Text → Text
trim_start [] = []
trim_start (c ∷ cs) = let rest = trim_start cs in if is_space c then rest else c ∷ cs

abbrev trim_end : Text → Text
trim_end [] = []
trim_end (c ∷ cs) = elim (trim_end cs) [
  | [] ↦ if is_space c then [] else c ∷ []
  | (d ∷ ds) ↦ c ∷ d ∷ ds
]

-- `String.prototype.trim`
abbrev pub trim : Text → Text
trim text = trim_end (trim_start text)

-- `startsWith`, with what follows the prefix.
abbrev pub after_prefix : Text → Text → Option Text
after_prefix [] text = some text
after_prefix (p ∷ ps) [] = none
after_prefix (p ∷ ps) (c ∷ cs) = let rest = after_prefix ps cs in if p == c then rest else none

abbrev starts_with : Text → Text → Bool
starts_with prefix text = is_some (after_prefix prefix text)

-- The headers that carry a key.
pub record Headers : Type 0 where
  pub x_api_key : Option Text
  pub authorization : Option Text

abbrev non_empty : Text → Option Text
non_empty [] = none
non_empty (c ∷ cs) = some (c ∷ cs)

abbrev header_text : Option Text → Option Text
header_text none = none
header_text (some text) = non_empty (trim text)

abbrev key_of_token : Text → Option Text
key_of_token token =
    if starts_with (codes "pa_test_") token || starts_with (codes "pa_live_") token
    then some token
    else none

abbrev bearer_rest : Option Text → Option Text
bearer_rest none = none
bearer_rest (some rest) = key_of_token (trim rest)

abbrev bearer_key : Option Text → Option Text
bearer_key none = none
bearer_key (some authorization) = bearer_rest (after_prefix (codes "Bearer ") authorization)

-- `extractApiKey`
unfoldable pub extract_api_key : Headers → Option Text
extract_api_key headers = elim (header_text headers.x_api_key) [
  | some key ↦ some key
  | none ↦ bearer_key headers.authorization
]

abbrev is_active_app : AppStatus → Bool
is_active_app AppStatus.active = true
is_active_app _ = false

abbrev pub is_active_key : ApiKeyStatus → Bool
is_active_key ApiKeyStatus.active = true
is_active_key ApiKeyStatus.revoked = false

-- The `app: { status: 'active' }` of a query.
abbrev pub has_active_app : List App → ℕ → Bool
has_active_app apps id =
    is_some (find_first (λ (app : App). app.id == id && is_active_app app.status) apps)

abbrev pub is_usable : List App → Text → ApiKey → Bool
is_usable apps hash key =
    key.key_hash == hash && is_active_key key.status && has_active_app apps key.app_id

-- `findActiveApiKeyByHash`
unfoldable pub find_active_api_key_by_hash : Text → Accounts → Option ApiKey
find_active_api_key_by_hash hash accounts =
    find_first (is_usable accounts.apps hash) accounts.api_keys

-- `updateApiKeyLastUsedAt`
unfoldable pub update_api_key_last_used_at : ℕ → ℕ → Accounts → Accounts
update_api_key_last_used_at id now accounts = record accounts {
  api_keys =
      update_rows (λ (key : ApiKey). key.id == id) (λ key. record key { last_used_at = some now })
        accounts.api_keys;
}

module _ (hash_api_key : Text → Text) where
  -- `authenticateApiKey`
  unfoldable pub authenticate_api_key : Text → ℕ → Accounts → Option ApiKey × Accounts
  authenticate_api_key raw now accounts =
      elim (find_active_api_key_by_hash (hash_api_key raw) accounts) [
        | none ↦ (none, accounts)
        | some key ↦ (some key, update_api_key_last_used_at key.id now accounts)
      ]

  abbrev pub authenticated : Option ApiKey × Accounts → Result ApiKey × Accounts
  authenticated (none, accounts) = (err authentication_error, accounts)
  authenticated (some key, accounts) = (ok key, accounts)

  -- `requireApiKey`, up to the rate limits that it calls last.
  unfoldable pub require_api_key : Headers → ℕ → Accounts → Result ApiKey × Accounts
  require_api_key headers now accounts = elim (extract_api_key headers) [
    | none ↦ (err authentication_error, accounts)
    | some raw ↦ authenticated (authenticate_api_key raw now accounts)
  ]

abbrev pub is_owned_by : List App → ℕ → ℕ → ApiKey → Bool
is_owned_by apps owner id key =
    key.id == id
    && is_some (find_first (λ (app : App). app.id == key.app_id && app.owner_id == owner) apps)

-- `findApiKeyForOwner`
unfoldable pub find_api_key_for_owner : ℕ → ℕ → Accounts → Option ApiKey
find_api_key_for_owner owner id accounts =
    find_first (is_owned_by accounts.apps owner id) accounts.api_keys

abbrev pub revoked_key : ℕ → ApiKey → ApiKey
revoked_key now key = record key { status = ApiKeyStatus.revoked; revoked_at = some now }

-- `revokeApiKeyForOwner` of the repository: an active key alone.
unfoldable pub revoke_api_key : ℕ → ℕ → ℕ → Accounts → Accounts
revoke_api_key owner id now accounts = record accounts {
  api_keys =
      update_rows (λ key. is_owned_by accounts.apps owner id key && is_active_key key.status)
        (revoked_key now) accounts.api_keys;
}

abbrev row_or_missing : Option ApiKey → Accounts → Result ApiKey × Accounts
row_or_missing none accounts = (err (not_found "api_key_not_found"), accounts)
row_or_missing (some key) accounts = (ok key, accounts)

-- `revokeApiKeyForOwner`, its audit row aside.
unfoldable pub revoke_api_key_for_owner : ℕ → ℕ → ℕ → Accounts → Result ApiKey × Accounts
revoke_api_key_for_owner owner id now accounts = elim (find_api_key_for_owner owner id accounts) [
  | none ↦ (err (not_found "api_key_not_found"), accounts)
  | some before ↦
      let after = revoke_api_key owner id now accounts in
      row_or_missing (find_api_key_for_owner owner id after) after
]
