-- ===== src/Api/Apps.antt =====
-- server/src/modules/apps/app.service.ts and app.repository.ts, and the creation of keys in
-- server/src/modules/api-keys: what an owner does with apps. A new id is an input, and a new key comes
-- as its hash. Names, environments, defaults and the audit rows are left out.
use pactagent.Prelude.{
  ℕ, Bool, ◌&&◌, ◌==◌, nat_eq, Option, none, some, is_some, List, ◌∷◌, find_first, update_rows,
  if◌then◌else◌,
}
use pactagent.Errors.{Error, Result, ok, err, conflict, not_found, unique_violation}
use pactagent.Store.Rows.{Text, text_eq}
use pactagent.Api.Keys.{ApiKeyScope, AppStatus, ApiKeyStatus, App, ApiKey, Accounts}

abbrev is_app : ℕ → ℕ → App → Bool
is_app owner id app = app.id == id && app.owner_id == owner

-- `findAppForOwner`
unfoldable pub find_app_for_owner : ℕ → ℕ → Accounts → Option App
find_app_for_owner owner id accounts = find_first (is_app owner id) accounts.apps

abbrev has_slug : ℕ → Text → App → Bool
has_slug owner slug app = app.owner_id == owner && app.slug == slug

abbrev new_app : ℕ → Text → ℕ → App
new_app owner slug id = record { id = id; owner_id = owner; slug = slug; status = AppStatus.active }

-- `createApp`, under the unique index on the owner and the slug.
unfoldable pub create_app : ℕ → Text → ℕ → Accounts → Result App × Accounts
create_app owner slug id accounts =
    if is_some (find_first (has_slug owner slug) accounts.apps)
    then (err unique_violation, accounts)
    else (
      ok (new_app owner slug id),
      record accounts { apps = new_app owner slug id ∷ accounts.apps },
    )

abbrev or_conflict : {A : Type 0} → Error → Result A × Accounts → Result A × Accounts
or_conflict e (err unique_violation, accounts) = (err e, accounts)
or_conflict e (result, accounts) = (result, accounts)

-- `createAppForOwner`
unfoldable pub create_app_for_owner : ℕ → Text → ℕ → Accounts → Result App × Accounts
create_app_for_owner owner slug id accounts =
    or_conflict (conflict "app_slug_conflict") (create_app owner slug id accounts)

abbrev given_status : Option AppStatus → AppStatus → AppStatus
given_status none before = before
given_status (some status) before = status

-- `updateAppForOwner` of the repository, for the status of the input.
unfoldable pub update_app : ℕ → ℕ → Option AppStatus → Accounts → Accounts
update_app owner id status accounts = record accounts {
  apps =
      update_rows (is_app owner id)
        (λ (app : App). record app { status = given_status status app.status }) accounts.apps;
}

-- `disableAppForOwner` of the repository.
unfoldable pub disable_app : ℕ → ℕ → Accounts → Accounts
disable_app owner id accounts = record accounts {
  apps =
      update_rows (is_app owner id) (λ (app : App). record app { status = AppStatus.disabled })
        accounts.apps;
}

abbrev app_or_missing : Option App → Accounts → Result App × Accounts
app_or_missing none accounts = (err (not_found "app_not_found"), accounts)
app_or_missing (some app) accounts = (ok app, accounts)

-- A change between two looks at the app.
abbrev changed_app : ℕ → ℕ → Accounts → Option App → Accounts → Result App × Accounts
changed_app owner id after none accounts = (err (not_found "app_not_found"), accounts)
changed_app owner id after (some before) accounts =
    app_or_missing (find_app_for_owner owner id after) after

-- `updateAppForOwner`
unfoldable pub update_app_for_owner : ℕ → ℕ → Option AppStatus → Accounts → Result App × Accounts
update_app_for_owner owner id status accounts =
    changed_app owner id (update_app owner id status accounts)
      (find_app_for_owner owner id accounts) accounts

-- `disableAppForOwner`
unfoldable pub disable_app_for_owner : ℕ → ℕ → Accounts → Result App × Accounts
disable_app_for_owner owner id accounts =
    changed_app owner id (disable_app owner id accounts) (find_app_for_owner owner id accounts)
      accounts

abbrev new_key : ℕ → Text → List ApiKeyScope → ℕ → ApiKey
new_key app hash scopes id = record {
  id = id;
  app_id = app;
  key_hash = hash;
  status = ApiKeyStatus.active;
  scopes = scopes;
  last_used_at = none;
  revoked_at = none;
}

-- `createApiKey`, under the unique index on the hash.
unfoldable pub create_api_key :
    ℕ → Text → List ApiKeyScope → ℕ → Accounts → Result ApiKey × Accounts
create_api_key app hash scopes id accounts =
    if is_some (find_first (λ (key : ApiKey). key.key_hash == hash) accounts.api_keys)
    then (err unique_violation, accounts)
    else (
      ok (new_key app hash scopes id),
      record accounts { api_keys = new_key app hash scopes id ∷ accounts.api_keys },
    )

abbrev key_for : Option App → Text → List ApiKeyScope → ℕ → Accounts → Result ApiKey × Accounts
key_for none hash scopes id accounts = (err (not_found "app_not_found"), accounts)
key_for (some app) hash scopes id accounts =
    or_conflict (conflict "api_key_conflict") (create_api_key app.id hash scopes id accounts)

-- `createApiKeyForOwner`
unfoldable pub create_api_key_for_owner :
    ℕ → ℕ → Text → List ApiKeyScope → ℕ → Accounts → Result ApiKey × Accounts
create_api_key_for_owner owner app hash scopes id accounts =
    key_for (find_app_for_owner owner app accounts) hash scopes id accounts
