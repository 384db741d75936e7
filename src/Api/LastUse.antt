-- ===== src/Api/LastUse.antt =====
-- What the middleware of the keys answers, and what it leaves of the accounts.
use pactagent.Prelude.{
  ℕ, ◌≡◌, refl, sym, ◌∙◌, ap, subst, true, List, [], ◌∷◌, ◌==◌, nat_eq, ◌⊎◌, inl, inr, some, none,
  find_first, update_rows, Option-cases, All, arith, Bool-cases,
}
use pactagent.Errors.{Result, ok, err, authentication_error}
use pactagent.Store.Rows.{Text}
use pactagent.Store.Respects.{err≢ok}
use pactagent.Tenancy.Isolation.{others, others-update_each}
use pactagent.Api.Keys.{
  ApiKey, Accounts, Headers, is_usable, extract_api_key, find_active_api_key_by_hash,
  update_api_key_last_used_at, authenticate_api_key, require_api_key,
}

-- The key that the headers name, when it may act.
abbrev pub key_of : (Text → Text) → Headers → ℕ → Accounts → Result ApiKey
key_of hash headers now accounts = (require_api_key hash headers now accounts).0

pub same_key : {a b : ApiKey} → ◌≡◌ {A = Result ApiKey} (ok a) (ok b) → a ≡ b
same_key h = cc

-- A key that a request comes with is in the table, active, of an active app, under the hash of what
-- the headers carry.
pub record Named (hash : Text → Text) (headers : Headers) (accounts : Accounts) (key : ApiKey)
    : Type 0 where
  pub raw : Text
  pub carried : extract_api_key headers ≡ some raw
  pub stored : find_first (is_usable accounts.apps (hash raw)) accounts.api_keys ≡ some key

-- A key is found, and the time of its use is written.
pub record Accepted (hash : Text → Text) (headers : Headers) (now : ℕ) (accounts : Accounts)
    : Type 0 where
  pub key : ApiKey
  pub named : Named hash headers accounts key
  pub gives :
      require_api_key hash headers now accounts
      ≡ (ok key, update_api_key_last_used_at key.id now accounts)

-- None is found.
abbrev pub Refused : (Text → Text) → Headers → ℕ → Accounts → Type 0
Refused hash headers now accounts =
    require_api_key hash headers now accounts ≡ (err authentication_error, accounts)

module _ (hash : Text → Text) (headers : Headers) (now : ℕ) (accounts : Accounts) where
  unnamed_key : extract_api_key headers ≡ none → Refused hash headers now accounts
  unfolding require_api_key
  unnamed_key h = rw (h, Refused, require_api_key) refl

  unknown_key :
      (raw : Text)
      → extract_api_key headers ≡ some raw
      → find_first (is_usable accounts.apps (hash raw)) accounts.api_keys ≡ none
      → Refused hash headers now accounts
  unfolding require_api_key authenticate_api_key find_active_api_key_by_hash
  unknown_key raw h k = rw (h, k, Refused, require_api_key, authenticate_api_key) refl

  known_key :
      (raw : Text) (key : ApiKey)
      → extract_api_key headers ≡ some raw
      → find_first (is_usable accounts.apps (hash raw)) accounts.api_keys ≡ some key
      → Accepted hash headers now accounts
  unfolding require_api_key authenticate_api_key find_active_api_key_by_hash
  known_key raw key h k = record {
    key = key;
    named = record { raw = raw; carried = h; stored = k };
    gives = rw (h, k, require_api_key, authenticate_api_key) refl;
  }

  pub answered : Refused hash headers now accounts ⊎ Accepted hash headers now accounts
  answered = elim (Option-cases (extract_api_key headers)) [
    | inl unnamed ↦ inl (unnamed_key unnamed)
    | inr (raw, carried) ↦
        elim (Option-cases (find_first (is_usable accounts.apps (hash raw)) accounts.api_keys)) [
          | inl missing ↦ inl (unknown_key raw carried missing)
          | inr (key, stored) ↦ inr (known_key raw key carried stored)
        ]
  ]

  -- The accounts after a request with the key.
  pub after_key :
      (key : ApiKey)
      → key_of hash headers now accounts ≡ ok key
      → (require_api_key hash headers now accounts).1
        ≡ update_api_key_last_used_at key.id now accounts
  after_key key h = elim answered [
    | inl refused ↦ absurd (err≢ok (sym (ap (λ p. p.0) refused) ∙ h))
    | inr accepted ↦
        ap (λ p. p.1) accepted.gives
        ∙ ap (λ (x : ApiKey). update_api_key_last_used_at x.id now accounts)
            (same_key (sym (ap (λ p. p.0) accepted.gives) ∙ h))
  ]

-- The row but for the time of its last use.
abbrev forget_use : ApiKey → ApiKey
forget_use key = record key { last_used_at = none }

abbrev all_forgotten : List ApiKey → List ApiKey
all_forgotten [] = []
all_forgotten (x ∷ xs) = forget_use x ∷ all_forgotten xs

-- The accounts are as they were, but for the times at which keys were last used.
pub record UsedOnly (before after : Accounts) : Type 0 where
  pub apps : after.apps ≡ before.apps
  pub api_keys : all_forgotten after.api_keys ≡ all_forgotten before.api_keys

forgotten :
    (id now : ℕ) (xs : List ApiKey)
    → all_forgotten (
        update_rows
          (λ (key : ApiKey). key.id == id)
          (λ key. record key { last_used_at = some now })
          xs)
      ≡ all_forgotten xs
unfolding update_rows
forgotten id now [] = refl
forgotten id now (x ∷ xs) =
    let rest = forgotten id now xs in
    elim (Bool-cases (x.id == id)) [
      | inl t ↦ rw t (ap (λ rows. forget_use x ∷ rows) rest)
      | inr f ↦ rw f (ap (λ rows. forget_use x ∷ rows) rest)
    ]

use-UsedOnly :
    (id now : ℕ) (accounts : Accounts)
    → UsedOnly accounts (update_api_key_last_used_at id now accounts)
unfolding update_api_key_last_used_at
use-UsedOnly id now accounts = record { apps = refl; api_keys = forgotten id now accounts.api_keys }

pub require-UsedOnly :
    (hash : Text → Text) (headers : Headers) (now : ℕ) (accounts : Accounts)
    → UsedOnly accounts (require_api_key hash headers now accounts).1
require-UsedOnly hash headers now accounts = elim (answered hash headers now accounts) [
  | inl refused ↦
      subst (UsedOnly accounts) (sym (ap (λ p. p.1) refused))
        (record { apps = refl; api_keys = refl })
  | inr accepted ↦
      subst (UsedOnly accounts) (sym (ap (λ p. p.1) accepted.gives))
        (use-UsedOnly accepted.key.id now accounts)
]

-- `id @id`: a row under the key's id is of the key's app.
abbrev pub OwnId : ApiKey → List ApiKey → Type 0
OwnId key rows = All (λ (row : ApiKey). row.id ≡ key.id → row.app_id ≡ key.app_id) rows

-- The apps and the keys of every app but `app` are as they were.
pub record OthersKept (app : ℕ) (before after : Accounts) : Type 0 where
  pub apps : after.apps ≡ before.apps
  pub api_keys :
      others (λ row. row.app_id == app) after.api_keys
      ≡ others (λ row. row.app_id == app) before.api_keys

own_rows :
    (key : ApiKey) (xs : List ApiKey)
    → OwnId key xs
    → All
        (λ (row : ApiKey).
          (row.id == key.id) ≡ true
          → ((row.app_id == key.app_id) ≡ true) × ((row.app_id == key.app_id) ≡ true))
        xs
own_rows key [] h = tt
own_rows key (x ∷ xs) h =
    ((λ t. (ground (arith, h.0, t), ground (arith, h.0, t))), own_rows key xs h.1)

others_used :
    (key : ApiKey) (now : ℕ) (xs : List ApiKey)
    → OwnId key xs
    → others
        (λ row. row.app_id == key.app_id)
        (update_rows
          (λ (row : ApiKey). row.id == key.id)
          (λ row. record row { last_used_at = some now })
          xs)
      ≡ others (λ row. row.app_id == key.app_id) xs
others_used key now xs h =
    others-update_each (λ row. row.app_id == key.app_id) _ _ xs (own_rows key xs h)

pub use-OthersKept :
    (key : ApiKey) (now : ℕ) (accounts : Accounts)
    → OwnId key accounts.api_keys
    → OthersKept key.app_id accounts (update_api_key_last_used_at key.id now accounts)
unfolding update_api_key_last_used_at
use-OthersKept key now accounts h = record {
  apps = refl;
  api_keys = others_used key now accounts.api_keys h;
}
