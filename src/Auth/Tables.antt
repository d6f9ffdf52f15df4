-- ===== src/Auth/Tables.antt =====
-- The tables of the authentication store (packages/database/src/schema.ts), as lists of rows, and
-- the SQL clauses that the queries use. A statement reads the database as it was when it began.
pub mod Laws
use lovechapter.Prelude.{
  ℕ, Bool, true, false, ◌||◌, ◌&&◌, not, Option, none, some, List, [], ◌∷◌, if◌then◌else◌, ◌==◌,
}
use lovechapter.Auth.Types.{AuthTokenPurpose, AuthRateLimitScope}

pub record Account : Type 0 where
  pub id : ℕ
  pub email : ℕ
  pub email_key : ℕ
  pub password_hash : ℕ
  pub email_verified_at : Option ℕ
  pub credential_version : ℕ
  pub created_at : ℕ
  pub updated_at : ℕ

pub record Session : Type 0 where
  pub id : ℕ
  pub account_id : ℕ
  pub token_hash : ℕ
  pub idle_expires_at : ℕ
  pub absolute_expires_at : ℕ
  pub last_seen_at : ℕ
  pub revoked_at : Option ℕ
  pub created_at : ℕ

pub record Token : Type 0 where
  pub id : ℕ
  pub account_id : ℕ
  pub purpose : AuthTokenPurpose
  pub token_hash : ℕ
  pub signing_key_version : ℕ
  pub expires_at : ℕ
  pub consumed_at : Option ℕ
  pub created_at : ℕ

pub record RateLimit : Type 0 where
  pub scope : AuthRateLimitScope
  pub key_hash : ℕ
  pub bucket_started_at : ℕ
  pub count : ℕ
  pub expires_at : ℕ

pub record EmailJob : Type 0 where
  pub id : ℕ
  pub kind : AuthTokenPurpose
  pub account_id : ℕ
  pub auth_token_id : ℕ
  pub idempotency_key : ℕ
  pub available_at : ℕ
  pub leased_until : Option ℕ
  pub attempt_count : ℕ
  pub sent_at : Option ℕ
  pub last_error_code : Option ℕ
  pub created_at : ℕ
  pub updated_at : ℕ

pub record LocalUser : Type 0 where
  pub id : ℕ
  pub auth_subject : ℕ
  pub display_name : ℕ
  pub email : ℕ
  pub onboarding_completed_at : ℕ
  pub updated_at : ℕ

pub record Db : Type 0 where
  pub accounts : List Account
  pub sessions : List Session
  pub tokens : List Token
  pub rate_limits : List RateLimit
  pub email_jobs : List EmailJob
  pub users : List LocalUser

module _ {ℓ} {A : Type ℓ} where
  -- `update … set … where …`
  abbrev pub update_where : (A → Bool) → (A → A) → List A → List A
  update_where p f [] = []
  update_where p f (a ∷ l) = (if p a then f a else a) ∷ update_where p f l

  -- `select … where …`
  abbrev pub select_where : (A → Bool) → List A → List A
  select_where p [] = []
  select_where p (a ∷ l) = let rest = select_where p l in if p a then a ∷ rest else rest

  -- `delete … where …`
  abbrev pub delete_where : (A → Bool) → List A → List A
  delete_where p [] = []
  delete_where p (a ∷ l) = let rest = delete_where p l in if p a then rest else a ∷ rest

  -- `select … where … limit 1`
  abbrev pub first_where : (A → Bool) → List A → Option A
  first_where p [] = none
  first_where p (a ∷ l) = let rest = first_where p l in if p a then some a else rest

  abbrev pub exists_where : (A → Bool) → List A → Bool
  exists_where p [] = false
  exists_where p (a ∷ l) = p a || exists_where p l

abbrev pub is_null : Option ℕ → Bool
is_null none = true
is_null (some _) = false

-- `coalesce(value, now)`
abbrev pub coalesce : Option ℕ → ℕ → ℕ
coalesce none now = now
coalesce (some t) now = t

-- A statement or transaction: `none` is an error of the database or of a check within the
-- transaction, which leaves the database as it was.
abbrev pub Transaction : Type 0 → Type 0
Transaction A = Db → Option (A × Db)
