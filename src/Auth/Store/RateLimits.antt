-- ===== src/Auth/Store/RateLimits.antt =====
-- `buildConsumeRateLimitQuery` of packages/database/src/auth-queries.ts, behind `consumeRateLimit` of
-- auth-repository.ts.
pub mod Laws
use lovechapter.Prelude.{
  ℕ, ◌+◌, Bool, true, false, ◌&&◌, List, [], ◌∷◌, if◌then◌else◌, ltb, ◌==◌, map,
}
use lovechapter.Auth.Types.{
  AuthRateLimitScope, sign_up_fingerprint, sign_up_email, sign_in_fingerprint, sign_in_email,
  verification_fingerprint, verification_email, forgot_fingerprint, forgot_email, reset_fingerprint,
  RateLimitAttempt,
}
use lovechapter.Auth.Tables.{RateLimit, Db}

abbrev pub scope_number : AuthRateLimitScope → ℕ
scope_number sign_up_fingerprint = 0
scope_number sign_up_email = 1
scope_number sign_in_fingerprint = 2
scope_number sign_in_email = 3
scope_number verification_fingerprint = 4
scope_number verification_email = 5
scope_number forgot_fingerprint = 6
scope_number forgot_email = 7
scope_number reset_fingerprint = 8

-- The primary key of the table: scope, key hash and start of the window.
abbrev pub Bucket : Type 0
Bucket = ℕ × ℕ × ℕ

unfoldable pub same_key : Bucket → Bucket → Bool
same_key (s, k, t) (s', k', t') = s == s' && k == k' && t == t'

abbrev pub bucket_of : RateLimitAttempt → Bucket
bucket_of a = (scope_number a.scope, a.key_hash, a.bucket_started_at)

abbrev pub bucket_of_row : RateLimit → Bucket
bucket_of_row r = (scope_number r.scope, r.key_hash, r.bucket_started_at)

-- The row of a bucket that was not there.
abbrev first_row : RateLimitAttempt → RateLimit
first_row a = record {
  scope = a.scope;
  key_hash = a.key_hash;
  bucket_started_at = a.bucket_started_at;
  count = 1;
  expires_at = a.expires_at;
}

-- `on conflict … do update set … where count < limit`: the row, and whether it is returned.
abbrev count_again : RateLimitAttempt → RateLimit → Bool × RateLimit
count_again a r =
    if ltb r.count a.limit
    then (true, record r { count = r.count + 1; expires_at = a.expires_at })
    else (false, r)

unfoldable pub consume_row : RateLimitAttempt → List RateLimit → Bool × List RateLimit
consume_row a [] = (true, first_row a ∷ [])
consume_row a (r ∷ rows) =
    let (rest_accepted, rest) = consume_row a rows in
    let (accepted, counted) = count_again a r in
    if same_key (bucket_of a) (bucket_of_row r)
    then (accepted, counted ∷ rows)
    else (rest_accepted, r ∷ rest)

-- The attempt is accepted if the statement returns a row.
unfoldable pub consume_rate_limit : RateLimitAttempt → Db → Bool × Db
unfolding consume_row same_key
consume_rate_limit a db =
    let (accepted, rows) = consume_row a db.rate_limits in
    (accepted, record db { rate_limits = rows })

-- The attempts of a run, one after another; the answers in order.
unfoldable pub consume_all : List RateLimitAttempt → Db → List Bool × Db
consume_all [] db = ([], db)
consume_all (a ∷ attempts) db =
    let (accepted, db') = consume_rate_limit a db in
    let (answers, last) = consume_all attempts db' in (accepted ∷ answers, last)
