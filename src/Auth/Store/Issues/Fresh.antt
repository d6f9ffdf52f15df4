-- ===== src/Auth/Store/Issues/Fresh.antt =====
-- An issue whose identifiers and hash are new can be queued.
use lovechapter.Prelude.{
  ℕ, ◌≡◌, refl, Bool, true, false, not, ◌||◌, some, List, [], ◌∷◌, arith, ◌==◌,
}
use lovechapter.Auth.Types.{AuthTokenPurpose, ActionTokenIssue}
use lovechapter.Auth.Tables.{Account, Db, first_where, exists_where, is_null}
use lovechapter.Auth.Tables.Laws.{exists_where-update_where, exists_where-delete_where}
use lovechapter.Auth.Store.Issues.{
  is_valid_issue, is_active_of, invalidate_tokens_and_jobs, insert_action_token, insert_email_job,
  replace_issue, queue_action_email, key_where, eligible_where,
}

-- No token has the identifier or the hash of the issue, and no job its identifier or idempotency key.
pub record IsFresh (issue : ActionTokenIssue) (db : Db) : Type 0 where
  pub new_token :
      exists_where (λ t. t.id == issue.token.id || t.token_hash == issue.token_hash) db.tokens
      ≡ false
  pub new_job :
      exists_where
        (λ j. j.id == issue.job.id || j.idempotency_key == issue.job.idempotency_key)
        db.email_jobs
      ≡ false

replace_issue-IsFresh :
    (issue : ActionTokenIssue) (account_id now : ℕ) (p : AuthTokenPurpose) (db : Db)
    → IsFresh issue db
    → (after : Db) × (replace_issue issue account_id p now db ≡ some after)
unfolding replace_issue invalidate_tokens_and_jobs insert_action_token insert_email_job
replace_issue-IsFresh issue account_id now p db f =
    rw
      (
        exists_where-update_where (λ t. t.id == issue.token.id || t.token_hash == issue.token_hash)
            (is_active_of account_id p) (λ t. record t { consumed_at = some now }) db.tokens
            (λ t. refl),
        f.new_token,
        exists_where-delete_where _ _ db.email_jobs f.new_job,
      )
      (_, refl)

-- The first account of an email key is the first eligible one, if it is eligible.
eligible_first :
    (key : ℕ) (v : Bool) (a : Account) (l : List Account)
    → first_where (key_where key) l ≡ some a
    → is_null a.email_verified_at ≡ not v
    → first_where (eligible_where key v) l ≡ some a
eligible_first key v a [] h k = h
eligible_first key v a (x ∷ l) h k = ground (arith, eligible_first key v a l)

pub queue_action_email-IsFresh :
    (issue : ActionTokenIssue) (key now : ℕ) (p : AuthTokenPurpose) (v : Bool) (a : Account)
    (db : Db)
    → first_where (key_where key) db.accounts ≡ some a
    → is_null a.email_verified_at ≡ not v
    → is_valid_issue issue a.id p ≡ true
    → IsFresh issue db
    → (after : Db) × (queue_action_email issue key p v now db ≡ some (true, after))
unfolding queue_action_email
queue_action_email-IsFresh issue key now p v a db found eligible valid f =
    let (after, done) = replace_issue-IsFresh issue a.id now p db f in
    (after, rw (eligible_first key v a db.accounts found eligible, valid, done) refl)
