-- ===== src/Auth/Store/Issues/Verified.antt =====
-- The verified accounts when someone registers.
use lovechapter.Prelude.{
  ℕ, ◌≡◌, refl, Bool, true, false, not, Option, none, some, List, [], ◌∷◌, arith, inl, inr,
  Bool-cases, Option-cases, ◌==◌, ◌∙◌, ap, sym, eq_of_some,
}
use lovechapter.Auth.Types.{verify_email, ActionTokenIssue, PendingRegistration}
use lovechapter.Auth.Tables.{
  Account, Db, update_where, select_where, first_where, exists_where, is_null,
}
use lovechapter.Auth.Tables.Laws.{first_where-passes, IsRowOf, first_where-IsRowOf}
use lovechapter.Auth.Store.Issues.{
  key_where, re_registered, register_pending, upsert_pending_account, register_account, require,
  is_valid_issue, seed_local_user, replace_issue, ◌>>=◌,
}
use lovechapter.Auth.Store.Issues.Laws.{bind-eq-some, register_pending-Replaces}

abbrev pub is_verified : Account → Bool
is_verified a = not (is_null a.email_verified_at)

-- The unique index on the email key.
abbrev pub HasUniqueKeys : List Account → Type 0
HasUniqueKeys l = (a b : Account) → IsRowOf l a → IsRowOf l b → a.email_key ≡ b.email_key → a ≡ b

re_registered-verified :
    (i : PendingRegistration) (l : List Account)
    → ((b : Account) → IsRowOf l b → b.email_key ≡ i.email_key → is_null b.email_verified_at ≡ true)
    → select_where is_verified (update_where (key_where i.email_key) (re_registered i) l)
      ≡ select_where is_verified l
re_registered-verified i [] h = refl
re_registered-verified i (a ∷ l) h =
    ground (arith, re_registered-verified i l (λ b r. h b (inr r)), h a (inl refl))

upsert-verified :
    (i : PendingRegistration) (l accounts : List Account) (o : Option ℕ)
    → HasUniqueKeys l
    → upsert_pending_account i l ≡ some (o, accounts)
    → select_where is_verified accounts ≡ select_where is_verified l
unfolding upsert_pending_account
upsert-verified i l accounts o unique h =
    elim (Option-cases (first_where (key_where i.email_key) l)) [
      | inl missing ↦ elim (Bool-cases (exists_where (λ a. a.id == i.candidate_account_id) l)) [
        | inl taken ↦ absurd (no_row (rw (missing, taken) at h))
        | inr free ↦ rw (← written (rw (missing, free) at h)) refl
      ]
      | inr (a, found) ↦ elim (Bool-cases (is_null a.email_verified_at)) [
        | inl pending ↦ rw (← written (rw (found, pending) at h)) (
            re_registered-verified i l (λ b row same.
              rw
                (unique b a row (first_where-IsRowOf (key_where i.email_key) l a found)
                  (same ∙ sym (same_key a (first_where-passes (key_where i.email_key) l a found))))
                pending))
        | inr verified ↦ rw (← written (rw (found, verified) at h)) refl
      ]
    ]
  where
    no_row : ◌≡◌ {A = Option (Option ℕ × List Account)} none (some (o, accounts)) → ⊥
    no_row e = cc

    written :
        {x : Option ℕ} {m : List Account}
        → ◌≡◌ {A = Option (Option ℕ × List Account)} (some (x, m)) (some (o, accounts))
        → m ≡ accounts
    written e = ap (λ (p : Option ℕ × List Account). p.1) (eq_of_some _ _ e)

    same_key : (a : Account) → key_where i.email_key a ≡ true → a.email_key ≡ i.email_key
    same_key a e = ground arith

register_account-false :
    (i : PendingRegistration) (issue : ℕ → ActionTokenIssue) (o : Option ℕ)
    (accounts : List Account) (db after : Db)
    → register_account i issue db o accounts ≡ some (false, after)
    → db ≡ after
register_account-false i issue none accounts db after h =
    ap (λ (p : Bool × Db). p.1) (eq_of_some (false, db) (false, after) h)
register_account-false i issue (some id) accounts db after h =
    let (u, valid, h1) = bind-eq-some (require (is_valid_issue (issue id) id verify_email)) _ h in
    let (users, seeded, h2) = bind-eq-some (seed_local_user id i db.users) _ h1 in
    let (done, replaced, h3) =
      bind-eq-some
        (replace_issue (issue id) id verify_email i.now
          (record db { accounts = accounts; users = users }))
        _ h2 in
    absurd (true_false (ap (λ (p : Bool × Db). p.0) (eq_of_some (true, done) (false, after) h3)))
  where
    true_false : ◌≡◌ {A = Bool} true false → ⊥
    true_false e = cc

register_tail-false :
    (i : PendingRegistration) (issue : ℕ → ActionTokenIssue) (db after : Db)
    (o : Option (Option ℕ × List Account))
    → (do (account_id, accounts) ← o; register_account i issue db account_id accounts)
      ≡ some (false, after)
    → db ≡ after
register_tail-false i issue db after none h = absurd (cc)
register_tail-false i issue db after (some (o, accounts)) h =
    register_account-false i issue o accounts db after h

-- Whoever registers, with whatever email key and whatever outcome, the verified accounts stay as they
-- were: none is changed, added or removed. The email key is unique.
pub register_pending-verified :
    (i : PendingRegistration) (issue : ℕ → ActionTokenIssue) (queued : Bool) (db after : Db)
    → HasUniqueKeys db.accounts
    → register_pending i issue db ≡ some (queued, after)
    → select_where is_verified after.accounts ≡ select_where is_verified db.accounts
register_pending-verified i issue true db after unique h =
    let (id, accounts, written, same, replaced) = register_pending-Replaces i issue db after h in
    rw same (upsert-verified i db.accounts accounts (some id) unique written)
register_pending-verified i issue false db after unique h =
    rw
      (← register_tail-false i issue db after (upsert_pending_account i db.accounts)
        (unfold register_pending in h))
      refl
