-- ===== src/Auth/Store/Sessions/SingleUse.antt =====
-- Repeated consumption of an action token.
use lovechapter.Prelude.{
  ℕ, ◌≡◌, ◌≢◌, refl, Bool, true, false, ◌&&◌, [], ◌∷◌, List, arith, All, inl, inr, Bool-cases, some,
  sym, ◌∙◌,
}
use lovechapter.Auth.Types.{AuthTokenPurpose, verify_email, reset_password, TokenConsumption}
use lovechapter.Auth.Tables.{Token, Account, Db, update_where, exists_where}
use lovechapter.Auth.Store.Sessions.{
  is_consumable, consumed, consume_email_verification, reset_password_and_revoke_sessions,
}
use lovechapter.Auth.Store.Sessions.Laws.{reset_tokens, reset_used}

-- The identifiers of the tokens are the primary key of their table.
abbrev pub HasUniqueIds : List Token → Type 0
HasUniqueIds [] = Unit
HasUniqueIds (t ∷ l) = All (λ u. u.id ≢ t.id) l × HasUniqueIds l

none_consumable :
    (p q : AuthTokenPurpose) (i j : TokenConsumption) (id : ℕ) (l : List Token)
    → All (λ u. u.id ≢ id) l
    → j.token_id ≡ id
    → exists_where (is_consumable q j) (update_where (is_consumable p i) (consumed i.now) l) ≡ false
unfolding is_consumable
none_consumable p q i j id [] h e = refl
none_consumable p q i j id (t ∷ l) h e = ground (arith, none_consumable p q i j id l h.1 e)

consumable-id :
    (p : AuthTokenPurpose) (i : TokenConsumption) (t : Token)
    → is_consumable p i t ≡ true
    → t.id ≡ i.token_id
unfolding is_consumable
consumable-id p i t h = ground arith

consumable_in :
    (p : AuthTokenPurpose) (i : TokenConsumption) (id : ℕ) (l : List Token)
    → All (λ u. u.id ≢ id) l
    → exists_where (is_consumable p i) l ≡ true
    → i.token_id ≢ id
consumable_in p i id [] h e = cc
consumable_in p i id (t ∷ l) h e = ground (arith, consumable-id p i t, consumable_in p i id l h.1)

-- The head of the table after the update: a consumed row, or one with another identifier.
consumed_head :
    (p q : AuthTokenPurpose) (i j : TokenConsumption) (t : Token)
    → is_consumable q j (consumed i.now t) ≡ false
unfolding is_consumable
consumed_head p q i j t = ground arith

other_head :
    (q : AuthTokenPurpose) (i j : TokenConsumption) (t : Token)
    → i.token_id ≢ t.id
    → j.token_id ≡ i.token_id
    → is_consumable q j t ≡ false
unfolding is_consumable
other_head q i j t h e = ground arith

used_up :
    (p q : AuthTokenPurpose) (i j : TokenConsumption) (l : List Token)
    → HasUniqueIds l
    → exists_where (is_consumable p i) l ≡ true
    → j.token_id ≡ i.token_id
    → exists_where (is_consumable q j) (update_where (is_consumable p i) (consumed i.now) l) ≡ false
used_up p q i j [] u h e = cc
used_up p q i j (t ∷ l) u h e = elim (Bool-cases (is_consumable p i t)) [
  | inl hit ↦
      rw (hit, consumed_head p q i j t)
        (none_consumable p q i j t.id l u.0 (e ∙ sym (consumable-id p i t hit)))
  | inr miss ↦
      let later = rw miss at h in
      rw (miss, other_head q i j t (consumable_in p i t.id l u.0 later) e)
        (used_up p q i j l u.1 later e)
]

exists_where-and :
    (hit : Bool) (p : Account → Bool) (l : List Account)
    → exists_where (λ a. hit && p a) l ≡ true
    → hit ≡ true
exists_where-and true p l h = refl
exists_where-and false p [] h = h
exists_where-and false p (a ∷ l) h = exists_where-and false p l h

none_exists :
    (hit : Bool) (p : Account → Bool) (l : List Account)
    → hit ≡ false
    → exists_where (λ a. hit && p a) l ≡ false
none_exists true p l h = cc
none_exists false p [] h = refl
none_exists false p (a ∷ l) h = none_exists false p l h

-- Nobody can verify an email or reset a password by the token any more.
abbrev pub IsSpent : ℕ → Db → Type 0
IsSpent id db =
    (j : TokenConsumption)
    → j.token_id ≡ id
    → ((consume_email_verification j db).0 ≡ false)
      × ((hash : ℕ) → reset_password_and_revoke_sessions j hash db ≡ some (false, db))

IsSpent-of_tokens :
    (id : ℕ) (db : Db)
    → ((q : AuthTokenPurpose) (j : TokenConsumption)
        → j.token_id ≡ id
        → exists_where (is_consumable q j) db.tokens ≡ false)
    → IsSpent id db
IsSpent-of_tokens id db none_left j e = (
  unfold consume_email_verification in none_exists _ _ db.accounts (none_left verify_email j e),
  λ hash. unfold reset_password_and_revoke_sessions in rw (none_left reset_password j e),
)

-- A token that has verified an email is spent: neither a second verification nor a password reset
-- succeeds with it.
pub consume_email_verification-IsSpent :
    (i : TokenConsumption) (db : Db)
    → HasUniqueIds db.tokens
    → (consume_email_verification i db).0 ≡ true
    → IsSpent i.token_id (consume_email_verification i db).1
consume_email_verification-IsSpent i db u h = IsSpent-of_tokens i.token_id _ (λ q j e.
    unfold consume_email_verification in
    used_up verify_email q i j db.tokens u
      (exists_where-and _ _ db.accounts (unfold consume_email_verification in h)) e)

-- A token that has reset a password is spent in the same way.
pub reset_password-IsSpent :
    (i : TokenConsumption) (hash : ℕ) (db after : Db)
    → HasUniqueIds db.tokens
    → reset_password_and_revoke_sessions i hash db ≡ some (true, after)
    → IsSpent i.token_id after
reset_password-IsSpent i hash db after u h = IsSpent-of_tokens i.token_id after (λ q j e.
    rw (reset_tokens i hash db after h)
      (used_up reset_password q i j db.tokens u (reset_used i hash db after h) e))
