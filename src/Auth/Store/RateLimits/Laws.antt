-- ===== src/Auth/Store/RateLimits/Laws.antt =====
-- How many attempts a bucket lets through.
use lovechapter.Prelude.{
  ℕ, suc, ◌+◌, ◌-◌, ◌≤◌, ◌≡◌, refl, Bool, true, false, List, [], ◌∷◌, if◌then◌else◌, ltb, min,
  arith, inl, inr, Bool-cases,
}
use lovechapter.Auth.Types.{RateLimitAttempt}
use lovechapter.Auth.Tables.{RateLimit, Db}
use lovechapter.Auth.Store.RateLimits.{
  Bucket, same_key, bucket_of, bucket_of_row, consume_row, consume_rate_limit, consume_all,
}

-- How often a bucket has been counted; 0 if it has no row.
abbrev pub count_in : Bucket → List RateLimit → ℕ
count_in k [] = 0
count_in k (r ∷ rows) =
    let rest = count_in k rows in if same_key k (bucket_of_row r) then r.count else rest

same_key_refl : (k : Bucket) → same_key k k ≡ true
unfolding same_key
same_key_refl (s, h, t) = ground arith

-- A row lies in one bucket.
same_key-other :
    (k b r : Bucket) → same_key k b ≡ false → same_key b r ≡ true → same_key k r ≡ false
unfolding same_key
same_key-other (s, h, t) (s', h', t') (s'', h'', t'') = ground arith

consume_row_self :
    (a : RateLimitAttempt) (rows : List RateLimit)
    → 1 ≤ a.limit
    → let n = count_in (bucket_of a) rows in
      ((consume_row a rows).0 ≡ ltb n a.limit)
      × (count_in (bucket_of a) (consume_row a rows).1 ≡ (if ltb n a.limit then n + 1 else n))
unfolding consume_row
consume_row_self a [] h = ground (arith, same_key_refl (bucket_of a))
consume_row_self a (r ∷ rows) h = elim (Bool-cases (same_key (bucket_of a) (bucket_of_row r))) [
  | inl same ↦ ground arith
  | inr other ↦ ground (arith, consume_row_self a rows h)
]

consume_row-other :
    (k : Bucket) (b : RateLimitAttempt) (rows : List RateLimit)
    → same_key k (bucket_of b) ≡ false
    → count_in k (consume_row b rows).1 ≡ count_in k rows
unfolding consume_row
consume_row-other k b [] h = ground arith
consume_row-other k b (r ∷ rows) h = elim (Bool-cases (same_key (bucket_of b) (bucket_of_row r))) [
  | inl same ↦ ground (arith, same_key-other k (bucket_of b) (bucket_of_row r) h same)
  | inr other ↦ ground (arith, consume_row-other k b rows h)
]

eq_of_same_key : (k b : Bucket) → same_key k b ≡ true → k ≡ b
unfolding same_key
eq_of_same_key (s, h, t) (s', h', t') e = ground arith

-- The attempts of a bucket, and those of them that were accepted.
abbrev pub attempts_in : Bucket → List RateLimitAttempt → ℕ
attempts_in k [] = 0
attempts_in k (a ∷ l) =
    let rest = attempts_in k l in if same_key k (bucket_of a) then suc rest else rest

abbrev pub accepted_in : Bucket → List RateLimitAttempt → List Bool → ℕ
accepted_in k [] answers = 0
accepted_in k (a ∷ l) [] = 0
accepted_in k (a ∷ l) (false ∷ answers) = accepted_in k l answers
accepted_in k (a ∷ l) (true ∷ answers) =
    let rest = accepted_in k l answers in if same_key k (bucket_of a) then suc rest else rest

-- Every attempt of the bucket comes with the same limit.
abbrev pub HasLimit : Bucket → ℕ → List RateLimitAttempt → Type 0
HasLimit k limit [] = Unit
HasLimit k limit (a ∷ l) = (same_key k (bucket_of a) ≡ true → a.limit ≡ limit) × HasLimit k limit l

accepted_in_self :
    (k : Bucket) (a : RateLimitAttempt) (l : List RateLimitAttempt) (b : Bool) (answers : List Bool)
    → same_key k (bucket_of a) ≡ true
    → accepted_in k (a ∷ l) (b ∷ answers)
      ≡ (if b then suc (accepted_in k l answers) else accepted_in k l answers)
accepted_in_self k a l true answers e = rw e
accepted_in_self k a l false answers e = refl

accepted_in-other :
    (k : Bucket) (a : RateLimitAttempt) (l : List RateLimitAttempt) (b : Bool) (answers : List Bool)
    → same_key k (bucket_of a) ≡ false
    → accepted_in k (a ∷ l) (b ∷ answers) ≡ accepted_in k l answers
accepted_in-other k a l true answers e = rw e
accepted_in-other k a l false answers e = refl

consume_row-at :
    (k : Bucket) (limit : ℕ) (a : RateLimitAttempt) (rows : List RateLimit)
    → same_key k (bucket_of a) ≡ true
    → a.limit ≡ limit
    → 1 ≤ limit
    → let n = count_in k rows in
      ((consume_row a rows).0 ≡ ltb n limit)
      × (count_in k (consume_row a rows).1 ≡ (if ltb n limit then n + 1 else n))
consume_row-at k limit a rows same e lo =
    let lo' : 1 ≤ a.limit = omega arith in
    rw (eq_of_same_key k (bucket_of a) same, ← e) (consume_row_self a rows lo')

-- One attempt of the bucket: whether it is accepted, what is counted, and what is left behind it.
accept_step :
    (limit n counted m accepted : ℕ) (b : Bool)
    → b ≡ ltb n limit
    → counted ≡ (if ltb n limit then n + 1 else n)
    → accepted ≡ min (limit - counted) m
    → (if b then suc accepted else accepted) ≡ min (limit - n) (suc m)
accept_step limit n counted m accepted b p q r = ground arith

-- However attempts on many buckets are interleaved, a bucket whose attempts all come with the limit
-- `limit` accepts exactly the smaller of the number of its attempts and what its count leaves of
-- the limit, so never more than `limit` in all.
pub consume_all-accepts :
    (k : Bucket) (limit : ℕ) (attempts : List RateLimitAttempt) (db : Db)
    → 1 ≤ limit
    → HasLimit k limit attempts
    → accepted_in k attempts (consume_all attempts db).0
      ≡ min (limit - count_in k db.rate_limits) (attempts_in k attempts)
unfolding consume_all consume_rate_limit
consume_all-accepts k limit [] db lo h = omega arith
consume_all-accepts k limit (a ∷ l) db lo h = elim (Bool-cases (same_key k (bucket_of a))) [
  | inl same ↦
      let (answer, counted) = consume_row-at k limit a db.rate_limits same (h.0 same) lo in
      let rest = consume_all-accepts k limit l (consume_rate_limit a db).1 lo h.1 in
      rw (same, accepted_in_self k a l (consume_rate_limit a db).0 _ same)
        (accept_step limit (count_in k db.rate_limits) _ (attempts_in k l) _ _ answer counted rest)
  | inr other ↦
      let rest = consume_all-accepts k limit l (consume_rate_limit a db).1 lo h.1 in
      rw (other, accepted_in-other k a l (consume_rate_limit a db).0 _ other)
        (rw (consume_row-other k a db.rate_limits other) at rest)
]
