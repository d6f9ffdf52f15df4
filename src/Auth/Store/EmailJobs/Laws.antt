-- ===== src/Auth/Store/EmailJobs/Laws.antt =====
-- The lease of a claimed job and later claims.
use lovechapter.Prelude.{ℕ, ◌<◌, ◌≡◌, false, List, [], ◌∷◌, arith, inl, inr, Bool-cases, All}
use lovechapter.Auth.Types.{EmailJobClaim}
use lovechapter.Auth.Tables.{EmailJob, Db, update_where, select_where}
use lovechapter.Auth.Store.EmailJobs.{
  is_claimable, claimable_jobs, has_id, lease_end, claim_job, claim_rows,
}

leased_not_claimable :
    (i : EmailJobClaim) (t : ℕ) (j : EmailJob)
    → t < lease_end i
    → is_claimable t (claim_job i j) ≡ false
unfolding is_claimable
leased_not_claimable i t j h = ground arith

-- Rows that the second claim sees have none of the identifiers of the first.
abbrev pub IsFree : List EmailJob → List EmailJob → Type 0
IsFree claimed jobs = All (λ j. has_id j.id claimed ≡ false) jobs

claim_rows-IsFree :
    (i : EmailJobClaim) (t : ℕ) (claimed jobs : List EmailJob)
    → t < lease_end i
    → IsFree claimed
        (select_where (is_claimable t) (update_where (λ j. has_id j.id claimed) (claim_job i) jobs))
claim_rows-IsFree i t claimed [] h = tt
claim_rows-IsFree i t claimed (j ∷ jobs) h = elim (Bool-cases (has_id j.id claimed)) [
  | inl hit ↦ rw (hit, leased_not_claimable i t j h) (claim_rows-IsFree i t claimed jobs h)
  | inr miss ↦ elim (Bool-cases (is_claimable t j)) [
    | inl free ↦ rw (miss, free) (miss, claim_rows-IsFree i t claimed jobs h)
    | inr busy ↦ rw (miss, busy) (claim_rows-IsFree i t claimed jobs h)
  ]
]

-- Until the lease of a claim ends, no other claim can take one of its jobs.
pub claim-IsFree :
    (i : EmailJobClaim) (t : ℕ) (db : Db)
    → t < lease_end i
    → IsFree
        (claimable_jobs i db.email_jobs)
        (select_where (is_claimable t) (claim_rows i db.email_jobs))
unfolding claim_rows
claim-IsFree i t db h = claim_rows-IsFree i t (claimable_jobs i db.email_jobs) db.email_jobs h
