-- ===== src/Auth/Service/Replies.antt =====
-- What the answer of a chain of calls satisfies.
use lovechapter.Prelude.{◌≡◌}
use mathlib.Core.Path.{subst}
use lovechapter.Auth.Tables.{Db}
use lovechapter.Auth.Service.{Reply, answer, error, Handler, then_do}

-- The answer, where there is one, satisfies a relation with the database after it.
abbrev pub Answers : {A : Type 0} → (A → Db → Type 0) → Reply A × Db → Type 0
Answers P (answer a, db) = P a db
Answers P (error e, db) = Unit

pub Answers-then :
    {A B : Type 0} (Q : A → Db → Type 0) (P : B → Db → Type 0) (m : Handler A) (k : A → Handler B)
    (db : Db)
    → Answers Q (m db)
    → ((a : A) (mid : Db) → Q a mid → Answers P (k a mid))
    → Answers P (then_do m k db)
Answers-then {A = A} Q P m k db hm hk = go (m db) hm
  where
    go : (r : Reply A × Db) → Answers Q r → Answers P (then_do (λ _. r) k db)
    go (answer a, mid) h = hk a mid h
    go (error e, mid) h = tt

pub Answers-map :
    {A : Type 0} (Q P : A → Db → Type 0) (r : Reply A × Db)
    → ((a : A) (db : Db) → Q a db → P a db)
    → Answers Q r
    → Answers P r
Answers-map Q P (answer a, db) w h = w a db h
Answers-map Q P (error e, db) w h = tt

-- A relation that all answers satisfy holds of a given one.
pub answered :
    {A : Type 0} (P : A → Db → Type 0) (r : Reply A × Db) (a : A) (db : Db)
    → Answers P r
    → ◌≡◌ {A = Reply A × Db} r (answer a, db)
    → P a db
answered P r a db h e = subst (Answers P) e h

-- Every answer satisfies the relation of being the answer.
pub Answers-any : {A : Type 0} (r : Reply A × Db) → Answers (λ _ _. Unit) r
Answers-any (answer a, db) = tt
Answers-any (error e, db) = tt
