-- ===== src/Store/Tx.antt =====
-- A transaction's body, statement by statement, and `TransactionService.run` of
-- src/modules/persistence/transaction.service.ts. Transactions that lock the same game row run one
-- after the other, so a body has the tables to itself.
use clu_chess.Base.{Bool, true, false, Option, none, some, Result, ok, err}
use clu_chess.Store.Rows.{Database}

-- `DatabaseErrorKind` of database-errors.ts; an error that carries no known code is `unknown`.
pub data DatabaseErrorKind : Type 0 where
  constraint retryable unavailable unique unknown : DatabaseErrorKind

-- How a statement ends: the body goes on, returns early, or throws.
pub data Flow (R A : Type 0) : Type 0 where
  next : A → Database → Flow R A
  returned : R → Database → Flow R A
  thrown : DatabaseErrorKind → Flow R A

abbrev pub Body : Type 0 → Type 0 → Type 0
Body R A = Database → Flow R A

abbrev pub bind : {R A B : Type 0} → Flow R A → (A → Body R B) → Flow R B
bind (next a db) f = f a db
bind (returned r db) f = returned r db
bind (thrown e) f = thrown e

infixl 5 ◌>>=◌ ◌>>◌
abbrev pub ◌>>=◌ : {R A B : Type 0} → Body R A → (A → Body R B) → Body R B
◌>>=◌ m f db = bind (m db) f

abbrev pub ◌>>◌ : {R B : Type 0} → Body R (Unit {0}) → Body R B → Body R B
m >> k = m >>= λ _. k

abbrev pub return : {R A : Type 0} → R → Body R A
return r db = returned r db

-- `if (test) return r;`
abbrev pub return_if : {R : Type 0} → Bool → R → Body R (Unit {0})
return_if true r db = returned r db
return_if false r db = next tt db

abbrev pub throw_if : {R : Type 0} → Bool → DatabaseErrorKind → Body R (Unit {0})
throw_if true e db = thrown e
throw_if false e db = next tt db

-- `if (x === null) return r;`, with `x` for what follows.
abbrev pub or_return : {R A : Type 0} → Option A → R → Body R A
or_return none r db = returned r db
or_return (some a) r db = next a db

-- A call that may throw, such as one of the domain's functions: within a transaction every error
-- but a `DatabaseError` becomes one of the kind `unknown`.
abbrev pub or_throw : {R E A : Type 0} → Result E A → Body R A
or_throw (ok a) db = next a db
or_throw (err _) db = thrown unknown

-- A query.
abbrev pub gets : {R A : Type 0} → (Database → A) → Body R A
gets f db = next (f db) db

-- A statement that writes.
abbrev pub modify : {R : Type 0} → (Database → Database) → Body R (Unit {0})
modify f db = next tt (f db)

-- A call of a method whose own `return` ends the method only.
abbrev pub caught : {R S : Type 0} → Flow R R → Flow S R
caught (next a db) = next a db
caught (returned a db) = next a db
caught (thrown e) = thrown e

abbrev pub call : {R S : Type 0} → Body R R → Body S R
call m db = caught (m db)

-- `run`: a body that throws leaves the tables as they were.
abbrev pub settle : {R : Type 0} → Database → Flow R R → Result DatabaseErrorKind R × Database
settle db (next r db') = (ok r, db')
settle db (returned r db') = (ok r, db')
settle db (thrown e) = (err e, db)

abbrev pub run_transaction :
    {R : Type 0} → Body R R → Database → Result DatabaseErrorKind R × Database
run_transaction m db = settle db (m db)
