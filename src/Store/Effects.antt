-- ===== src/Store/Effects.antt =====
-- Effects. A database call or an asynchronous method is a function of the state that ends in a
-- value or in a thrown error. `Tx` runs on the database alone and stands for one statement or one
-- `prisma.$transaction`. `Action` runs on the world: the database, and for each call still to come
-- whether it fails (no connection, serialization failure, time-out before the effect). A call that
-- fails is taken to have had no effect: one that takes effect while its acknowledgement is lost is
-- not covered.
use graph_node_be.Common.{Bool, true, false, Option, none, some, List, [], ◌∷◌}
use graph_node_be.Common.{if◌then◌else◌}
use graph_node_be.Common.Int.{ℤ}
use graph_node_be.Store.Rows.{Database}

-- src/shared/errors/domain.ts, with the details that the code attaches; `database` is an error that
-- the client throws, `unknown_commit` one of those with the label UnknownTransactionCommitResult, and
-- `type_error` one that the language throws.
pub data Error : Type 0 where
  insufficient_credit : ℤ → ℤ → Error
  upstream : Error
  not_found : Error
  conflict : Error
  validation : Error
  rate_limited : Error
  database : Error
  unknown_commit : Error
  type_error : Error

pub data Result (A : Type 0) : Type 0 where
  ok : A → Result A
  err : Error → Result A

abbrev pub M : Type 0 → Type 0 → Type 0
M S A = S → Result A × S

abbrev pub Tx : Type 0 → Type 0
Tx = M Database

pub record WorldOf (D : Type 0) : Type 0 where
  pub db : D
  pub faults : List Bool

abbrev pub World : Type 0
World = WorldOf Database

abbrev pub Action : Type 0 → Type 0
Action = M World

module _ {S A : Type 0} where
  abbrev pub pure : A → M S A
  pure a s = (ok a, s)

  abbrev pub raise : Error → M S A
  raise e s = (err e, s)

  abbrev pub gets : (S → A) → M S A
  gets f s = (ok (f s), s)

abbrev pub modify : {S : Type 0} → (S → S) → M S (Unit {0})
modify f s = (ok tt, f s)

abbrev pub raise_if : {S : Type 0} → Bool → Error → M S (Unit {0})
raise_if true e s = (err e, s)
raise_if false e s = (ok tt, s)

-- What follows a call, by how it ended.
abbrev pub continue : {S A B : Type 0} → (A → M S B) → Result A × S → Result B × S
continue f (ok a, s) = f a s
continue f (err e, s) = (err e, s)

infixl 5 ◌>>=◌ ◌>>◌
abbrev pub ◌>>=◌ : {S A B : Type 0} → M S A → (A → M S B) → M S B
◌>>=◌ m f s = continue f (m s)

abbrev pub ◌>>◌ : {S A B : Type 0} → M S A → M S B → M S B
m >> k = m >>= λ _. k

abbrev pub handle : {S A : Type 0} → (Error → M S A) → Result A × S → Result A × S
handle h (ok a, s) = (ok a, s)
handle h (err e, s) = h e s

-- `try { m } catch (e) { h e }`
abbrev pub catch : {S A : Type 0} → M S A → (Error → M S A) → M S A
catch m h s = handle h (m s)

-- A transaction that throws leaves the database as it was.
abbrev pub roll_back : {D A : Type 0} → D → Result A × D → Result A × D
roll_back d (ok a, d') = (ok a, d')
roll_back d (err e, d') = (err e, d)

abbrev pub fails : List Bool → Bool
fails [] = false
fails (b ∷ _) = b

abbrev pub later : List Bool → List Bool
later [] = []
later (_ ∷ fs) = fs

abbrev pub leave : {D A : Type 0} → List Bool → Result A × D → Result A × WorldOf D
leave fs (r, d) = (r, record { db = d; faults = fs })

-- One call of the database: it fails and changes nothing, or runs the transaction as a whole.
abbrev pub call : {D A : Type 0} → M D A → M (WorldOf D) A
call t w =
    leave (later w.faults)
      (if fails w.faults then (err database, w.db) else roll_back w.db (t w.db))

-- `o` or, where it is null, a throw.
abbrev pub or_raise : {S A : Type 0} → Option A → Error → M S A
or_raise none e = raise e
or_raise (some a) e = pure a
