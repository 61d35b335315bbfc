-- ===== src/Credit/Workers/Safety.antt =====
-- What holds in every state that the workers can reach, in whatever order their steps come.
use graph_node_be.Common.{
  ℕ, ◌+◌, ◌≤◌, ◌≡◌, refl, false, some, List, [], ◌∷◌, ◌++◌, String, arith, Bool-cases, inl, inr,
  All, if◌then◌else◌,
}
use graph_node_be.Common.Int.{pos, ◌≤ℤ◌}
use graph_node_be.Store.Rows.{CreditTransactionRow, Database}
use graph_node_be.Credit.Tables.{settles, is_hold_of, find_hold, is_settled}
use graph_node_be.Credit.Repository.{
  create_balance, deduct_balance, hold_balance, refund_balance, refill_balance,
}
use graph_node_be.Credit.Ledger.{IsLedger}
use graph_node_be.Credit.Invariant.{IsConsistent}
use graph_node_be.Credit.Invariant.Transactions.{
  create_balance-IsConsistent, deduct_balance-IsConsistent, hold_balance-IsConsistent,
  refund_balance-IsConsistent, refill_balance-IsConsistent, commit_tx-IsConsistent,
  rollback_tx-IsConsistent,
}
use graph_node_be.Credit.Workers.{
  Ending, committing, rolling_back, Worker, System, settlement_of, after, Step, create, deduct,
  hold, refund, refill, read, settle, Reach, here, next,
}
use graph_node_be.Credit.Workers.Holds.{
  find_hold-create, find_hold-deduct, find_hold-hold, find_hold-refund, find_hold-refill,
  find_hold-settle,
}

-- How often a task has been settled.
unfoldable pub settlements : String → List CreditTransactionRow → ℕ
settlements t [] = 0
settlements t (r ∷ rs) = (if settles t r then 1 else 0) + settlements t rs

settlements_unsettled :
    (t : String) (rs : List CreditTransactionRow) → is_settled t rs ≡ false → settlements t rs ≡ 0
unfolding settlements is_settled
settlements_unsettled t [] h = refl
settlements_unsettled t (r ∷ rs) h = ground (arith, settlements_unsettled t rs)

settlements-le-one :
    (t : String) (rs : List CreditTransactionRow) → IsLedger rs → settlements t rs ≤ 1
unfolding settlements
settlements-le-one t [] l = omega arith
settlements-le-one t (r ∷ rs) (e, l) = elim (Bool-cases (settles t r)) [
  | inl new ↦ rw (new, settlements_unsettled t rs (e.first_settlement t new)) (omega arith)
  | inr old ↦ rw old (omega (arith, settlements-le-one t rs l))
]

pub find_hold_nonneg :
    (t : String) (rs : List CreditTransactionRow) (h : CreditTransactionRow)
    → IsLedger rs
    → find_hold t rs ≡ some h
    → pos 0 ≤ℤ h.amount
unfolding find_hold
find_hold_nonneg t [] h l e = cc
find_hold_nonneg t (r ∷ rs) h (entry, l) e = elim (Bool-cases (is_hold_of t r)) [
  | inl hit ↦ let same : r ≡ h = ground arith in rw (← same) (entry.amount_nonneg (ground arith))
  | inr miss ↦ find_hold_nonneg t rs h l (ground arith)
]

-- Each waiting worker holds a row that the ledger still shows for its task.
abbrev IsCurrent : Database → Worker → Type 0
IsCurrent d w = find_hold w.task d.transactions ≡ some w.hold_tx

pub record IsSafe (s : System) : Type 0 where
  pub consistent : IsConsistent s.db
  pub current : All (IsCurrent s.db) s.workers

All-IsCurrent :
    (d d' : Database) (ws : List Worker)
    → ((w : Worker) → IsCurrent d w → IsCurrent d' w)
    → All (IsCurrent d) ws
    → All (IsCurrent d') ws
All-IsCurrent d d' [] f h = tt
All-IsCurrent d d' (w ∷ ws) f (p, h) = (f w p, All-IsCurrent d d' ws f h)

All-remove :
    (d : Database) (ws vs : List Worker) (w : Worker)
    → All (IsCurrent d) (ws ++ w ∷ vs)
    → All (IsCurrent d) (ws ++ vs) × IsCurrent d w
All-remove d [] vs w (p, h) = (h, p)
All-remove d (v ∷ ws) vs w (p, h) = let (rest, q) = All-remove d ws vs w h in ((p, rest), q)

pub settlement_of-IsConsistent :
    (ending : Ending) (t : String) (h : CreditTransactionRow) (d : Database)
    → IsConsistent d
    → find_hold t d.transactions ≡ some h
    → IsConsistent (after (settlement_of ending t h) d)
settlement_of-IsConsistent committing t h d c held = commit_tx-IsConsistent t h d c held
settlement_of-IsConsistent rolling_back t h d c held =
    rollback_tx-IsConsistent t h d c held (find_hold_nonneg t d.transactions h c.ledger held)

-- A transaction that keeps the invariant and hides no HOLD keeps the state safe.
carry :
    {s : System} (d' : Database)
    → IsSafe s
    → IsConsistent d'
    → ((w : Worker) → IsCurrent s.db w → IsCurrent d' w)
    → IsSafe (record s { db = d' })
carry {s} d' safe c f = record {
  consistent = c;
  current = All-IsCurrent s.db d' s.workers f safe.current;
}

Step-IsSafe : {s s' : System} → Step s s' → IsSafe s → IsSafe s'
Step-IsSafe {s} (create u x plan from until nonneg e) safe = rw e (
    carry (after (create_balance u x plan from until) s.db) safe
      (create_balance-IsConsistent u x plan from until s.db safe.consistent nonneg)
      (λ w p. find_hold-create w.task w.hold_tx s.db p u x plan from until))
Step-IsSafe {s} (deduct u cost feature e) safe = rw e (
    carry (after (deduct_balance u cost feature) s.db) safe
      (deduct_balance-IsConsistent u cost feature s.db safe.consistent)
      (λ w p. find_hold-deduct w.task w.hold_tx s.db p u cost feature))
Step-IsSafe {s} (hold u cost feature t until fresh nonneg e) safe = rw e (
    carry (after (hold_balance u cost feature t until) s.db) safe
      (hold_balance-IsConsistent u cost feature t until s.db safe.consistent fresh nonneg)
      (λ w p. find_hold-hold w.task w.hold_tx s.db p u cost feature t until fresh))
Step-IsSafe {s} (refund u amount nonneg e) safe = rw e (
    carry (after (refund_balance u amount) s.db) safe
      (refund_balance-IsConsistent u amount s.db safe.consistent nonneg)
      (λ w p. find_hold-refund w.task w.hold_tx s.db p u amount))
Step-IsSafe {s} (refill u limit plan from until idle nonneg e) safe = rw e (
    carry (after (refill_balance u limit plan from until) s.db) safe
      (refill_balance-IsConsistent u limit plan from until s.db safe.consistent idle nonneg)
      (λ w p. find_hold-refill w.task w.hold_tx s.db p u limit plan from until))
Step-IsSafe {s} (read ending t h held unsettled e) safe =
    rw e (record { consistent = safe.consistent; current = (held, safe.current) })
Step-IsSafe {s} (settle ws w vs listed e) safe =
    let (rest, held) = All-remove s.db ws vs w (rw listed at safe.current) in
    let d' = after (settlement_of w.ending w.task w.hold_tx) s.db in
    rw e (record {
      consistent = settlement_of-IsConsistent w.ending w.task w.hold_tx s.db safe.consistent held;
      current =
          All-IsCurrent s.db d' (ws ++ vs)
            (λ v p. find_hold-settle v.task v.hold_tx s.db p w.ending w.task w.hold_tx) rest;
    })

Reach-IsSafe : {s s' : System} → IsSafe s → Reach s s' → IsSafe s'
Reach-IsSafe h here = h
Reach-IsSafe h (next r st) = Step-IsSafe st (Reach-IsSafe h r)

-- From a consistent database with no waiting worker, however the steps of the workers come one
-- after the other: every user's `holdAmount` is what the unsettled HOLDs of the ledger keep back
-- and is no more than the balance (a user with no row has no such HOLDs), and no task has been
-- settled twice, be it by a commit, a rollback or one of each. The steps place a HOLD under a new
-- task only, move no negative amounts, and refill a user only when no HOLD of the user is
-- unsettled.
pub workers_safe :
    {d : Database} {s : System}
    → IsConsistent d
    → Reach (record { db = d; workers = [] }) s
    → IsConsistent s.db × ((t : String) → settlements t s.db.transactions ≤ 1)
workers_safe c r =
    let safe = Reach-IsSafe (record { consistent = c; current = tt }) r in
    (safe.consistent, λ t. settlements-le-one t _ safe.consistent.ledger)
