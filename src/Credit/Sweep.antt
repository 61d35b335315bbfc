-- ===== src/Credit/Sweep.antt =====
-- `expireStaleHolds`: the hourly sweep settles every HOLD that has expired.
use graph_node_be.Credit.Workers.{after, rolling_back}
use graph_node_be.Credit.Faults.{settle_hold_cases}
use graph_node_be.Common.Text.{eq_iff, ◌==◌, eq_refl}
use graph_node_be.Credit.Tables.{
  is_hold_of, has_task, find_balance-update_rows, find_balance, find_hold, is_settled,
}
use graph_node_be.Credit.Service.{expire_stale_holds, expire_each, ignore, roll_back_task}
use graph_node_be.Store.Effects.{err, handle, Result, ok, World}
use graph_node_be.Common.{
  ap, ◌||◌, ℕ, ◌∷◌, List, arith, ◌∙◌, ◌⊎◌, refl, none, inr, inl, Option-cases, Bool-cases, false,
  true, some, ◌≡◌, [], Bool, String, Option,
}
use graph_node_be.Store.Rows.{CreditBalanceRow, CreditTransactionRow, Database}
use graph_node_be.Common.Int.{◌-ℤ◌}
use graph_node_be.Credit.Repository.{
  is_expired, find_expired_holds, expired_holds, rollback_tx, find_hold_by_task_id, rollback_hold,
}
use graph_node_be.Credit.Workers.Holds.{find_hold-settle}

-- The world when no call fails.
abbrev pub calm : Database → World
calm d = record { db = d; faults = [] }

-- Every HOLD belongs to a user with a balance row: the foreign key
-- `credit_transactions.user_id → credit_balances.user_id`.
abbrev pub HasOwners : Database → Type 0
HasOwners d =
    (t : String) (h : CreditTransactionRow)
    → find_hold t d.transactions ≡ some h
    → (b : CreditBalanceRow) × (find_balance h.user_id d.balances ≡ some b)

abbrev step : Option String → Database → Database
step o d = (roll_back_task o (calm d)).1.db

-- One round of the sweep ends well whatever it meets.
roll_back_task-calm :
    (o : Option String) (d : Database)
    → (b : Bool) × (roll_back_task o (calm d) ≡ (ok b, calm (step o d)))
unfolding rollback_hold find_hold_by_task_id rollback_tx find_hold is_settled
roll_back_task-calm none d = (false, refl)
roll_back_task-calm (some t) d = elim (Option-cases (find_hold t d.transactions)) [
  | inl missing ↦ (false, simp missing)
  | inr (h, held) ↦ elim (Bool-cases (is_settled t d.transactions)) [
    | inl settled ↦ (false, simp (held, settled))
    | inr unsettled ↦ elim (Option-cases (find_balance h.user_id d.balances)) [
      | inl missing ↦ (false, simp (held, unsettled, missing))
      | inr (b, found) ↦ (true, simp (held, unsettled, found))
    ]
  ]
]

step-settles :
    (t : String) (h : CreditTransactionRow) (d : Database)
    → HasOwners d
    → find_hold t d.transactions ≡ some h
    → is_settled t (step (some t) d).transactions ≡ true
unfolding rollback_hold find_hold_by_task_id rollback_tx is_settled find_hold
step-settles t h d owners held = elim (Bool-cases (is_settled t d.transactions)) [
  | inl settled ↦ simp (held, settled)
  | inr unsettled ↦ let (b, found) = owners t h held in simp (held, unsettled, found, eq_refl)
]

ignored_db : {A : Type 0} (a : A) (p : Result A × World) → (handle (ignore a) p).1.db ≡ p.1.db
ignored_db a (ok b, w) = refl
ignored_db a (err e, w) = refl

-- A round leaves the database alone, or runs the rollback of a HOLD that is there.
step_cases :
    (o : Option String) (d : Database)
    → (step o d ≡ d)
      ⊎ ((t : String) × (h : CreditTransactionRow) × (step o d ≡ after (rollback_tx t h) d))
step_cases none d = inl refl
step_cases (some t) d = elim (settle_hold_cases rolling_back t (calm d)) [
  | inl same ↦ inl (ignored_db false (rollback_hold t (calm d)) ∙ same)
  | inr (h, held, moved) ↦ inr (t, h, ignored_db false (rollback_hold t (calm d)) ∙ moved)
]

rollback_tx-is_settled :
    (t x : String) (h : CreditTransactionRow) (d : Database)
    → is_settled x d.transactions ≡ true
    → is_settled x (after (rollback_tx t h) d).transactions ≡ true
unfolding rollback_tx is_settled
rollback_tx-is_settled t x h d e = ground arith

-- A round never takes back a settlement, hides a HOLD, adds one, or removes a user's row.
step-is_settled :
    (o : Option String) (x : String) (d : Database)
    → is_settled x d.transactions ≡ true
    → is_settled x (step o d).transactions ≡ true
step-is_settled o x d e = elim (step_cases o d) [
  | inl same ↦ rw same e
  | inr (t, h, moved) ↦ rw moved (rollback_tx-is_settled t x h d e)
]

step-find_hold :
    (o : Option String) (x : String) (h : CreditTransactionRow) (d : Database)
    → find_hold x d.transactions ≡ some h
    → find_hold x (step o d).transactions ≡ some h
step-find_hold o x h d e = elim (step_cases o d) [
  | inl same ↦ rw same e
  | inr (t, g, moved) ↦ rw moved (find_hold-settle x h d e rolling_back t g)
]

rollback_tx-find_hold :
    (t x : String) (g : CreditTransactionRow) (d : Database)
    → find_hold x (after (rollback_tx t g) d).transactions ≡ find_hold x d.transactions
unfolding rollback_tx find_hold
rollback_tx-find_hold t x g d = ground arith

rollback_tx-find_balance :
    (t u : String) (g : CreditTransactionRow) (d : Database) (b : CreditBalanceRow)
    → find_balance u d.balances ≡ some b
    → (b' : CreditBalanceRow) × (find_balance u (after (rollback_tx t g) d).balances ≡ some b')
unfolding rollback_tx
rollback_tx-find_balance t u g d b found = elim (Bool-cases (is_settled t d.transactions)) [
  | inl settled ↦ (b, rw (settled, after) found)
  | inr unsettled ↦ elim (Option-cases (find_balance g.user_id d.balances)) [
    | inl missing ↦ (b, rw (unsettled, missing, after) found)
    | inr (c, owner) ↦ elim (Bool-cases (g.user_id == u)) [
      | inl same ↦ (
        record b { hold_amount = b.hold_amount -ℤ g.amount },
        rw (unsettled, owner, after, find_balance-update_rows, same, found),
      )
      | inr other ↦ (b, rw (unsettled, owner, after, find_balance-update_rows, other, found))
    ]
  ]
]

step-HasOwners : (o : Option String) (d : Database) → HasOwners d → HasOwners (step o d)
step-HasOwners o d owners x h held = elim (step_cases o d) [
  | inl same ↦ rw same (owners x h (rw same at held))
  | inr (t, g, moved) ↦
      let was = rw (moved, rollback_tx-find_hold) at held in
      let (b, found) = owners x h was in rw moved (rollback_tx-find_balance t h.user_id g d b found)
]

-- The sweep over a list of HOLDs, when no call fails.
swept : List CreditTransactionRow → Database → Database
swept hs d = (expire_each hs (calm d)).1.db

expire_each-cons :
    (h : CreditTransactionRow) (hs : List CreditTransactionRow) (d : Database)
    → expire_each (h ∷ hs) (calm d) ≡ expire_each hs (calm (step h.task_id d))
unfolding expire_each
expire_each-cons h hs d = let (b, e) = roll_back_task-calm h.task_id d in rw e

swept-cons :
    (h : CreditTransactionRow) (hs : List CreditTransactionRow) (d : Database)
    → swept (h ∷ hs) d ≡ swept hs (step h.task_id d)
unfolding swept
swept-cons h hs d = ap (λ p. p.1.db) (expire_each-cons h hs d)

swept-nil : (d : Database) → swept [] d ≡ d
unfolding swept expire_each
swept-nil d = refl

expire_each-ok :
    (hs : List CreditTransactionRow) (d : Database) → (expire_each hs (calm d)).0 ≡ ok tt
expire_each-ok [] d = unfold expire_each in refl
expire_each-ok (h ∷ hs) d = rw expire_each-cons (expire_each-ok hs (step h.task_id d))

swept-is_settled :
    (hs : List CreditTransactionRow) (x : String) (d : Database)
    → is_settled x d.transactions ≡ true
    → is_settled x (swept hs d).transactions ≡ true
swept-is_settled [] x d e = rw swept-nil e
swept-is_settled (h ∷ hs) x d e =
    rw swept-cons (swept-is_settled hs x (step h.task_id d) (step-is_settled h.task_id x d e))

abbrev lists : String → List CreditTransactionRow → Bool
lists t [] = false
lists t (r ∷ rs) = has_task t r || lists t rs

task_of : (t : String) (r : CreditTransactionRow) → has_task t r ≡ true → r.task_id ≡ some t
task_of t r e = elim (Option-cases r.task_id) [
  | inl without ↦ ground arith
  | inr (x, task) ↦ ground (arith, eq_iff x t)
]

swept-settles :
    (hs : List CreditTransactionRow) (t : String) (h : CreditTransactionRow) (d : Database)
    → HasOwners d
    → lists t hs ≡ true
    → find_hold t d.transactions ≡ some h
    → is_settled t (swept hs d).transactions ≡ true
swept-settles [] t h d owners listed held = cc
swept-settles (r ∷ hs) t h d owners listed held = elim (Bool-cases (has_task t r)) [
  | inl hit ↦ rw swept-cons (
      swept-is_settled hs t (step r.task_id d)
        (rw (task_of t r hit) (step-settles t h d owners held)))
  | inr miss ↦ rw swept-cons (
      swept-settles hs t h (step r.task_id d) (step-HasOwners r.task_id d owners) (ground arith)
        (step-find_hold r.task_id t h d held))
]

expired_holds-lists :
    (now : ℕ) (t : String) (rs : List CreditTransactionRow) (h : CreditTransactionRow)
    → find_hold t rs ≡ some h
    → is_expired now h ≡ true
    → lists t (expired_holds now rs) ≡ true
unfolding find_hold expired_holds
expired_holds-lists now t [] h held e = cc
expired_holds-lists now t (r ∷ rs) h held e = elim (Bool-cases (is_hold_of t r)) [
  | inl hit ↦
      let same : r ≡ h = ground arith in
      let due : is_expired now r ≡ true = rw same e in
      let task : has_task t r ≡ true = ground arith in rw (due, task)
  | inr miss ↦ ground (arith, expired_holds-lists now t rs h)
]

-- When no call fails, `expireStaleHolds` ends well and leaves no expired HOLD open: the HOLD of a
-- task `t` whose `expiresAt` is not after `now` is settled, by the sweep or before it. Every HOLD is
-- taken to belong to a user with a balance row, as the foreign key demands.
pub expire_stale_holds-settles :
    (now : ℕ) (d : Database) (t : String) (h : CreditTransactionRow)
    → HasOwners d
    → find_hold t d.transactions ≡ some h
    → is_expired now h ≡ true
    → ((expire_stale_holds now (calm d)).0 ≡ ok tt)
      × (is_settled t (expire_stale_holds now (calm d)).1.db.transactions ≡ true)
unfolding expire_stale_holds find_expired_holds swept
expire_stale_holds-settles now d t h owners held due = (
  expire_each-ok (expired_holds now d.transactions) d,
  swept-settles (expired_holds now d.transactions) t h d owners
      (expired_holds-lists now t d.transactions h held due) held,
)
