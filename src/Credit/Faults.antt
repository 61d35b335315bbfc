-- ===== src/Credit/Faults.antt =====
-- What the steps that the methods of the credit service share do to the invariant of the credit
-- tables, whichever database calls fail.
use graph_node_be.Credit.Settlement.{settle_hold}
use graph_node_be.Credit.Workers.{settlement_of, after, Ending}
use graph_node_be.Common.{
  ◌⊎◌, ℕ, ◌≡◌, Option, none, some, String, arith, Option-cases, Bool-cases, inl, inr,
}
use graph_node_be.Common.Int.{ℤ}
use graph_node_be.Billing.Types.{CreditFeature}
use graph_node_be.Billing.Config.{plan_credit_limits}
use graph_node_be.Store.Rows.{CreditBalanceRow, CreditTransactionRow, Database, UsageStatus}
use graph_node_be.Store.Effects.{insufficient_credit, later, World, call, fails, Error}
use graph_node_be.Store.Preserves.{
  bind-Preserves, Preserves, Commits, call-Preserves, pure-Preserves, raise-Preserves,
}
use graph_node_be.Credit.Workers.{Ending, committing, rolling_back, settlement_of, after}
use graph_node_be.Credit.Settlement.{settle_hold}
use graph_node_be.Credit.Tables.{find_hold, is_settled}
use graph_node_be.Credit.Repository.{
  commit_hold, rollback_hold, create_usage_log, find_balance_by_user_id, find_hold_by_task_id,
}
use graph_node_be.Credit.Service.{found_or_create, ensure_balance, insufficient_or_upstream}
use graph_node_be.Credit.Invariant.{IsConsistent}
use graph_node_be.Credit.Invariant.Transactions.{create_balance-IsConsistent}
use graph_node_be.Credit.Workers.Safety.{settlement_of-IsConsistent}

-- A statement that writes no credit table keeps the invariant.
pub log-Commits :
    (u : String) (feature : Option CreditFeature) (t : Option String) (used : ℤ)
    (status : UsageStatus)
    → Commits IsConsistent (create_usage_log u feature t used status)
unfolding create_usage_log
log-Commits u feature t used status = record {
  keeps = λ d c. record { ledger = c.ledger; balanced = c.balanced };
}

found_or_create-Preserves :
    (o : Option CreditBalanceRow) (u : String) (now : ℕ)
    → Preserves IsConsistent (found_or_create o u now)
unfolding plan_credit_limits
found_or_create-Preserves (some b) u now = pure-Preserves b
found_or_create-Preserves none u now =
    call-Preserves _
      (record { keeps = λ d c. create_balance-IsConsistent u _ _ _ _ d c (omega arith) })

pub ensure_balance-Preserves :
    (u : String) (now : ℕ) → Preserves IsConsistent (ensure_balance u now)
unfolding ensure_balance find_balance_by_user_id
ensure_balance-Preserves u now =
    bind-Preserves (call (find_balance_by_user_id u)) (λ o. found_or_create o u now)
      (call-Preserves (find_balance_by_user_id u) (record { keeps = λ d c. c }))
      (λ o. found_or_create-Preserves o u now)

-- What a settlement does to the database: nothing, or the transaction of a HOLD that is there.
pub settle_hold_cases :
    (ending : Ending) (t : String) (w : World)
    → ((settle_hold ending t w).1.db ≡ w.db)
      ⊎ ((h : CreditTransactionRow) × (find_hold t w.db.transactions ≡ some h)
          × ((settle_hold ending t w).1.db ≡ after (settlement_of ending t h) w.db))
unfolding commit_hold rollback_hold find_hold_by_task_id
settle_hold_cases committing t w = elim (Option-cases (find_hold t w.db.transactions)) [
  | inl missing ↦ inl (ground arith)
  | inr (h, held) ↦ elim (Bool-cases (fails w.faults)) [
    | inl failed ↦ inl (ground arith)
    | inr first ↦ elim (Bool-cases (fails (later w.faults))) [
      | inl failed ↦ inl (ground arith)
      | inr second ↦ elim (Bool-cases (is_settled t w.db.transactions)) [
        | inl settled ↦ inl (ground arith)
        | inr unsettled ↦ elim (Bool-cases (fails (later (later w.faults)))) [
          | inl failed ↦ inl (ground arith)
          | inr third ↦ inr (h, held, simp (first, held, second, unsettled, third))
        ]
      ]
    ]
  ]
]
settle_hold_cases rolling_back t w = elim (Option-cases (find_hold t w.db.transactions)) [
  | inl missing ↦ inl (ground arith)
  | inr (h, held) ↦ elim (Bool-cases (fails w.faults)) [
    | inl failed ↦ inl (ground arith)
    | inr first ↦ elim (Bool-cases (fails (later w.faults))) [
      | inl failed ↦ inl (ground arith)
      | inr second ↦ elim (Bool-cases (is_settled t w.db.transactions)) [
        | inl settled ↦ inl (ground arith)
        | inr unsettled ↦ elim (Bool-cases (fails (later (later w.faults)))) [
          | inl failed ↦ inl (ground arith)
          | inr third ↦ inr (h, held, simp (first, held, second, unsettled, third))
        ]
      ]
    ]
  ]
]

pub settle_hold-Preserves :
    (ending : Ending) (t : String) → Preserves IsConsistent (settle_hold ending t)
settle_hold-Preserves ending t = record {
  keeps = λ w c. elim (settle_hold_cases ending t w) [
    | inl same ↦ rw same c
    | inr (h, held, e) ↦ rw e (settlement_of-IsConsistent ending t h w.db c held)
  ];
}

pub handler-Preserves :
    {A : Type 0} {I : Database → Type 0} (e : Error)
    → Preserves I (insufficient_or_upstream {A = A} e)
handler-Preserves (insufficient_credit required left) = raise-Preserves _
handler-Preserves _ = raise-Preserves _
