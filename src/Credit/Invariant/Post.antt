-- ===== src/Credit/Invariant/Post.antt =====
-- A transaction of the repository updates one user's row and adds one row to the ledger.
use graph_node_be.Common.{◌≡◌, true, false, none, some, ◌∷◌, String, arith, Bool-cases, inl, inr}
use graph_node_be.Common.Int.{pos, ◌+ℤ◌, ◌-ℤ◌, ◌≤ℤ◌, int_laws}
use graph_node_be.Common.Text.{◌==◌, eq_iff, eq_refl}
use graph_node_be.Billing.Types.{is_hold, is_settlement}
use graph_node_be.Store.Rows.{CreditBalanceRow, CreditTransactionRow, Database}
use graph_node_be.Credit.Tables.{
  find_balance, update_rows, find_balance-update_rows, find_hold, is_settled,
}
use graph_node_be.Credit.Ledger.{outstanding, IsEntry}
use graph_node_be.Credit.Ledger.Rows.{outstanding_neutral, outstanding_hold, outstanding_settlement}
use graph_node_be.Credit.Invariant.{Matches, IsConsistent}

abbrev pub post :
    Database → String → (CreditBalanceRow → CreditBalanceRow) → CreditTransactionRow → Database
post d u f r = record d { balances = update_rows u f d.balances; transactions = r ∷ d.transactions }

module _ (d : Database) (u : String) (f : CreditBalanceRow → CreditBalanceRow)
    (r : CreditTransactionRow) (b : CreditBalanceRow) (c : IsConsistent d)
    (found : find_balance u d.balances ≡ some b) where
  -- The update keeps the invariant where the user's new row matches the new ledger, and the new
  -- row of the ledger is about nobody else.
  pub post-IsConsistent :
      IsEntry r d.transactions
      → (f b).hold_amount ≡ outstanding u (r ∷ d.transactions)
      → (f b).hold_amount ≤ℤ (f b).balance
      → ((v : String)
          → (u == v) ≡ false
          → outstanding v (r ∷ d.transactions) ≡ outstanding v d.transactions)
      → IsConsistent (post d u f r)
  post-IsConsistent entry held covered others = record {
    ledger = (entry, c.ledger);
    balanced = λ v. elim (Bool-cases (u == v)) [
      | inl same ↦
          let e : u ≡ v = (eq_iff u v).0 same in
          rw (find_balance-update_rows, same, ← e, found) (held, covered)
      | inr other ↦ rw (find_balance-update_rows, other, others v other) (c.balanced v)
    ];
  }

  -- A row that is no HOLD and settles nothing, and an update that leaves `holdAmount` alone.
  pub post_neutral :
      is_hold r.type ≡ false
      → is_settlement r.type ≡ false
      → (f b).hold_amount ≡ b.hold_amount
      → b.hold_amount ≤ℤ (f b).balance
      → IsConsistent (post d u f r)
  post_neutral nh ns same covered =
      let (held, _) : Matches (some b) (outstanding u d.transactions) =
        rw found at (c.balanced u) in
      post-IsConsistent
        (record {
          amount_nonneg = λ h. cc;
          first_hold = λ t h. ground arith;
          first_settlement = λ t h. ground arith;
        })
        (rw (same, outstanding_neutral r d.transactions u ns nh) held) (rw same covered)
        (λ v _. outstanding_neutral r d.transactions v ns nh)

  -- A HOLD of a task that the ledger does not know, for credits that are available.
  pub post_hold :
      (t : String)
      → r.user_id ≡ u
      → r.task_id ≡ some t
      → is_hold r.type ≡ true
      → is_settlement r.type ≡ false
      → find_hold t d.transactions ≡ none
      → is_settled t d.transactions ≡ false
      → pos 0 ≤ℤ r.amount
      → (f b).hold_amount ≡ b.hold_amount +ℤ r.amount
      → (f b).hold_amount ≤ℤ (f b).balance
      → IsConsistent (post d u f r)
  post_hold t owner task hd ns unknown unsettled nonneg held covered =
      let (was, _) : Matches (some b) (outstanding u d.transactions) = rw found at (c.balanced u) in
      post-IsConsistent
        (record {
          amount_nonneg = λ _. nonneg;
          first_hold = λ x h. ground (arith, eq_iff t x);
          first_settlement = λ x h. ground arith;
        })
        (rw
          (held, was, outstanding_hold r d.transactions t u task hd ns unsettled, owner, eq_refl u))
        covered
        (λ v other.
          rw (outstanding_hold r d.transactions t v task hd ns unsettled, owner, other)
            (omega int_laws))

  -- The settlement of an unsettled HOLD: `holdAmount` falls by the amount of the HOLD, and the
  -- balance by no more than that.
  pub post_settle :
      (t : String) (h : CreditTransactionRow)
      → h.user_id ≡ u
      → r.task_id ≡ some t
      → is_hold r.type ≡ false
      → is_settlement r.type ≡ true
      → find_hold t d.transactions ≡ some h
      → is_settled t d.transactions ≡ false
      → (f b).hold_amount ≡ b.hold_amount -ℤ h.amount
      → (f b).hold_amount ≤ℤ (f b).balance
      → IsConsistent (post d u f r)
  post_settle t h owner task nh st held_by unsettled held covered =
      let (was, _) : Matches (some b) (outstanding u d.transactions) = rw found at (c.balanced u) in
      let freed = λ (v : String).
        outstanding_settlement r d.transactions t v h task st nh unsettled c.ledger held_by in
      post-IsConsistent
        (record {
          amount_nonneg = λ e. ground arith;
          first_hold = λ x e. ground arith;
          first_settlement = λ x e. ground (arith, eq_iff t x);
        })
        (rw (held, was, ← freed u, owner, eq_refl u) (omega int_laws)) covered
        (λ v other. rw (← freed v, owner, other) (omega int_laws))
