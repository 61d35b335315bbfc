-- ===== src/Credit/Ledger/Rows.antt =====
-- The amount kept back after each kind of new row.
use graph_node_be.Common.{
  ◌≡◌, refl, ◌∙◌, Bool, true, false, ◌||◌, some, List, ◌∷◌, String, arith, if◌then◌else◌,
}
use graph_node_be.Common.Int.{pos, ◌+ℤ◌, ◌≤ℤ◌, int_laws}
use graph_node_be.Common.Text.{◌==◌, eq_refl}
use graph_node_be.Billing.Types.{is_hold, is_settlement}
use graph_node_be.Store.Rows.{CreditTransactionRow}
use graph_node_be.Credit.Tables.{find_hold, is_settled}
use graph_node_be.Credit.Ledger.{kept_back, outstanding_by, outstanding, IsLedger}
use graph_node_be.Credit.Ledger.Sums.{
  outstanding_by-ext, outstanding_by_nonneg, outstanding_by-settle,
}

pub outstanding_nonneg :
    (u : String) (rs : List CreditTransactionRow) → IsLedger rs → pos 0 ≤ℤ outstanding u rs
outstanding_nonneg u rs l = outstanding_by_nonneg (λ t. is_settled t rs) u rs l

module _ (r : CreditTransactionRow) (rs : List CreditTransactionRow) where
  is_settled-unsettling :
      is_settlement r.type ≡ false → (t : String) → is_settled t (r ∷ rs) ≡ is_settled t rs
  unfolding is_settled
  is_settled-unsettling h t = ground arith

  kept_back_none :
      (s : String → Bool) (u : String) → is_hold r.type ≡ false → kept_back s u r ≡ pos 0
  unfolding kept_back
  kept_back_none s u h = ground arith

  -- A row that is no HOLD and settles nothing changes nothing.
  pub outstanding_neutral :
      (u : String)
      → is_settlement r.type ≡ false
      → is_hold r.type ≡ false
      → outstanding u (r ∷ rs) ≡ outstanding u rs
  unfolding outstanding_by
  outstanding_neutral u ns nh =
      rw
        (
          kept_back_none (λ t. is_settled t (r ∷ rs)) u nh,
          outstanding_by-ext (λ t. is_settled t rs) (λ t. is_settled t (r ∷ rs)) u rs
              (is_settled-unsettling ns),
        )
        (omega int_laws)

  kept_back_new :
      (t u : String)
      → r.task_id ≡ some t
      → is_hold r.type ≡ true
      → is_settled t (r ∷ rs) ≡ false
      → kept_back (λ x. is_settled x (r ∷ rs)) u r ≡ (if r.user_id == u then r.amount else pos 0)
  unfolding kept_back
  kept_back_new t u task h unsettled = ground arith

  -- A HOLD of a task that is not settled keeps back its amount.
  pub outstanding_hold :
      (t u : String)
      → r.task_id ≡ some t
      → is_hold r.type ≡ true
      → is_settlement r.type ≡ false
      → is_settled t rs ≡ false
      → outstanding u (r ∷ rs) ≡ outstanding u rs +ℤ (if r.user_id == u then r.amount else pos 0)
  unfolding outstanding_by
  outstanding_hold t u task h ns unsettled =
      rw
        (
          kept_back_new t u task h (is_settled-unsettling ns t ∙ unsettled),
          outstanding_by-ext (λ x. is_settled x rs) (λ x. is_settled x (r ∷ rs)) u rs
              (is_settled-unsettling ns),
        )
        (omega int_laws)

  is_settled-settling :
      (t : String)
      → r.task_id ≡ some t
      → is_settlement r.type ≡ true
      → (x : String) → is_settled x (r ∷ rs) ≡ (t == x || is_settled x rs)
  unfolding is_settled
  is_settled-settling t task h x = ground arith

  -- A settlement of a task gives free what its HOLD kept back.
  pub outstanding_settlement :
      (t u : String) (h : CreditTransactionRow)
      → r.task_id ≡ some t
      → is_settlement r.type ≡ true
      → is_hold r.type ≡ false
      → is_settled t rs ≡ false
      → IsLedger rs
      → find_hold t rs ≡ some h
      → outstanding u (r ∷ rs) +ℤ (if h.user_id == u then h.amount else pos 0) ≡ outstanding u rs
  unfolding outstanding_by
  outstanding_settlement t u h task st nh unsettled l found =
      rw
        (
          kept_back_none (λ x. is_settled x (r ∷ rs)) u nh,
          ← outstanding_by-settle t (λ x. is_settled x rs) (λ x. is_settled x (r ∷ rs))
              (is_settled-settling t task st) unsettled u rs h l found,
        )
        (omega int_laws)

-- An unsettled HOLD is part of what is kept back of its user.
pub amount-le-outstanding :
    (t : String) (rs : List CreditTransactionRow) (h : CreditTransactionRow)
    → IsLedger rs
    → find_hold t rs ≡ some h
    → is_settled t rs ≡ false
    → h.amount ≤ℤ outstanding h.user_id rs
amount-le-outstanding t rs h l found unsettled =
    let s' : String → Bool = λ x. t == x || is_settled x rs in
    let freed =
      outstanding_by-settle t (λ x. is_settled x rs) s' (λ x. refl) unsettled h.user_id rs h l
        found in
    let nonneg = outstanding_by_nonneg s' h.user_id rs l in
    rw (← freed, eq_refl h.user_id) (omega int_laws)
