-- ===== src/Credit/Ledger/Sums.antt =====
-- How a new row changes the amount that is kept back.
use graph_node_be.Common.{
  ◌≡◌, refl, ap, Bool, true, false, ◌&&◌, ◌||◌, none, some, List, [], ◌∷◌, String, if◌then◌else◌,
  arith, Option-cases, Bool-cases, inl, inr,
}
use mathlib.Core.Path.{fun_ext}
use graph_node_be.Common.Int.{pos, ◌+ℤ◌, ◌≤ℤ◌, int_laws}
use graph_node_be.Common.Text.{◌==◌, eq_iff}
use graph_node_be.Billing.Types.{is_hold}
use graph_node_be.Store.Rows.{CreditTransactionRow}
use graph_node_be.Credit.Tables.{has_task, find_hold}
use graph_node_be.Credit.Ledger.{kept_back, outstanding_by, IsLedger}

pub outstanding_by-ext :
    (s s' : String → Bool) (u : String) (rs : List CreditTransactionRow)
    → ((t : String) → s' t ≡ s t)
    → outstanding_by s' u rs ≡ outstanding_by s u rs
outstanding_by-ext s s' u rs h = ap (λ f. outstanding_by f u rs) (fun_ext h)

kept_back_nonneg :
    (s : String → Bool) (u : String) (r : CreditTransactionRow)
    → (is_hold r.type ≡ true → pos 0 ≤ℤ r.amount)
    → pos 0 ≤ℤ kept_back s u r
unfolding kept_back
kept_back_nonneg s u r h = ground arith

pub outstanding_by_nonneg :
    (s : String → Bool) (u : String) (rs : List CreditTransactionRow)
    → IsLedger rs
    → pos 0 ≤ℤ outstanding_by s u rs
unfolding outstanding_by
outstanding_by_nonneg s u [] l = omega arith
outstanding_by_nonneg s u (r ∷ rs) (e, l) =
    omega (int_laws, kept_back_nonneg s u r e.amount_nonneg, outstanding_by_nonneg s u rs l)

-- `s'` counts `t` as settled, and all that `s` does.
module _ (t : String) (s s' : String → Bool) (adds : (x : String) → s' x ≡ (t == x || s x))
    (opened : s t ≡ false) where
  kept_back_other :
      (u : String) (r : CreditTransactionRow)
      → has_task t r && is_hold r.type ≡ false
      → kept_back s' u r ≡ kept_back s u r
  unfolding kept_back
  kept_back_other u r h = elim (Option-cases r.task_id) [
    | inl without ↦ ground arith
    | inr (x, e) ↦ ground (arith, adds x, eq_iff x t, eq_iff t x)
  ]

  kept_back_settled :
      (u : String) (r : CreditTransactionRow)
      → has_task t r && is_hold r.type ≡ true
      → (kept_back s' u r ≡ pos 0)
        × (kept_back s u r ≡ (if r.user_id == u then r.amount else pos 0))
  unfolding kept_back
  kept_back_settled u r h = elim (Option-cases r.task_id) [
    | inl without ↦ ground arith
    | inr (x, e) ↦ ground (arith, adds x, eq_iff x t, eq_iff t x)
  ]

  -- Older rows with no HOLD of the task keep back what they did.
  pub outstanding_by_without :
      (u : String) (rs : List CreditTransactionRow)
      → find_hold t rs ≡ none
      → outstanding_by s' u rs ≡ outstanding_by s u rs
  unfolding outstanding_by find_hold
  outstanding_by_without u [] h = refl
  outstanding_by_without u (r ∷ rs) h = elim (Bool-cases (has_task t r && is_hold r.type)) [
    | inl hit ↦ ground arith
    | inr miss ↦ ground (arith, kept_back_other u r miss, outstanding_by_without u rs)
  ]

  -- Settling a task gives free what its HOLD kept back, of the HOLD's user and of nobody else.
  pub outstanding_by-settle :
      (u : String) (rs : List CreditTransactionRow) (h : CreditTransactionRow)
      → IsLedger rs
      → find_hold t rs ≡ some h
      → outstanding_by s' u rs +ℤ (if h.user_id == u then h.amount else pos 0)
        ≡ outstanding_by s u rs
  unfolding outstanding_by find_hold
  outstanding_by-settle u [] h l e = cc
  outstanding_by-settle u (r ∷ rs) h (entry, l) e =
      elim (Bool-cases (has_task t r && is_hold r.type)) [
        | inl hit ↦
            let same : r ≡ h = ground arith in
            let (closed, was_open) = kept_back_settled u r hit in
            rw (closed, was_open, outstanding_by_without u rs (entry.first_hold t hit), ← same)
              (omega int_laws)
        | inr miss ↦
            rw (kept_back_other u r miss, ← outstanding_by-settle u rs h l (ground arith))
              (omega int_laws)
      ]
