-- ===== src/Credit/CycleRefill.antt =====
-- `refillAllActiveSubscribers`: no cycle that had ended stays so.
use graph_node_be.Common.{
  ◌≡◌, refl, ℕ, ◌+◌, ◌≤◌, ◌<◌, Bool, true, false, some, String, List, [], ◌∷◌, arith, leb,
  Bool-cases, Option-cases, inl, inr, ◌||◌,
}
use graph_node_be.Common.Int.{pos}
use graph_node_be.Common.Text.{◌==◌, eq_refl, eq_iff}
use graph_node_be.Billing.Types.{PlanType}
use graph_node_be.Billing.Config.{plan_credit_limits, billing_cycle_days, days_ms}
use graph_node_be.Store.Rows.{CreditBalanceRow, Database}
use graph_node_be.Store.Effects.{catch, ok}
use graph_node_be.Credit.Tables.{find_balance, find_balance-update_rows}
use graph_node_be.Credit.Repository.{refill_balance, expired_cycles, find_users_with_expired_cycle}
use graph_node_be.Credit.Service.{ignore, refill, refill_each, refill_all_active_subscribers}
use graph_node_be.Credit.Sweep.{calm}
use graph_node_be.Credit.Workers.{after}

-- The database after one round.
abbrev round : String → PlanType → ℕ → Database → Database
round u plan n d =
    after (refill_balance u (pos (plan_credit_limits plan)) plan n (n + days_ms billing_cycle_days))
      d

round-ends :
    (u : String) (plan : PlanType) (n : ℕ) (d : Database)
    → catch (refill u plan n) (ignore tt) (calm d) ≡ (ok tt, calm (round u plan n d))
unfolding refill refill_balance find_balance
round-ends u plan n d = elim (Option-cases (find_balance u d.balances)) [
  | inl missing ↦ simp missing
  | inr (b, found) ↦ simp found
]

abbrev renewed : CreditBalanceRow → PlanType → ℕ → CreditBalanceRow
renewed b plan n = record b {
  balance = pos (plan_credit_limits plan);
  hold_amount = pos 0;
  plan_type = plan;
  cycle_start = n;
  cycle_end = n + days_ms billing_cycle_days;
}

-- User `u` has a row whose cycle ends after `now`.
abbrev pub IsRenewed : String → ℕ → Database → Type 0
IsRenewed u now d =
    (b : CreditBalanceRow) × (find_balance u d.balances ≡ some b) × (now < b.cycle_end)

abbrev HasRow : String → Database → Type 0
HasRow u d = (b : CreditBalanceRow) × (find_balance u d.balances ≡ some b)

round-renews :
    (u : String) (plan : PlanType) (n now : ℕ) (d : Database)
    → now ≤ n
    → HasRow u d
    → IsRenewed u now (round u plan n d)
unfolding refill_balance find_balance plan_credit_limits
round-renews u plan n now d later_reading (b, found) = (
  record b {
    balance = pos (plan_credit_limits plan);
    hold_amount = pos 0;
    plan_type = plan;
    cycle_start = n;
    cycle_end = n + days_ms billing_cycle_days;
  },
  simp (found, find_balance-update_rows, eq_refl),
  omega arith,
)

round-HasRow :
    (u v : String) (plan : PlanType) (n : ℕ) (d : Database)
    → HasRow u d
    → HasRow u (round v plan n d)
unfolding refill_balance find_balance plan_credit_limits
round-HasRow u v plan n d (b, found) = elim (Option-cases (find_balance v d.balances)) [
  | inl missing ↦ (b, simp (missing, found))
  | inr (c, held) ↦ elim (Bool-cases (v == u)) [
    | inl same ↦ (renewed b plan n, simp (held, find_balance-update_rows, same, found))
    | inr other ↦ (b, simp (held, find_balance-update_rows, other, found))
  ]
]

round-IsRenewed :
    (u v : String) (plan : PlanType) (n now : ℕ) (d : Database)
    → now ≤ n
    → IsRenewed u now d
    → IsRenewed u now (round v plan n d)
unfolding refill_balance find_balance plan_credit_limits
round-IsRenewed u v plan n now d later_reading (b, found, current) =
    elim (Option-cases (find_balance v d.balances)) [
      | inl missing ↦ (b, simp (missing, found), current)
      | inr (c, held) ↦ elim (Bool-cases (v == u)) [
        | inl same ↦
            (renewed b plan n, simp (held, find_balance-update_rows, same, found), omega arith)
        | inr other ↦ (b, simp (held, find_balance-update_rows, other, found), current)
      ]
    ]

-- A user of the list is renewed by the loop, and one that is renewed stays so.
refill_each-keeps :
    (u : String) (users : List (String × PlanType)) (clock : ℕ → ℕ) (now : ℕ) (d : Database)
    → ((i : ℕ) → now ≤ clock i)
    → IsRenewed u now d
    → (d' : Database) × (refill_each users clock (calm d) ≡ (ok tt, calm d')) × IsRenewed u now d'
unfolding refill_each
refill_each-keeps u [] clock now d on h = (d, refl, h)
refill_each-keeps u ((v, plan) ∷ users) clock now d on h =
    let (d', ran, kept) =
      refill_each-keeps u users (λ i. clock (i + 1)) now (round v plan (clock 0) d)
        (λ i. on (i + 1)) (round-IsRenewed u v plan (clock 0) now d (on 0) h) in
    (d', simp (round-ends, ran), kept)

abbrev lists_user : String → List (String × PlanType) → Bool
lists_user u [] = false
lists_user u ((v, plan) ∷ users) = v == u || lists_user u users

refill_each-renews :
    (u : String) (users : List (String × PlanType)) (clock : ℕ → ℕ) (now : ℕ) (d : Database)
    → ((i : ℕ) → now ≤ clock i)
    → HasRow u d
    → lists_user u users ≡ true
    → (d' : Database) × (refill_each users clock (calm d) ≡ (ok tt, calm d')) × IsRenewed u now d'
unfolding refill_each
refill_each-renews u [] clock now d on h e = (d, refl, (h.0, h.1, ground arith))
refill_each-renews u ((v, plan) ∷ users) clock now d on h e = elim (Bool-cases (v == u)) [
  | inl same ↦
      let equal : v ≡ u = ground (arith, eq_iff v u) in
      let (d', ran, kept) =
        refill_each-keeps u users (λ i. clock (i + 1)) now (round v plan (clock 0) d)
          (λ i. on (i + 1)) (rw equal (round-renews u plan (clock 0) now d (on 0) h)) in
      (d', simp (round-ends, ran), kept)
  | inr other ↦
      let (d', ran, kept) =
        refill_each-renews u users (λ i. clock (i + 1)) now (round v plan (clock 0) d)
          (λ i. on (i + 1)) (round-HasRow u v plan (clock 0) d h) (ground arith) in
      (d', simp (round-ends, ran), kept)
]

expired_cycles-lists :
    (u : String) (now : ℕ) (rows : List CreditBalanceRow) (b : CreditBalanceRow)
    → find_balance u rows ≡ some b
    → leb b.cycle_end now ≡ true
    → lists_user u (expired_cycles now rows) ≡ true
unfolding expired_cycles find_balance
expired_cycles-lists u now [] b h e = cc
expired_cycles-lists u now (r ∷ rows) b h e = elim (Bool-cases (r.user_id == u)) [
  | inl hit ↦
      let same : r ≡ b = ground arith in
      let due : leb r.cycle_end now ≡ true = rw same e in simp (due, hit)
  | inr miss ↦ ground (arith, expired_cycles-lists u now rows b)
]

-- When no call fails, `refillAllActiveSubscribers` ends well, and a user whose cycle had ended at
-- `now`, the reading of the query, has one afterwards that ends after `now`. The readings of the
-- refills are not before `now`.
pub refill_all_active_subscribers-renews :
    (u : String) (now : ℕ) (clock : ℕ → ℕ) (d : Database) (b : CreditBalanceRow)
    → ((i : ℕ) → now ≤ clock i)
    → find_balance u d.balances ≡ some b
    → leb b.cycle_end now ≡ true
    → let (r, w) = refill_all_active_subscribers now clock (calm d) in
      (r ≡ ok tt) × IsRenewed u now w.db
unfolding refill_all_active_subscribers find_users_with_expired_cycle
refill_all_active_subscribers-renews u now clock d b on found due =
    let users = expired_cycles now d.balances in
    let (d', ran, kept) =
      refill_each-renews u users clock now d on (b, found)
        (expired_cycles-lists u now d.balances b found due) in
    rw ran (refl, kept)
