-- ===== src/Webhook/Payload.antt =====
-- What src/core/services/WebhookProcessingService.ts reads from a payload. The currency and the
-- transaction id are left out: they are only stored.
use graph_node_be.Common.{ℕ, Bool}
use text.Mathlib.Text.{◌==◌, find?}
use Prim.Native.String.{slice, len}
use graph_node_be.Common.{◌+◌, if◌then◌else◌, none, ◌or_else◌, some, get_or, Option, String}
use graph_node_be.Common.Int.{ℤ, pos}
use graph_node_be.Store.Json.{Json, Fields, get, get_in, as_object}
use graph_node_be.Store.Effects.{type_error, database, M, pure, raise, ◌>>=◌}

-- `s.split(separator)[0]`
abbrev pub before : String → String → String
before separator s = elim (find? s separator) [ none ↦ s | some i ↦ slice s 0 i ]

-- `s.split(separator)[1]`
abbrev pub second : String → String → Option String
second separator s = elim (find? s separator) [
  | none ↦ none
  | some i ↦ some (before separator (slice s (i + len separator) (len s)))
]

-- `v?.split(…)…`: a value that is not null and no text has no method `split`, so the call throws.
abbrev pub split_with : {S : Type 0} → (String → Option String) → Option Json → M S (Option Json)
split_with part none = pure none
split_with part (some (Json.text s)) =
    pure (elim (part s) [ none ↦ none | some p ↦ some (Json.text p) ])
split_with part (some _) = raise type_error

-- `a ?? b`, where `b` is only computed when `a` is null.
abbrev pub or_compute : {S A : Type 0} → Option A → M S (Option A) → M S (Option A)
or_compute none m = m
or_compute (some a) m = pure (some a)

abbrev pub data_of : Fields → Option Fields
data_of payload = as_object (get "data" payload)

abbrev pub data_object_of : Fields → Option Fields
data_object_of payload = as_object (get_in "object" (data_of payload))

unfoldable pub extract_user_id : {S : Type 0} → Fields → M S (Option Json)
extract_user_id payload = or_compute (get "userId" payload) (do
  first ← split_with (λ s. some (before "_" s)) (get "customer_uid" payload)
  or_compute
      (first
        or_else get_in "userId" (as_object (get "metadata" payload))
        or_else get_in "userId" (data_of payload))
      (do
        from_payment ← split_with (second "-") (get_in "paymentId" (data_of payload))
        pure (
            from_payment
            or_else get_in "userId" (as_object (get_in "metadata" (data_object_of payload))))))

-- How the handlers use it: a falsy value is no user, and the database client refuses a `userId`
-- that is no text in the query that comes next. (It would read an object as a filter: a payload
-- whose user is such an object is not modelled.)
abbrev pub user_of : {S : Type 0} → Option Json → M S (Option String)
user_of none = pure none
user_of (some (Json.text s)) = pure (if s == "" then none else some s)
user_of (some (Json.boolean Bool.false)) = pure none
user_of (some (Json.number (pos ℕ.zero))) = pure none
user_of (some _) = raise database

-- The value that `Number` is applied to.
unfoldable pub amount_value : Fields → Json
amount_value payload =
    let inner = data_of payload in
    let data_object = data_object_of payload in
    get_or
      (get "amount" payload
        or_else get "totalAmount" payload
        or_else get "paid_amount" payload
        or_else get_in "total" (as_object (get_in "amount" inner))
        or_else get_in "amount" inner
        or_else get_in "amount_paid" data_object
        or_else get_in "amount" data_object)
      (Json.number (pos 0))

-- `convert` is `Number` on the values that are not numbers, `none` its NaN.
unfoldable pub extract_amount : (Json → Option ℤ) → Fields → Option ℤ
extract_amount convert payload = elim (amount_value payload) [
  | Json.number n ↦ some n
  | v ↦ convert v
]
