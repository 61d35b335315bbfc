-- ===== src/Webhook/Controller.antt =====
-- src/app/controllers/WebhookController.ts. An error that goes to `next` is raised. What comes from
-- outside is an argument: the provider of the route in lower case, whether an adapter is configured
-- for it, the answer of the adapter's `verifyWebhookSignature`, the body as `JSON.parse` reads it
-- (`none` where it throws), the clock as a text, and the id of a new row.
use graph_node_be.Common.Text.{◌==◌}
use graph_node_be.Subscription.Repository.{create_event, find_by_idempotency_key}
use graph_node_be.Common.{◌or_else◌, get_or, if◌then◌else◌, Bool, not, Option, none, some, String}
use graph_node_be.Billing.Types.{PgProvider, WebhookEventStatus}
use graph_node_be.Store.Json.{Json, Fields, get, get_in}
use graph_node_be.Store.Rows.{WebhookEventRow}
use graph_node_be.Store.Effects.{
  Action, M, pure, raise, raise_if, or_raise, validation, type_error, ◌>>=◌, ◌>>◌,
}
use graph_node_be.Webhook.Resolver.{
  WebhookResolution, string_value, as_record, resolve_webhook_event_type,
}
use Prim.Native.String.{◌++◌}

-- `PROVIDER_MAP[param]`; the keys that every object inherits are left out.
unfoldable pub provider_map : String → Option PgProvider
provider_map p =
    if p == "portone"
    then some PgProvider.portone
    else if p == "toss"
    then some PgProvider.toss
    else if p == "stripe"
    then some PgProvider.stripe
    else if p == "google"
    then some PgProvider.google
    else if p == "apple"
    then some PgProvider.apple
    else none

abbrev pub provider_text : PgProvider → String
provider_text PgProvider.portone = "PORTONE"
provider_text PgProvider.toss = "TOSS"
provider_text PgProvider.stripe = "STRIPE"
provider_text PgProvider.google = "GOOGLE"
provider_text PgProvider.apple = "APPLE"

-- The first candidate that is a text and not empty.
unfoldable pub key_candidate : Fields → Option String
key_candidate payload =
    let inner = as_record (get "data" payload) in
    string_value (get "id" payload)
    or_else string_value (get "imp_uid" payload)
    or_else string_value (get "paymentKey" payload)
    or_else string_value (get "transactionId" payload)
    or_else string_value (get_in "transactionId" inner)
    or_else string_value (get_in "paymentId" inner)

unfoldable pub resolve_idempotency_key : PgProvider → Fields → String → String → String
resolve_idempotency_key provider payload raw_type now_text =
    provider_text provider
    ++ (":" ++ (raw_type ++ (":" ++ get_or (key_candidate payload) now_text)))

pub data Response : Type 0 where
  unauthorized : Response
  duplicate : Response
  received : String → Bool → Response

pub record Request : Type 0 where
  pub provider_param : String
  pub configured : Bool
  pub signed : Bool
  pub body : Option Json
  pub now_text : String
  pub new_id : String

-- A property of `null` throws; one of a number, a text or an array is undefined.
abbrev pub fields_of : {S : Type 0} → Json → M S Fields
fields_of Json.null = raise type_error
fields_of (Json.object fs) = pure fs
fields_of _ = pure Fields.end

abbrev pub new_event : PgProvider → WebhookResolution → String → Fields → String → WebhookEventRow
new_event provider res key payload id = record {
  id = id;
  provider = provider;
  event_type = res.event_type;
  idempotency_key = key;
  raw_payload = payload;
  status = WebhookEventStatus.received;
  processed_at = none;
}

-- The response, and the event that `setImmediate` hands to `process` afterwards.
abbrev pub Answer : Type 0
Answer = Response × Option WebhookEventRow

abbrev pub store_event :
    Option WebhookEventRow
    → PgProvider
    → WebhookResolution
    → String
    → Fields
    → String
    → Action Answer
store_event (some e) provider res key payload id = pure (duplicate, none)
store_event none provider res key payload id = do
  event ← create_event (new_event provider res key payload id)
  pure (received event.id res.ignored, some event)

unfoldable pub accept : PgProvider → Fields → String → String → Action Answer
accept provider payload now_text id =
    let res = resolve_webhook_event_type provider payload in
    let key = resolve_idempotency_key provider payload res.raw_type now_text in
    do existing ← find_by_idempotency_key key; store_event existing provider res key payload id

unfoldable pub handle_webhook : Request → Action Answer
handle_webhook q = do
  provider ← or_raise (provider_map q.provider_param) validation
  raise_if (not q.configured) validation
  if not q.signed then pure (unauthorized, none) else do
    body ← or_raise q.body validation
    payload ← fields_of body
    accept provider payload q.now_text q.new_id
