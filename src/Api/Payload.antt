-- ===== src/Api/Payload.antt =====
-- `parse_quicknode_payload` of src/api/handlers.rs: the events in a QuickNode webhook's JSON. The
-- JSON library is a parameter: its values and the accessors of `serde_json::Value` that are used.
use solana_compliance_relaye.Prelude.{
  ℤ, ℕ, Bool, true, false, Option, none, some, String, List, [], ◌∷◌, ◌++◌, or_else,
}
use solana_compliance_relaye.Domain.Transfer.{QuickNodeWebhookEvent}

pub record Json : Type 1 where
  pub Value : Type 0
  pub get : String → Value → Option Value
  pub as_str : Value → Option String
  pub as_u64 : Value → Option ℕ
  pub as_i64 : Value → Option ℤ
  pub as_array : Value → Option (List Value)
  pub is_object : Value → Bool
  pub is_null : Value → Bool
  pub to_text : Value → String

abbrev pub and_then : {A B : Type 0} → Option A → (A → Option B) → Option B
and_then none f = none
and_then (some a) f = f a

abbrev pub first : {A : Type 0} → List A → Option A
first [] = none
first (x ∷ xs) = some x

module _ (json : Json) where
  -- `.filter(|v| !v.is_null())`, kept as its text.
  unfoldable pub unless_null : Bool → json.Value → Option String
  unless_null true v = none
  unless_null false v = some (json.to_text v)

  -- The closure `create_event`, which every branch calls with the object.
  unfoldable pub create_event : String → json.Value → QuickNodeWebhookEvent
  unfolding unless_null
  create_event sig o = record {
    signature = sig;
    slot = and_then (json.get "slot" o) json.as_u64;
    block_time = and_then (or_else (json.get "blockTime" o) (json.get "block_time" o)) json.as_i64;
    err = and_then (json.get "err" o) (λ v. unless_null (json.is_null v) v);
    meta = none;
  }

  -- `.get("signature").and_then(|v| v.as_str())`
  unfoldable pub signature_of : json.Value → Option String
  signature_of v = and_then (json.get "signature" v) json.as_str

  -- The first of the field `signatures`, when it is a text.
  unfoldable pub first_of_signatures : json.Value → Option String
  first_of_signatures v =
      and_then (and_then (json.get "signatures" v) json.as_array)
        (λ sigs. and_then (first sigs) json.as_str)

  unfoldable pub nested_signature : json.Value → Option String
  unfolding first_of_signatures
  nested_signature v = and_then (json.get "transaction" v) first_of_signatures

  unfoldable pub event_if :
      Option String → json.Value → List QuickNodeWebhookEvent → List QuickNodeWebhookEvent
  unfolding create_event
  event_if (some sig) o otherwise = create_event sig o ∷ []
  event_if none o otherwise = otherwise

  unfoldable pub in_wrapper : Option json.Value → List QuickNodeWebhookEvent
  unfolding event_if signature_of
  in_wrapper none = []
  in_wrapper (some wrapped) = event_if (signature_of wrapped) wrapped []

  -- One member of an array.
  unfoldable pub item_events : json.Value → List QuickNodeWebhookEvent
  unfolding event_if in_wrapper signature_of nested_signature
  item_events item =
      event_if (signature_of item) item
        (event_if (nested_signature item) item (in_wrapper (json.get "data" item)))

  unfoldable pub array_events : List json.Value → List QuickNodeWebhookEvent
  unfolding item_events
  array_events [] = []
  array_events (v ∷ vs) = item_events v ++ array_events vs

  unfoldable pub data_events : List json.Value → List QuickNodeWebhookEvent
  unfolding event_if signature_of
  data_events [] = []
  data_events (v ∷ vs) = event_if (signature_of v) v [] ++ data_events vs

  unfoldable pub transaction_events : List json.Value → List QuickNodeWebhookEvent
  unfolding event_if signature_of first_of_signatures
  transaction_events [] = []
  transaction_events (v ∷ vs) =
      event_if (signature_of v) v (event_if (first_of_signatures v) v []) ++ transaction_events vs

  unfoldable pub in_arrays :
      Option (List json.Value) → Option (List json.Value) → List QuickNodeWebhookEvent
  unfolding data_events transaction_events
  in_arrays (some data_arr) txs = data_events data_arr
  in_arrays none (some txs) = transaction_events txs
  in_arrays none none = []

  unfoldable pub object_events : json.Value → List QuickNodeWebhookEvent
  unfolding event_if signature_of nested_signature in_arrays
  object_events obj = event_if (signature_of obj) obj (
      event_if (nested_signature obj) obj (
        in_arrays (and_then (json.get "data" obj) json.as_array)
          (and_then (json.get "transactions" obj) json.as_array)))

  unfoldable pub by_shape :
      Option (List json.Value) → Bool → json.Value → List QuickNodeWebhookEvent
  unfolding array_events object_events
  by_shape (some arr) is_object v = array_events arr
  by_shape none true v = object_events v
  by_shape none false v = []

  unfoldable pub parse_quicknode_payload : json.Value → List QuickNodeWebhookEvent
  unfolding by_shape
  parse_quicknode_payload payload =
      by_shape (json.as_array payload) (json.is_object payload) payload
