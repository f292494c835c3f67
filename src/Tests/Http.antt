-- ===== src/Tests/Http.antt =====
-- The laws of the HTTP interface on a small JSON document and a configured server.
use solana_compliance_relaye.Prelude.{
  ◌≡◌, refl, true, false, none, some, Option, List, [], ◌∷◌, String, str_eq, All, if◌then◌else◌,
  arith,
}
use solana_compliance_relaye.Runtime.{World}
use solana_compliance_relaye.System.{Event}
use solana_compliance_relaye.System.Screened.{IsScreened}
use solana_compliance_relaye.Api.Payload.{Json}
use solana_compliance_relaye.Api.Webhooks.{Headers, AppState}
use solana_compliance_relaye.Api.Requests.{Arrival, serve}
use solana_compliance_relaye.Api.Guards.{unauthorised_changes_nothing}
use solana_compliance_relaye.Api.Reach.{served, served-IsScreened}
use solana_compliance_relaye.Tests.Fixtures.{request, sending_env, queued, world_of, helius_event}

-- {"transaction": {"signatures": ["sig1"]}, "meta": {"err": "custom"}}
data Doc : Type 0 where
  payload transaction signatures meta : Doc
  text : String → Doc

abbrev get_doc : String → Doc → Option Doc
get_doc k Doc.payload =
    if str_eq k "transaction"
    then some Doc.transaction
    else if str_eq k "meta"
    then some Doc.meta
    else none
get_doc k Doc.transaction = if str_eq k "signatures" then some Doc.signatures else none
get_doc k Doc.meta = if str_eq k "err" then some (Doc.text "custom") else none
get_doc k _ = none

abbrev text_doc : Doc → Option String
text_doc (Doc.text s) = some s
text_doc _ = none

abbrev array_doc : Doc → Option (List Doc)
array_doc Doc.signatures = some (Doc.text "sig1" ∷ [])
array_doc _ = none

abbrev sample_json : Json
sample_json = record {
  Value = Doc;
  get = get_doc;
  as_str = text_doc;
  as_u64 = λ v. none;
  as_i64 = λ v. none;
  as_array = array_doc;
  is_object = λ v. true;
  is_null = λ v. false;
  to_text = λ v. "{}";
}

abbrev guarded : AppState
guarded = record {
  helius_webhook_secret = some "h";
  quicknode_webhook_secret = some "q";
  admin_api_key = some "k";
  risk_service = none;
}

abbrev bare : Headers
bare name = none

unauthorised_changes_nothing_example :
    serve sending_env guarded sample_json
      (Arrival.post_helius bare (helius_event ∷ []))
      (world_of (queued ∷ []) [])
    ≡ world_of (queued ∷ []) []
unauthorised_changes_nothing_example =
    unauthorised_changes_nothing sending_env guarded sample_json
      (Arrival.post_helius bare (helius_event ∷ [])) (world_of (queued ∷ []) [])
      ("h", refl, λ e. ground arith)

abbrev requests : List (Arrival sample_json)
requests =
    Arrival.post_transfer none request
    ∷ Arrival.background (Event.worker_round 10)
    ∷ Arrival.post_retry "new"
    ∷ Arrival.post_quicknode bare Doc.payload
    ∷ Arrival.get_ready
    ∷ []

abbrev afternoon : World
afternoon = served sending_env guarded sample_json [] [] none [] requests

served-IsScreened_example : All (λ r. IsScreened r.id afternoon.transfers) afternoon.submissions
served-IsScreened_example = served-IsScreened sending_env guarded sample_json [] [] none [] requests
