-- ===== src/Api/Requests.antt =====
-- The routes of `create_router` in src/api/router.rs that reach the service, as requests to the
-- running server, mixed with the rounds of the background loops. A list of transfers or of the
-- blocklist only reads, and is not among them.
use solana_compliance_relaye.Prelude.{ℕ, Option, none, some, List, [], ◌∷◌, String}
use solana_compliance_relaye.Domain.Transfer.{
  SubmitTransferRequest, CreateCheckoutSessionRequest, HeliusTransaction,
}
use solana_compliance_relaye.Runtime.{Env, World, Action, Result, ok, err}
use solana_compliance_relaye.Service.Retry.{retry_blockchain_submission}
use solana_compliance_relaye.Service.Checkout.{create_checkout_session, submit_checkout_transfer}
use solana_compliance_relaye.Service.Health.{health_check}
use solana_compliance_relaye.System.{Event, step}
use solana_compliance_relaye.Api.Errors.{into_response}
use solana_compliance_relaye.Api.Payload.{Json}
use solana_compliance_relaye.Api.Handlers.{
  submit_transfer_handler, get_transfer_request_handler, get_transfer_audit_report_handler,
  get_checkout_session_handler, readiness_handler, risk_check_handler, add_blocklist_handler,
  remove_blocklist_handler,
}
use solana_compliance_relaye.Api.Webhooks.{
  Headers, AppState, admin_auth_middleware, helius_webhook_handler, quicknode_webhook_handler,
}

-- What reaches the server: a request to a route, or a background round.
pub data Arrival (json : Json) : Type 0 where
  post_transfer : Option String → SubmitTransferRequest → Arrival json
  get_transfer get_audit_report post_retry : String → Arrival json
  post_session : CreateCheckoutSessionRequest → Arrival json
  get_session : String → Arrival json
  post_session_transfer : String → SubmitTransferRequest → Arrival json
  get_health get_ready : Arrival json
  post_helius : Headers → List HeliusTransaction → Arrival json
  post_quicknode : Headers → json.Value → Arrival json
  post_blocklist : Headers → String → String → Arrival json
  delete_blocklist : Headers → String → Arrival json
  post_risk_check : String → Arrival json
  background : Event → Arrival json

-- The status of the response: 200, or that of the error.
unfoldable pub status_of : {A : Type 0} → Result A → ℕ
unfolding into_response
status_of (ok a) = 200
status_of (err e) = (into_response e).status

module _ (env : Env) (state : AppState) (json : Json) where
  unfoldable pub after : {A : Type 0} → Option (Action A) → World → World
  after none w = w
  after (some m) w = (m w).1

  -- The state after an arrival. A panic of a handler changes nothing.
  unfoldable pub serve : Arrival json → World → World
  unfolding after step
  serve (Arrival.post_transfer key payload) w = (submit_transfer_handler env key payload w).1
  serve (Arrival.get_transfer id) w = (get_transfer_request_handler env id w).1
  serve (Arrival.get_audit_report id) w = (get_transfer_audit_report_handler env id w).1
  serve (Arrival.post_retry id) w = (retry_blockchain_submission env id w).1
  serve (Arrival.post_session payload) w = (create_checkout_session env payload w).1
  serve (Arrival.get_session id) w = (get_checkout_session_handler env id w).1
  serve (Arrival.post_session_transfer id payload) w = (submit_checkout_transfer env id payload w).1
  serve Arrival.get_health w = (health_check env w).1
  serve Arrival.get_ready w = (readiness_handler env w).1
  serve (Arrival.post_helius headers payload) w =
      (helius_webhook_handler env state headers payload w).1
  serve (Arrival.post_quicknode headers payload) w =
      after (quicknode_webhook_handler env state json headers payload) w
  serve (Arrival.post_blocklist headers address reason) w =
      (admin_auth_middleware env state headers (add_blocklist_handler env address reason) w).1
  serve (Arrival.delete_blocklist headers address) w =
      (admin_auth_middleware env state headers (remove_blocklist_handler env address) w).1
  serve (Arrival.post_risk_check address) w =
      (risk_check_handler env state.risk_service address w).1
  serve (Arrival.background e) w = step env e w

  unfoldable pub serve_all : List (Arrival json) → World → World
  unfolding serve
  serve_all [] w = w
  serve_all (a ∷ rest) w = serve_all rest (serve a w)
