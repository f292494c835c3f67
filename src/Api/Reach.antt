-- ===== src/Api/Reach.antt =====
-- What holds in every state that the running server of src/api and src/app/worker.rs reaches.
use solana_compliance_relaye.Prelude.{
  Bool, true, false, Option, none, some, List, [], ◌∷◌, String, All, if◌then◌else◌,
}
use solana_compliance_relaye.Domain.Transfer.{
  TransferRequest, SubmitTransferRequest, CheckoutSession, WalletRiskProfile, HeliusTransaction,
}
use solana_compliance_relaye.Runtime.{Env, World, Action}
use solana_compliance_relaye.Runtime.Keeps.{Keeps, keeps_rules, Keeps-pure, Keeps-raise, Keeps-if}
use solana_compliance_relaye.Domain.Error.{AppError}
use solana_compliance_relaye.Database.Statement.{Keeps-statement}
use solana_compliance_relaye.Database.Sessions.{database_health}
use solana_compliance_relaye.Service.Audit.{get_transfer_audit_report, report_found}
use solana_compliance_relaye.Service.Health.{health_check}
use solana_compliance_relaye.Service.Webhook.{process_helius_webhook, process_quicknode_webhook}
use solana_compliance_relaye.Domain.Transfer.{QuickNodeWebhookEvent}
use solana_compliance_relaye.System.Screened.{IsSound, IsScreened, IsSound-quiet}
use solana_compliance_relaye.System.Handlers.{
  get_transfer_request-IsSound, find_by_nonce-IsSound, submit_transfer-IsSound, add_address-IsSound,
  remove_address-IsSound,
}
use solana_compliance_relaye.System.Deliveries.{process_notices-IsSound}
use solana_compliance_relaye.System.Sessions.{
  get_risk_profile-IsSound, get_checkout_session-IsSound, create_checkout_session-IsSound,
  submit_checkout_transfer-IsSound, check_wallet_risk-IsSound,
}
use solana_compliance_relaye.System.Resubmission.{manual_retry-IsSound}
use solana_compliance_relaye.System.Reach.{step-IsSound, new_world, new-IsSound}
use solana_compliance_relaye.Api.Payload.{Json, parse_quicknode_payload}
use solana_compliance_relaye.Api.Handlers.{
  require, existing_or_submit, submit_transfer_handler, get_transfer_request_handler,
  get_transfer_audit_report_handler, get_checkout_session_handler, readiness_handler, risk_of,
  risk_check_handler, add_blocklist_handler, remove_blocklist_handler,
}
use solana_compliance_relaye.Api.Webhooks.{
  Headers, AppState, admin_key_holds, admin_auth_middleware, helius_webhook_handler, process_events,
  authorised_events, quicknode_webhook_handler, truncation_panics,
}
use solana_compliance_relaye.Api.Requests.{Arrival, after, serve, serve_all}

module _ (env : Env) where
  require-IsSound : (b : Bool) (e : AppError) → Keeps (IsSound []) (require b e)
  require-IsSound true e = Keeps-pure tt
  require-IsSound false e = Keeps-raise e

  existing_or_submit-IsSound :
      (payload : SubmitTransferRequest) (o : Option TransferRequest)
      → Keeps (IsSound []) (existing_or_submit env payload o)
  unfolding existing_or_submit
  existing_or_submit-IsSound payload none = submit_transfer-IsSound env payload
  existing_or_submit-IsSound payload (some r) = Keeps-pure r

  post_transfer-IsSound :
      (key : Option String) (payload : SubmitTransferRequest)
      → Keeps (IsSound []) (submit_transfer_handler env key payload)
  unfolding submit_transfer_handler
  post_transfer-IsSound key payload =
      search (keeps_rules, find_by_nonce-IsSound, existing_or_submit-IsSound)

  get_transfer-IsSound : (id : String) → Keeps (IsSound []) (get_transfer_request_handler env id)
  unfolding get_transfer_request_handler
  get_transfer-IsSound id = search (keeps_rules, get_transfer_request-IsSound)

  report_found-IsSound : (o : Option TransferRequest) → Keeps (IsSound []) (report_found env o)
  unfolding report_found
  report_found-IsSound none = Keeps-pure none
  report_found-IsSound (some t) = search (keeps_rules, get_risk_profile-IsSound)

  get_audit_report-IsSound :
      (id : String) → Keeps (IsSound []) (get_transfer_audit_report_handler env id)
  unfolding get_transfer_audit_report_handler get_transfer_audit_report
  get_audit_report-IsSound id =
      search (keeps_rules, get_transfer_request-IsSound, report_found-IsSound)

  get_session-IsSound : (id : String) → Keeps (IsSound []) (get_checkout_session_handler env id)
  unfolding get_checkout_session_handler
  get_session-IsSound id = search (keeps_rules, get_checkout_session-IsSound)

  database_health-IsSound : Keeps (IsSound []) (database_health env)
  unfolding database_health
  database_health-IsSound = Keeps-statement env _ _ (IsSound-quiet []) λ now w h. h

  get_health-IsSound : Keeps (IsSound []) (health_check env)
  unfolding health_check
  get_health-IsSound = search (keeps_rules, IsSound-quiet, database_health-IsSound)

  get_ready-IsSound : Keeps (IsSound []) (readiness_handler env)
  unfolding readiness_handler
  get_ready-IsSound = search (keeps_rules, get_health-IsSound)

  risk_of-IsSound : (o : Option _) (address : String) → Keeps (IsSound []) (risk_of env o address)
  unfolding risk_of
  risk_of-IsSound none address = Keeps-raise _
  risk_of-IsSound (some max_age) address = check_wallet_risk-IsSound env max_age address

  post_risk_check-IsSound :
      (o : Option _) (address : String) → Keeps (IsSound []) (risk_check_handler env o address)
  unfolding risk_check_handler
  post_risk_check-IsSound o address = search (keeps_rules, require-IsSound, risk_of-IsSound)

  add_blocklist-IsSound :
      (address reason : String) → Keeps (IsSound []) (add_blocklist_handler env address reason)
  unfolding add_blocklist_handler
  add_blocklist-IsSound address reason =
      search (keeps_rules, require-IsSound, add_address-IsSound) depth 12

  remove_blocklist-IsSound :
      (address : String) → Keeps (IsSound []) (remove_blocklist_handler env address)
  unfolding remove_blocklist_handler
  remove_blocklist-IsSound address = search (keeps_rules, require-IsSound, remove_address-IsSound)

module _ (env : Env) (state : AppState) where
  admin-IsSound :
      {A : Type 0} (headers : Headers) (m : Action A)
      → Keeps (IsSound []) m
      → Keeps (IsSound []) (admin_auth_middleware env state headers m)
  unfolding admin_auth_middleware
  admin-IsSound headers m k =
      Keeps-if (admin_key_holds state.admin_api_key headers) k (Keeps-raise _)

  post_helius-IsSound :
      (headers : Headers) (payload : List HeliusTransaction)
      → Keeps (IsSound []) (helius_webhook_handler env state headers payload)
  unfolding helius_webhook_handler process_helius_webhook
  post_helius-IsSound headers payload = search (keeps_rules, process_notices-IsSound)

  process_events-IsSound :
      (es : List QuickNodeWebhookEvent) → Keeps (IsSound []) (process_events env state es)
  unfolding process_events process_quicknode_webhook
  process_events-IsSound [] = Keeps-pure tt
  process_events-IsSound (e ∷ es) = search (keeps_rules, process_notices-IsSound)

  authorised_events-IsSound :
      (headers : Headers) (es : List QuickNodeWebhookEvent)
      → Keeps (IsSound []) (authorised_events env state headers es)
  unfolding authorised_events
  authorised_events-IsSound headers es = search (keeps_rules, process_events-IsSound)

  after-IsSound :
      (json : Json) (b : Bool) (m : Action (Unit {0})) (w : World)
      → Keeps (IsSound []) m
      → IsSound [] w
      → IsSound [] (after env state json (if b then none else some m) w)
  unfolding after
  after-IsSound json true m w k h = h
  after-IsSound json false m w k h = k.at w h

module _ (env : Env) (state : AppState) (json : Json) where
  serve-IsSound :
      (a : Arrival json) (w : World) → IsSound [] w → IsSound [] (serve env state json a w)
  unfolding serve quicknode_webhook_handler
  serve-IsSound (Arrival.post_transfer key p) w h = (post_transfer-IsSound env key p).at w h
  serve-IsSound (Arrival.get_transfer id) w h = (get_transfer-IsSound env id).at w h
  serve-IsSound (Arrival.get_audit_report id) w h = (get_audit_report-IsSound env id).at w h
  serve-IsSound (Arrival.post_retry id) w h = (manual_retry-IsSound env id).at w h
  serve-IsSound (Arrival.post_session p) w h = (create_checkout_session-IsSound env p).at w h
  serve-IsSound (Arrival.get_session id) w h = (get_session-IsSound env id).at w h
  serve-IsSound (Arrival.post_session_transfer id p) w h =
      (submit_checkout_transfer-IsSound env id p).at w h
  serve-IsSound Arrival.get_health w h = (get_health-IsSound env).at w h
  serve-IsSound Arrival.get_ready w h = (get_ready-IsSound env).at w h
  serve-IsSound (Arrival.post_helius headers ts) w h =
      (post_helius-IsSound env state headers ts).at w h
  serve-IsSound (Arrival.post_quicknode headers payload) w h =
      after-IsSound env state json (truncation_panics (json.to_text payload)) _ w
        (authorised_events-IsSound env state headers (parse_quicknode_payload json payload)) h
  serve-IsSound (Arrival.post_blocklist headers a reason) w h =
      (admin-IsSound env state headers _ (add_blocklist-IsSound env a reason)).at w h
  serve-IsSound (Arrival.delete_blocklist headers a) w h =
      (admin-IsSound env state headers _ (remove_blocklist-IsSound env a)).at w h
  serve-IsSound (Arrival.post_risk_check a) w h =
      (post_risk_check-IsSound env state.risk_service a).at w h
  serve-IsSound (Arrival.background e) w h = step-IsSound env e w h

  serve_all-IsSound :
      (arrivals : List (Arrival json)) (w : World)
      → IsSound [] w
      → IsSound [] (serve_all env state json arrivals w)
  unfolding serve_all
  serve_all-IsSound [] w h = h
  serve_all-IsSound (a ∷ rest) w h =
      serve_all-IsSound rest (serve env state json a w) (serve-IsSound a w h)

module _ (env : Env) (state : AppState) (json : Json) (sessions : List CheckoutSession)
    (profiles : List WalletRiskProfile) (blocklist : Option (List (String × String)))
    (rows : List (String × String)) (arrivals : List (Arrival json)) where
  abbrev pub served : World
  served = serve_all env state json arrivals (new_world sessions profiles blocklist rows)

  -- From a deployment without transfers, after any requests to the HTTP routes in any order, mixed
  -- with any background rounds, with any answers and faults of the database, the compliance provider
  -- and the blockchain client: each request that was ever handed to the blockchain client stands in
  -- the table with a compliance verdict.
  pub served-IsScreened : All (λ r. IsScreened r.id served.transfers) served.submissions
  served-IsScreened =
      let h =
        serve_all-IsSound env state json arrivals _
          (new-IsSound sessions profiles blocklist rows) in
      h.handed
