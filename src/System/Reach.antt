-- ===== src/System/Reach.antt =====
-- What holds in every world that the running service reaches.
use solana_compliance_relaye.Prelude.{Option, List, [], ◌∷◌, String, arith}
use solana_compliance_relaye.Domain.Transfer.{CheckoutSession, WalletRiskProfile}
use solana_compliance_relaye.Runtime.{Env, World}
use solana_compliance_relaye.Database.Table.{find, UniqueIds}
use solana_compliance_relaye.Service.Webhook.{process_helius_webhook, process_quicknode_webhook}
use solana_compliance_relaye.System.{Event, step, run}
use solana_compliance_relaye.System.Screened.{IsSound, EachWaits}
use solana_compliance_relaye.System.Rounds.{worker_round-IsSound, crank_round-IsSound}
use solana_compliance_relaye.System.Handlers.{
  add_address-IsSound, remove_address-IsSound, load_from_database-IsSound, submit_transfer-IsSound,
}
use solana_compliance_relaye.System.Deliveries.{process_notices-IsSound}
use solana_compliance_relaye.System.Sessions.{
  get_checkout_session-IsSound, create_checkout_session-IsSound, submit_checkout_transfer-IsSound,
  check_wallet_risk-IsSound,
}
use solana_compliance_relaye.System.Resubmission.{manual_retry-IsSound}

module _ (env : Env) where
  pub step-IsSound : (e : Event) (w : World) → IsSound [] w → IsSound [] (step env e w)
  unfolding step process_helius_webhook process_quicknode_webhook
  step-IsSound (Event.submit request) w h = (submit_transfer-IsSound env request).at w h
  step-IsSound (Event.worker_round n) w h = (worker_round-IsSound env n).at w h
  step-IsSound (Event.crank_round age n) w h = (crank_round-IsSound env age n).at w h
  step-IsSound (Event.manual_retry i) w h = (manual_retry-IsSound env i).at w h
  step-IsSound (Event.helius ts) w h = (process_notices-IsSound env _ _).at w h
  step-IsSound (Event.quicknode es) w h = (process_notices-IsSound env _ _).at w h
  step-IsSound (Event.create_session request) w h =
      (create_checkout_session-IsSound env request).at w h
  step-IsSound (Event.read_session i) w h = (get_checkout_session-IsSound env i).at w h
  step-IsSound (Event.pay_session i payload) w h =
      (submit_checkout_transfer-IsSound env i payload).at w h
  step-IsSound Event.load_blocklist w h = (load_from_database-IsSound env).at w h
  step-IsSound (Event.list a reason) w h = (add_address-IsSound env a reason).at w h
  step-IsSound (Event.unlist a) w h = (remove_address-IsSound env a).at w h
  step-IsSound (Event.check_wallet ttl a) w h = (check_wallet_risk-IsSound env ttl a).at w h

  run-IsSound : (es : List Event) (w : World) → IsSound [] w → IsSound [] (run env es w)
  unfolding run
  run-IsSound [] w h = h
  run-IsSound (e ∷ es) w h = run-IsSound es (step env e w) (step-IsSound e w h)

-- A deployment without transfers yet: whatever the other tables and the blocklist hold.
abbrev pub new_world :
    List CheckoutSession
    → List WalletRiskProfile
    → Option (List (String × String))
    → List (String × String)
    → World
new_world sessions profiles blocklist rows = record {
  transfers = [];
  sessions = sessions;
  profiles = profiles;
  blocklist = blocklist;
  blocklist_rows = rows;
  tick = 0;
  submissions = [];
}

pub new-IsSound :
    (sessions : List CheckoutSession) (profiles : List WalletRiskProfile)
    (blocklist : Option (List (String × String))) (rows : List (String × String))
    → IsSound [] (new_world sessions profiles blocklist rows)
unfolding find
new-IsSound sessions profiles blocklist rows = record {
  unique = tt;
  rows = λ i q e. ground arith;
  handed = tt;
  shown = tt;
}

module _ (env : Env) (sessions : List CheckoutSession) (profiles : List WalletRiskProfile)
    (blocklist : Option (List (String × String))) (rows : List (String × String))
    (es : List Event) where
  abbrev pub reached : World
  reached = run env es (new_world sessions profiles blocklist rows)

  -- From a deployment without transfers, after any events, with any answers and faults: no two transfers
  -- have the same key, and every transfer without a compliance verdict still has the blockchain status
  -- received.
  pub reached_rows : UniqueIds reached.transfers × EachWaits reached.transfers
  reached_rows =
      let h = run-IsSound env es _ (new-IsSound sessions profiles blocklist rows) in
      (h.unique, h.rows)
