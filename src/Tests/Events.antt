-- ===== src/Tests/Events.antt =====
-- The laws of webhooks, the crank, the blocklist and the wallet check at work on small worlds.
use solana_compliance_relaye.Blocklist.{lookup}
use solana_compliance_relaye.Service.Stale.{verdict_of}
use solana_compliance_relaye.Prelude.{pos, ◌≡◌, refl, true, none, some, [], ◌∷◌, is_some}
use solana_compliance_relaye.Domain.Status.{BlockchainStatus}
use solana_compliance_relaye.Database.Table.{find}
use solana_compliance_relaye.Blocklist.{
  check_address, add_address, remove_address, load_from_database,
}
use solana_compliance_relaye.Blocklist.Cache.{
  IsInStep, load-IsInStep, blocklist_stays-IsInStep, blocklist_effects,
}
use solana_compliance_relaye.Risk.{check_wallet_risk}
use solana_compliance_relaye.Risk.Screening.{risky_wallet_is_listed}
use solana_compliance_relaye.Service.Crank.{check_stale_transaction_status}
use solana_compliance_relaye.Service.Webhook.{process_helius_webhook, process_quicknode_webhook}
use solana_compliance_relaye.Service.Stale.{HasStatus, crank_verdict}
use solana_compliance_relaye.Service.Notices.{webhooks_keep_unsubmitted}
use solana_compliance_relaye.Service.Redelivery.{IsRepeatable, redelivery_changes_nothing}
use solana_compliance_relaye.Tests.Fixtures.{
  unknown_env, failed_env, lost, sent_row, world_of, helius_event, quicknode_event, always_up,
  always_up2, in_step,
}

crank_verdict_example :
    HasStatus "t1" BlockchainStatus.failed
      (check_stale_transaction_status failed_env sent_row (world_of (sent_row ∷ []) [])).1
unfolding find verdict_of
crank_verdict_example =
    crank_verdict failed_env sent_row "sig1" (world_of (sent_row ∷ []) []) always_up2 refl refl

webhooks_keep_unsubmitted_example :
    (find "t1"
        (process_helius_webhook unknown_env
          (helius_event ∷ [])
          (world_of (lost ∷ []) [])).1.transfers
      ≡ some lost)
    × (find "t1"
          (process_quicknode_webhook unknown_env
            (quicknode_event ∷ [])
            (world_of (lost ∷ []) [])).1.transfers
        ≡ some lost)
unfolding find
webhooks_keep_unsubmitted_example =
    webhooks_keep_unsubmitted unknown_env (helius_event ∷ []) (quicknode_event ∷ []) "t1" lost
      (world_of (lost ∷ []) []) (refl, tt) refl refl

load-IsInStep_example :
    IsInStep (load_from_database unknown_env (world_of [] (("bob", "fraud") ∷ []))).1
unfolding lookup
load-IsInStep_example =
    load-IsInStep unknown_env (world_of [] (("bob", "fraud") ∷ [])) refl (refl, tt)

blocklist_stays-IsInStep_example :
    IsInStep (add_address unknown_env "eve" "fraud" (world_of [] (("bob", "fraud") ∷ []))).1
    × IsInStep (remove_address unknown_env "eve" (world_of [] (("bob", "fraud") ∷ []))).1
blocklist_stays-IsInStep_example =
    blocklist_stays-IsInStep unknown_env "eve" "fraud" (world_of [] (("bob", "fraud") ∷ [])) in_step

blocklist_effects_example :
    (check_address "bob"
        (add_address unknown_env "bob" "theft" (world_of [] (("bob", "fraud") ∷ []))).1
      ≡ some "theft")
    × (check_address "bob"
          (remove_address unknown_env "bob" (world_of [] (("bob", "fraud") ∷ []))).1
        ≡ none)
blocklist_effects_example =
    blocklist_effects unknown_env "bob" "theft" "bob" (("bob", "fraud") ∷ [])
      (world_of [] (("bob", "fraud") ∷ [])) refl

risky_wallet_is_listed_example :
    is_some (check_address "eve" (check_wallet_risk unknown_env 3600 "eve" (world_of [] [])).1)
    ≡ true
unfolding lookup
risky_wallet_is_listed_example =
    risky_wallet_is_listed unknown_env 3600 "eve"
      (record { risk_score = pos 9; risk_level = "High"; reasoning = "sanctions" }) []
      (world_of [] []) always_up refl refl refl refl

redelivery_changes_nothing_example :
    IsRepeatable
      (process_helius_webhook unknown_env (helius_event ∷ []))
      (world_of (sent_row ∷ []) [])
    × IsRepeatable
        (process_quicknode_webhook unknown_env (quicknode_event ∷ []))
        (world_of (sent_row ∷ []) [])
unfolding find
redelivery_changes_nothing_example =
    redelivery_changes_nothing unknown_env (helius_event ∷ []) (quicknode_event ∷ [])
      (world_of (sent_row ∷ []) []) always_up (refl, tt)
