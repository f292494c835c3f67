-- ===== src/Tests/Intake.antt =====
-- The laws of transfers, checkout sessions and statuses at work on small worlds.
use solana_compliance_relaye.Service.Submit.{blocklist_hit}
use solana_compliance_relaye.Blocklist.{check_address}
use solana_compliance_relaye.Service.Intake.{outcome}
use solana_compliance_relaye.Domain.Request.{verify_signature}
use solana_compliance_relaye.Domain.Request.{validate}
use solana_compliance_relaye.Prelude.{◌≡◌, refl, inl, some, [], ◌∷◌, ◌↔◌}
use solana_compliance_relaye.Domain.Status.{
  BlockchainStatus, ComplianceStatus, LastErrorType, CheckoutSessionStatus, blockchain_as_str,
  blockchain_from_str, compliance_as_str, compliance_from_str, error_type_as_str,
  error_type_from_str, checkout_as_str, checkout_from_str,
}
use solana_compliance_relaye.Domain.Transfer.{TransferRequest}
use solana_compliance_relaye.Domain.Codec.{status_codecs}
use solana_compliance_relaye.Database.Table.{find}
use solana_compliance_relaye.Service.Submit.{submit_transfer, range_rejection}
use solana_compliance_relaye.Service.Crank.{process_stale_submitted_transactions}
use solana_compliance_relaye.Service.Webhook.{process_helius_webhook, process_quicknode_webhook}
use solana_compliance_relaye.Service.Checkout.{
  submit_checkout_transfer, validate_checkout_transfer_matches_session,
  checkout_status_from_transfer,
}
use solana_compliance_relaye.Service.Intake.{HasOutcome, submit_transfer-outcome}
use solana_compliance_relaye.Service.Replay.{
  submit_transfer_refuses, submit_transfer_known, nonce_takeover,
}
use solana_compliance_relaye.Service.SessionAnswers.{session_answers_linked}
use solana_compliance_relaye.Service.Outbox.{no_submission}
use solana_compliance_relaye.Service.Payment.{
  IsPayment, validate_checkout_transfer_iff, checkout_status_cases,
}
use solana_compliance_relaye.Runtime.Fails.{IsErr}
use solana_compliance_relaye.Runtime.{ok}
use solana_compliance_relaye.Tests.Fixtures.{
  unknown_env, failed_env, request, unnamed_request, lost, others, world_of, session, helius_event,
  quicknode_event, always_up, is_new, linked_session, linked_world,
}

submit_transfer-outcome_example :
    HasOutcome "new"
      (submit_transfer failed_env request (world_of [] [])).1
      (ComplianceStatus.rejected, BlockchainStatus.failed, some range_rejection)
unfolding outcome check_address
submit_transfer-outcome_example = submit_transfer-outcome failed_env request (world_of [] []) is_new

no_submission_example :
    ((submit_transfer unknown_env request (world_of [] [])).1.submissions ≡ [])
    × ((submit_checkout_transfer unknown_env "s1" request (world_of [] [])).1.submissions ≡ [])
    × ((process_helius_webhook unknown_env (helius_event ∷ []) (world_of [] [])).1.submissions ≡ [])
    × ((process_quicknode_webhook unknown_env (quicknode_event ∷ []) (world_of [] [])).1.submissions
        ≡ [])
    × ((process_stale_submitted_transactions unknown_env 60 5 (world_of [] [])).1.submissions ≡ [])
no_submission_example =
    no_submission unknown_env request "s1" (helius_event ∷ []) (quicknode_event ∷ []) 60 5
      (world_of [] [])

submit_transfer_known_example :
    submit_transfer unknown_env request (world_of (lost ∷ []) [])
    ≡ (ok lost, record (world_of (lost ∷ []) []) { tick = 1 })
unfolding validate verify_signature
submit_transfer_known_example =
    submit_transfer_known unknown_env request lost (world_of (lost ∷ []) []) refl refl refl refl

submit_transfer_refuses_example :
    IsErr (submit_transfer unknown_env unnamed_request (world_of [] [])).0
    × ((submit_transfer unknown_env unnamed_request (world_of [] [])).1 ≡ world_of [] [])
unfolding validate
submit_transfer_refuses_example =
    submit_transfer_refuses unknown_env unnamed_request (world_of [] []) (inl tt)

nonce_takeover_example :
    (q : TransferRequest) × (find "t1"
        (submit_transfer unknown_env request (world_of (others ∷ []) [])).1.transfers
      ≡ some q)
    × (q.compliance_status ≡ ComplianceStatus.approved)
    × (q.blockchain_status ≡ BlockchainStatus.pending_submission)
unfolding validate verify_signature find blocklist_hit
nonce_takeover_example =
    nonce_takeover unknown_env request others (world_of (others ∷ []) []) always_up refl refl refl
      refl refl refl refl

validate_checkout_transfer_iff_example :
    (validate_checkout_transfer_matches_session session request ≡ ok tt) ↔ IsPayment session request
validate_checkout_transfer_iff_example = validate_checkout_transfer_iff session request

checkout_status_cases_example :
    checkout_status_from_transfer others 900 1000 ≡ CheckoutSessionStatus.rejected
checkout_status_cases_example = checkout_status_cases others 900 1000

status_codecs_example :
    ((blockchain_from_str "failed" ≡ some BlockchainStatus.failed)
      ↔ ("failed" ≡ blockchain_as_str BlockchainStatus.failed))
    × ((compliance_from_str "failed" ≡ some ComplianceStatus.pending)
        ↔ ("failed" ≡ compliance_as_str ComplianceStatus.pending))
    × ((error_type_from_str "failed" ≡ some LastErrorType.no_error)
        ↔ ("failed" ≡ error_type_as_str LastErrorType.no_error))
    × ((checkout_from_str "failed" ≡ some CheckoutSessionStatus.failed)
        ↔ ("failed" ≡ checkout_as_str CheckoutSessionStatus.failed))
status_codecs_example =
    status_codecs "failed" BlockchainStatus.failed ComplianceStatus.pending LastErrorType.no_error
      CheckoutSessionStatus.failed

session_answers_linked_example : submit_checkout_transfer unknown_env "s1" request linked_world ≡ (
  ok (record {
    session = record linked_session { status = checkout_status_from_transfer lost 900 1004 };
    transfer_request = lost;
  }),
  record linked_world { tick = 5 },
)
unfolding find
session_answers_linked_example =
    session_answers_linked unknown_env "s1" "t1" request linked_session lost linked_world always_up
      refl refl refl
