-- ===== src/Tests/Nodes.antt =====
-- The laws of the blockchain clients and of the compliance provider on small inputs.
use solana_compliance_relaye.Prelude.{
  ℕ, ◌*◌, ◌≡◌, refl, inr, ◌⊎◌, Bool, true, false, none, some, List, [], ◌∷◌, ◌++◌, arith, pos,
  int_leb, Option,
}
use solana_compliance_relaye.Domain.Status.{ComplianceStatus}
use solana_compliance_relaye.Runtime.{Result, ok, RiskResponse}
use solana_compliance_relaye.Chain.Wire.{extract_signature_from_serialized_tx}
use solana_compliance_relaye.Chain.CompactU16.{compact_u16, extract_signature_first}
use solana_compliance_relaye.Chain.Jito.{
  Node, QuickNodeSubmissionConfig, HttpOutcome, strategy_submit, bundle_result,
}
use solana_compliance_relaye.Chain.Privacy.{
  IsPrivate, strategy_submit-IsPrivate, IsClassified, may_have_landed, bundle_result-IsClassified,
}
use solana_compliance_relaye.Chain.Rpc.{
  wait_for_confirmation, SignatureStatus, read_signature_status, read_transaction_status,
}
use solana_compliance_relaye.Chain.Retries.{IsWaitOutcome, wait_for_confirmation-IsWaitOutcome}
use solana_compliance_relaye.Chain.Readings.{is_confirmed_answer, told, statuses_agree}
use solana_compliance_relaye.Chain.Client.{Client, Sdk, transfer_sol}
use solana_compliance_relaye.Chain.Token.{transfer_token}
use solana_compliance_relaye.Chain.Payments.{
  HandsOver, payments, tip_payments, token_moves, creations, transfer_sol-HandsOver,
}
use solana_compliance_relaye.Chain.TokenPayments.{transfer_token-HandsOver}
use solana_compliance_relaye.Risk.Range.{RangeComplianceProvider, RangeOutcome, check_compliance}
use solana_compliance_relaye.Risk.FailClosed.{WasAnswered, approval_needs_answer}
use solana_compliance_relaye.Tests.Fixtures.{zeros, request}

abbrev wire : List ℕ
wire = compact_u16 1 ++ (zeros 64 ++ (7 ∷ []))

abbrev node : Node
node = record {
  bs58_decode = λ s. inr wire;
  bs58_encode = λ bytes. "signature";
  post = λ q.
      HttpOutcome.answered 200 "200 OK" (inr (record { result = some "bundle"; error = none }));
}

abbrev private_config : QuickNodeSubmissionConfig
private_config = record {
  rpc_url = "https://example.quiknode.pro";
  enable_jito_bundles = true;
  tip_lamports = 1000;
  max_bundle_retries = 2;
  region = none;
}

extract_signature_first_example :
    extract_signature_from_serialized_tx node.bs58_decode node.bs58_encode "tx" ≡ ok "signature"
extract_signature_first_example =
    extract_signature_first node.bs58_decode node.bs58_encode "tx" 1 (zeros 64) (7 ∷ []) refl
      (omega arith) (omega arith) refl

strategy_submit-IsPrivate_example :
    IsPrivate "tx" none
      (extract_signature_from_serialized_tx node.bs58_decode node.bs58_encode "tx")
      (strategy_submit node private_config "tx" true)
strategy_submit-IsPrivate_example = strategy_submit-IsPrivate node private_config "tx" true refl

abbrev lost_reply : HttpOutcome
lost_reply =
    HttpOutcome.not_sent (record { is_timeout = true; is_connect = false; text = "timed out" })

bundle_result-IsClassified_example :
    IsClassified (bundle_result lost_reply) (may_have_landed lost_reply)
bundle_result-IsClassified_example = bundle_result-IsClassified lost_reply

abbrev half_seconds : ℕ → ℕ
half_seconds n = 500000000 * n

abbrev never : ℕ → Result Bool
never n = ok false

wait_for_confirmation-IsWaitOutcome_example :
    (outcome : Result Bool) × (wait_for_confirmation half_seconds never "signature" 3
      ≡ some outcome)
    × IsWaitOutcome half_seconds never 3 outcome
wait_for_confirmation-IsWaitOutcome_example =
    wait_for_confirmation-IsWaitOutcome half_seconds never "signature" 3 (λ i. omega arith)

abbrev landed : Result (List (Option SignatureStatus))
landed = ok (some (record { err_text = none; confirmation_status = some "finalized" }) ∷ [])

statuses_agree_example :
    (read_transaction_status landed ≡ is_confirmed_answer (read_signature_status landed))
    × (read_transaction_status landed ≡ told landed)
statuses_agree_example = statuses_agree landed

abbrev sdk : Sdk
sdk = record {
  get_latest_blockhash = inr "hash";
  get_account = λ n key. inr (record { owner = "program"; data_bytes = zeros 82 });
  send_and_confirm_transaction = λ tx. inr "signature";
}

abbrev client : Client
client = record {
  sdk_client = some sdk;
  keypair = some "relayer";
  submission_strategy =
      some (record {
        submit_transaction = λ tx b. ok "signature";
        supports_private_submission = true;
      });
  jito_tip_lamports = some 1000;
  confirmation_timeout_secs = 60;
  priority_fee = 5;
  random_jito_tip_account = "tips";
  parse_pubkey = λ s. inr s;
  associated_token_address = λ wallet mint program. wallet;
  token_program_error = λ program. none;
  serialize = λ tx. inr [];
  bs58_encode = λ bytes. "tx";
}

transfer_sol-HandsOver_example :
    HandsOver
      (λ is.
        (payments is ≡ ("relayer", "bob", 5) ∷ tip_payments client "relayer")
        × (token_moves is ≡ []))
      (transfer_sol client "bob" 5)
transfer_sol-HandsOver_example = transfer_sol-HandsOver client "relayer" "bob" "bob" 5 refl refl

transfer_token-HandsOver_example :
    HandsOver
      (λ is.
        (payments is ≡ tip_payments client "relayer")
        × (token_moves is ≡ ("program", "relayer", "mint", "bob", "relayer", 5) ∷ [])
        × (creations is ≡ []))
      (transfer_token client "bob" "mint" 5)
transfer_token-HandsOver_example =
    transfer_token-HandsOver client "relayer" sdk "bob" "mint" "bob" "mint" 5
      (record { owner = "program"; data_bytes = zeros 82 }) refl refl refl refl refl

abbrev provider : RangeComplianceProvider
provider = record {
  api_key = some "key";
  base_url = "https://api.range.org/v1";
  risk_threshold = pos 6;
}

abbrev low_risk : RangeOutcome
low_risk =
    RangeOutcome.answered 200 (inr "{}")
      (inr (record { risk_score = pos 2; risk_level = "Low"; reasoning = "" }))

approval_needs_answer_example :
    (check_compliance provider request low_risk ≡ ok ComplianceStatus.rejected)
    ⊎ ((response : RiskResponse) × WasAnswered low_risk response
        × (int_leb provider.risk_threshold response.risk_score ≡ false)
        × (check_compliance provider request low_risk ≡ ok ComplianceStatus.approved))
approval_needs_answer_example = approval_needs_answer provider "key" request low_risk refl
