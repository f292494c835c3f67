-- ===== src/Service/Outbox.antt =====
-- The operations of src/app/service.rs that hand nothing to the blockchain client.
use solana_compliance_relaye.Prelude.{
  ℕ, ◌+◌, ◌≡◌, refl, Bool, true, false, Option, none, some, List, [], ◌∷◌, String,
}
use solana_compliance_relaye.Domain.Status.{TransactionStatus}
use solana_compliance_relaye.Domain.Transfer.{
  TransferRequest, SubmitTransferRequest, CheckoutSession, HeliusTransaction, QuickNodeWebhookEvent,
}
use solana_compliance_relaye.Runtime.{Env, World, Result, ok, err}
use solana_compliance_relaye.Runtime.Keeps.{
  Keeps, keeps_rules, Keeps-bind, Keeps-pure, Keeps-attempt,
}
use solana_compliance_relaye.Database.Log.{OnLog, OnLog-quiet, fixed, log_rules}
use solana_compliance_relaye.Service.Gate.{get_signature_status-OnLog, is_blockhash_valid-OnLog}
use solana_compliance_relaye.Service.Webhook.{
  Notice, mark, on_notice, process_notice, process_notices, helius_notices, quicknode_notices,
  process_helius_webhook, process_quicknode_webhook,
}
use solana_compliance_relaye.Service.Crank.{
  on_stale_blockhash, handle_not_found_transaction, on_stale_status, check_stale_signature,
  check_stale_transaction_status, check_each, process_stale_submitted_transactions,
}
use solana_compliance_relaye.Service.Checkout.{
  hydrate_checkout_status, hydrate_from, hydrate_linked, answer_linked, link_new, answer_or_link,
  submit_live, submit_checkout_transfer,
}
use solana_compliance_relaye.Service.Submit.{
  submit_transfer, persist, screen, decide, approve, auto_block, reject_transfer,
}

module _ {Q : List TransferRequest → Type 0} (env : Env) where
  reject_transfer-OnLog : (i reason : String) → Keeps (OnLog Q) (reject_transfer env i reason)
  unfolding reject_transfer
  reject_transfer-OnLog i reason = search (keeps_rules, log_rules) depth 8

  auto_block-OnLog : (b : Bool) (a : String) → Keeps (OnLog Q) (auto_block env b a)
  unfolding auto_block
  auto_block-OnLog false a = search keeps_rules
  auto_block-OnLog true a = search (keeps_rules, log_rules)

  approve-OnLog : (t : TransferRequest) → Keeps (OnLog Q) (approve env t)
  unfolding approve
  approve-OnLog t = search (keeps_rules, log_rules) depth 8

  decide-OnLog :
      (request : SubmitTransferRequest) (t : TransferRequest) (b : Bool)
      → Keeps (OnLog Q) (decide env request t b)
  unfolding decide
  decide-OnLog request t true =
      search (keeps_rules, auto_block-OnLog, reject_transfer-OnLog) depth 8
  decide-OnLog request t false = approve-OnLog t

  screen-OnLog :
      (request : SubmitTransferRequest) (t : TransferRequest) (hit : Option String)
      → Keeps (OnLog Q) (screen env request t hit)
  unfolding screen
  screen-OnLog request t none = search (keeps_rules, OnLog-quiet, decide-OnLog)
  screen-OnLog request t (some reason) = reject_transfer-OnLog _ _

  persist-OnLog :
      (request : SubmitTransferRequest) (existing : Option TransferRequest)
      → Keeps (OnLog Q) (persist env request existing)
  unfolding persist
  persist-OnLog request none = search (keeps_rules, log_rules, screen-OnLog)
  persist-OnLog request (some existing) = search keeps_rules

  pub submit_transfer-OnLog :
      (request : SubmitTransferRequest) → Keeps (OnLog Q) (submit_transfer env request)
  unfolding submit_transfer
  submit_transfer-OnLog request = search (keeps_rules, log_rules, persist-OnLog) depth 8

  mark-OnLog : (n : Notice) (r : TransferRequest) → Keeps (OnLog Q) (mark env n r)
  unfolding mark
  mark-OnLog n r = search (keeps_rules, log_rules)

  on_notice-OnLog : (n : Notice) (o : Option TransferRequest) → Keeps (OnLog Q) (on_notice env n o)
  unfolding on_notice
  on_notice-OnLog n none = search keeps_rules
  on_notice-OnLog n (some r) = search (keeps_rules, mark-OnLog)

  pub process_notice-OnLog : (n : Notice) → Keeps (OnLog Q) (process_notice env n)
  unfolding process_notice
  process_notice-OnLog n = search (keeps_rules, log_rules, on_notice-OnLog)

  pub process_notices-OnLog :
      (k : ℕ) (ns : List Notice) → Keeps (OnLog Q) (process_notices env k ns)
  unfolding process_notices
  process_notices-OnLog k [] = Keeps-pure k
  process_notices-OnLog k (n ∷ ns) =
      Keeps-bind (process_notice-OnLog n) (λ j. process_notices-OnLog (k + j) ns)

  on_stale_blockhash-OnLog :
      (r : TransferRequest) (sig hash : String) (a : Result Bool)
      → Keeps (OnLog Q) (on_stale_blockhash env r sig hash a)
  unfolding on_stale_blockhash
  on_stale_blockhash-OnLog r sig hash (ok true) = Keeps-pure tt
  on_stale_blockhash-OnLog r sig hash (ok false) = search log_rules
  on_stale_blockhash-OnLog r sig hash (err _) = Keeps-pure tt

  handle_not_found-OnLog :
      (r : TransferRequest) (sig : String) (hash : Option String)
      → Keeps (OnLog Q) (handle_not_found_transaction env r sig hash)
  unfolding handle_not_found_transaction
  handle_not_found-OnLog r sig none = Keeps-pure tt
  handle_not_found-OnLog r sig (some hash) =
      search (keeps_rules, is_blockhash_valid-OnLog, on_stale_blockhash-OnLog)

  on_stale_status-OnLog :
      (r : TransferRequest) (sig : String) (a : Result (Option TransactionStatus))
      → Keeps (OnLog Q) (on_stale_status env r sig a)
  unfolding on_stale_status
  on_stale_status-OnLog r sig (ok (some TransactionStatus.confirmed)) = search log_rules
  on_stale_status-OnLog r sig (ok (some TransactionStatus.finalized)) = search log_rules
  on_stale_status-OnLog r sig (ok (some (TransactionStatus.failed e))) = search log_rules
  on_stale_status-OnLog r sig (ok none) = handle_not_found-OnLog r sig r.blockhash_used
  on_stale_status-OnLog r sig (err _) = Keeps-pure tt

  check_stale_signature-OnLog :
      (r : TransferRequest) (sig : Option String)
      → Keeps (OnLog Q) (check_stale_signature env r sig)
  unfolding check_stale_signature
  check_stale_signature-OnLog r none = search log_rules
  check_stale_signature-OnLog r (some sig) =
      search (keeps_rules, get_signature_status-OnLog, on_stale_status-OnLog)

  check_each-OnLog : (rs : List TransferRequest) → Keeps (OnLog Q) (check_each env rs)
  unfolding check_each check_stale_transaction_status
  check_each-OnLog [] = Keeps-pure tt
  check_each-OnLog (r ∷ rs) =
      Keeps-bind (Keeps-attempt (check_stale_signature-OnLog r r.blockchain_signature))
        (λ _. check_each-OnLog rs)

  pub process_stale-OnLog :
      (age limit : ℕ) → Keeps (OnLog Q) (process_stale_submitted_transactions env age limit)
  unfolding process_stale_submitted_transactions
  process_stale-OnLog age limit = search (keeps_rules, log_rules, check_each-OnLog)

module _ {Q : List TransferRequest → Type 0} (env : Env) where
  hydrate-OnLog : (s : CheckoutSession) → Keeps (OnLog Q) (hydrate_checkout_status env s)
  unfolding hydrate_checkout_status
  hydrate-OnLog s = hydrate_linked-OnLog s.transfer_request_id
    where
      hydrate_from-OnLog : (t : Option TransferRequest) → Keeps (OnLog Q) (hydrate_from env s t)
      hydrate_from-OnLog none = search (keeps_rules, OnLog-quiet)
      hydrate_from-OnLog (some t) = search (keeps_rules, OnLog-quiet)

      hydrate_linked-OnLog : (t : Option String) → Keeps (OnLog Q) (hydrate_linked env s t)
      hydrate_linked-OnLog none = search (keeps_rules, OnLog-quiet)
      hydrate_linked-OnLog (some t) = search (keeps_rules, log_rules, hydrate_from-OnLog)

  answer-OnLog :
      (s : CheckoutSession) (payload : SubmitTransferRequest) (t : Option String)
      → Keeps (OnLog Q) (answer_or_link env s payload t)
  unfolding answer_or_link answer_linked link_new
  answer-OnLog s payload none = search (keeps_rules, log_rules, submit_transfer-OnLog) depth 12
  answer-OnLog s payload (some t) = search (keeps_rules, log_rules) depth 12

  submit_live-OnLog :
      (s : CheckoutSession) (payload : SubmitTransferRequest)
      → Keeps (OnLog Q) (submit_live env s payload)
  unfolding submit_live
  submit_live-OnLog s payload = search (keeps_rules, answer-OnLog)

  submit_checkout_transfer-OnLog :
      (i : String) (payload : SubmitTransferRequest)
      → Keeps (OnLog Q) (submit_checkout_transfer env i payload)
  unfolding submit_checkout_transfer
  submit_checkout_transfer-OnLog i payload =
      search (keeps_rules, log_rules, hydrate-OnLog, submit_live-OnLog) depth 12

-- Accepting a transfer, paying a checkout session, either webhook and the crank never hand a
-- transaction to the blockchain client, whatever the environment answers.
pub no_submission :
    (env : Env) (request : SubmitTransferRequest) (session : String) (ts : List HeliusTransaction)
    (es : List QuickNodeWebhookEvent) (age limit : ℕ) (w : World)
    → ((submit_transfer env request w).1.submissions ≡ w.submissions)
      × ((submit_checkout_transfer env session request w).1.submissions ≡ w.submissions)
      × ((process_helius_webhook env ts w).1.submissions ≡ w.submissions)
      × ((process_quicknode_webhook env es w).1.submissions ≡ w.submissions)
      × ((process_stale_submitted_transactions env age limit w).1.submissions ≡ w.submissions)
unfolding process_helius_webhook process_quicknode_webhook
no_submission env request session ts es age limit w = (
  fixed (submit_transfer-OnLog env request) w refl,
  fixed (submit_checkout_transfer-OnLog env session request) w refl,
  fixed (process_notices-OnLog env 0 (helius_notices ts)) w refl,
  fixed (process_notices-OnLog env 0 (quicknode_notices es)) w refl,
  fixed (process_stale-OnLog env age limit) w refl,
)
