-- ===== src/Service/Webhook.antt =====
-- `AppService::process_helius_webhook` and `process_quicknode_webhook`: confirmations that the
-- providers push.
use solana_compliance_relaye.Prelude.{
  ℕ, ◌+◌, Bool, true, false, not, ◌&&◌, Option, none, some, String, List, [], ◌∷◌, is_some,
  unwrap_or, if◌then◌else◌,
}
use solana_compliance_relaye.Domain.Status.{BlockchainStatus, is_submitted}
use solana_compliance_relaye.Domain.Transfer.{
  TransferRequest, HeliusTransaction, QuickNodeTransactionMeta, QuickNodeWebhookEvent,
}
use solana_compliance_relaye.Runtime.{Env, Action, pure, ◌>>=◌, ◌>>◌}
use solana_compliance_relaye.Database.Transfers.{
  get_transfer_by_signature, update_blockchain_status,
}

abbrev meta_err : Option QuickNodeTransactionMeta → Option String
meta_err none = none
meta_err (some m) = m.err

-- `QuickNodeWebhookEvent::is_success` and `error_message`.
unfoldable pub is_success : QuickNodeWebhookEvent → Bool
is_success e = not (is_some e.err) && not (is_some (meta_err e.meta))

unfoldable pub error_of : Option String → Option String → Option String
error_of (some e) _ = some e
error_of none m = m

unfoldable pub error_message : QuickNodeWebhookEvent → Option String
unfolding error_of
error_message e = error_of e.err (meta_err e.meta)

-- The verdict on one transaction: its new status and error text.
abbrev pub verdict : Bool → Option String → BlockchainStatus × Option String
verdict true e = (BlockchainStatus.confirmed, none)
verdict false e = (BlockchainStatus.failed, some (unwrap_or e "Unknown transaction error"))

-- What the two loops read of an event: signature, success and error.
pub record Notice : Type 0 where
  pub signature : String
  pub success : Bool
  pub error : Option String

unfoldable pub helius_notice : HeliusTransaction → Notice
helius_notice t = record {
  signature = t.signature;
  success = not (is_some t.transaction_error);
  error = t.transaction_error;
}

unfoldable pub quicknode_notice : QuickNodeWebhookEvent → Notice
unfolding is_success error_message
quicknode_notice e = record {
  signature = e.signature;
  success = is_success e;
  error = error_message e;
}

unfoldable pub helius_notices : List HeliusTransaction → List Notice
unfolding helius_notice
helius_notices [] = []
helius_notices (t ∷ ts) = helius_notice t ∷ helius_notices ts

unfoldable pub quicknode_notices : List QuickNodeWebhookEvent → List Notice
unfolding quicknode_notice
quicknode_notices [] = []
quicknode_notices (e ∷ es) = quicknode_notice e ∷ quicknode_notices es

module _ (env : Env) where
  unfoldable pub mark : Notice → TransferRequest → Action ℕ
  unfolding ◌>>=◌
  mark n r = do
    update_blockchain_status env r.id (verdict n.success n.error).0 none
        (verdict n.success n.error).1 none none
    pure 1

  -- Whether the event changed a row: only a submitted one.
  unfoldable pub on_notice : Notice → Option TransferRequest → Action ℕ
  unfolding ◌>>=◌ mark
  on_notice n none = pure 0
  on_notice n (some r) = if is_submitted r.blockchain_status then mark n r else pure 0

  unfoldable pub process_notice : Notice → Action ℕ
  unfolding ◌>>=◌ on_notice
  process_notice n = do found ← get_transfer_by_signature env n.signature; on_notice n found

  -- The loop; the first error ends it.
  unfoldable pub process_notices : ℕ → List Notice → Action ℕ
  unfolding ◌>>=◌ process_notice
  process_notices processed [] = pure processed
  process_notices processed (n ∷ ns) = do k ← process_notice n; process_notices (processed + k) ns

  unfoldable pub process_helius_webhook : List HeliusTransaction → Action ℕ
  unfolding process_notices helius_notices
  process_helius_webhook ts = process_notices 0 (helius_notices ts)

  unfoldable pub process_quicknode_webhook : List QuickNodeWebhookEvent → Action ℕ
  unfolding process_notices quicknode_notices
  process_quicknode_webhook es = process_notices 0 (quicknode_notices es)
