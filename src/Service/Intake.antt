-- ===== src/Service/Intake.antt =====
-- What `submit_transfer` makes of a new request, of a known one, and of one that takes the nonce of
-- another sender.
use solana_compliance_relaye.Prelude.{
  ℕ, suc, ◌≡◌, refl, ap, ◌∙◌, Bool, true, false, Option, none, some, List, [], ◌∷◌, ◌++◌, String,
  ◌+++◌, str_eq_self, or_else,
}
use solana_compliance_relaye.Domain.Status.{BlockchainStatus, ComplianceStatus}
use solana_compliance_relaye.Domain.Transfer.{TransferRequest, SubmitTransferRequest}
use solana_compliance_relaye.Domain.Request.{validate, verify_signature}
use solana_compliance_relaye.Runtime.{
  Env, World, Result, ok, err, lift, gets, ask_result, ◌>>=◌, bind-ok,
}
use solana_compliance_relaye.Runtime.Keeps.{Keeps, Keeps-pure, Keeps-bind, Keeps-attempt}
use solana_compliance_relaye.Database.Statement.{Keeps-statement}
use solana_compliance_relaye.Blocklist.{add_address, check_address}
use solana_compliance_relaye.Service.Settling.{
  rejected_row, rejected_world_found, reject_transfer_up, queued_row, approved_world_found,
  approve_up,
}
use solana_compliance_relaye.Database.Table.{find, find_where, find-append}
use solana_compliance_relaye.Database.Transfers.{
  new_row, has_nonce, has_sender_nonce, find_by_nonce,
}
use solana_compliance_relaye.Database.Effects.{find_by_nonce_up, insert_transfer_request_new}
use solana_compliance_relaye.Service.Submit.{
  blocklist_hit, is_unlisted, range_rejection, reject_transfer, auto_block, decide, screen, persist,
  submit_transfer,
}

-- A request that may enter: valid, signed, under a nonce that no row has, and with a fresh key; the
-- database answers.
pub record IsNew (env : Env) (request : SubmitTransferRequest) (w : World) : Type 0 where
  pub up : (n : ℕ) → env.fault n ≡ none
  pub valid : validate env request ≡ ok tt
  pub signed : verify_signature env request ≡ ok tt
  pub unknown_sender_nonce :
      find_where (has_sender_nonce request.from_address request.nonce) w.transfers ≡ none
  pub unknown_nonce : find_where (has_nonce request.nonce) w.transfers ≡ none
  pub fresh : find (env.new_uuid (suc w.tick)) w.transfers ≡ none

-- What becomes of it: compliance status, blockchain status and error text, by the reasons for which
-- the recipient and the sender are listed and the answer of the compliance provider.
unfoldable pub outcome :
    Option String
    → Option String
    → Result ComplianceStatus
    → ComplianceStatus × BlockchainStatus × Option String
outcome (some reason) _ _ =
    (ComplianceStatus.rejected, BlockchainStatus.failed, some ("Blocklist: " +++ reason))
outcome none (some reason) _ =
    (ComplianceStatus.rejected, BlockchainStatus.failed, some ("Blocklist: " +++ reason))
outcome none none (ok ComplianceStatus.rejected) = (
  ComplianceStatus.rejected,
  BlockchainStatus.failed,
  some "Range Protocol: High-risk address detected (CRITICAL RISK)",
)
outcome none none (ok _) = (ComplianceStatus.approved, BlockchainStatus.pending_submission, none)
outcome none none (err _) = (ComplianceStatus.pending, BlockchainStatus.received, none)

-- The row under a key stands as an outcome says.
abbrev pub HasOutcome :
    String → World → ComplianceStatus × BlockchainStatus × Option String → Type 0
HasOutcome i w o =
    (r : TransferRequest) × (find i w.transfers ≡ some r)
    × (r.compliance_status ≡ o.0)
    × (r.blockchain_status ≡ o.1)
    × (r.blockchain_last_error ≡ o.2)

module _ (env : Env) (up : (n : ℕ) → env.fault n ≡ none) where
  auto_block_same :
      (b : Bool) (a : String) (l : List TransferRequest)
      → Keeps (λ w. w.transfers ≡ l) (auto_block env b a)
  unfolding auto_block add_address
  auto_block_same false a l = Keeps-pure tt
  auto_block_same true a l =
      Keeps-bind (Keeps-attempt (Keeps-statement env _ _ (λ w n h. h) (λ now w h. h)))
        (λ _. Keeps-pure tt)

  auto_block_ok :
      (b : Bool) (a : String) (w : World) → auto_block env b a w ≡ (ok tt, (auto_block env b a w).1)
  unfolding auto_block
  auto_block_ok false a w = refl
  auto_block_ok true a w = refl

  decide_rejects :
      (request : SubmitTransferRequest) (t : TransferRequest) (w : World)
      → find t.id w.transfers ≡ some t
      → HasOutcome t.id
          (decide env request t true w).1
          (ComplianceStatus.rejected, BlockchainStatus.failed, some range_rejection)
  unfolding decide
  decide_rejects request t w found =
      rw
        (bind-ok (auto_block env b request.to_address)
          (λ _. reject_transfer env t.id range_rejection) (auto_block_ok b request.to_address w))
        (rw (reject_transfer_up env up t.id range_rejection v still) (
          rejected_row env up range_rejection v.tick t,
          rejected_world_found env up t.id range_rejection v still,
          refl,
          refl,
          refl,
        ))
    where
      b : Bool
      b = is_unlisted w.blocklist request.to_address

      v : World
      v = (auto_block env b request.to_address w).1

      still : find t.id v.transfers ≡ some t
      still = ap (find t.id) ((auto_block_same b request.to_address w.transfers).at w refl) ∙ found

  decide_approves :
      (request : SubmitTransferRequest) (t : TransferRequest) (w : World)
      → find t.id w.transfers ≡ some t
      → t.blockchain_last_error ≡ none
      → HasOutcome t.id
          (decide env request t false w).1
          (ComplianceStatus.approved, BlockchainStatus.pending_submission, none)
  unfolding decide
  decide_approves request t w found clean =
      rw (approve_up env up t w found)
        (queued_row env up w.tick t, approved_world_found env up t.id w found, refl, refl, refl)

  screen_answer :
      (request : SubmitTransferRequest) (t : TransferRequest) (w : World)
      (answer : Result ComplianceStatus)
      → env.check_compliance w.tick request ≡ answer
      → find t.id w.transfers ≡ some t
      → t.compliance_status ≡ ComplianceStatus.pending
      → t.blockchain_status ≡ BlockchainStatus.received
      → t.blockchain_last_error ≡ none
      → HasOutcome t.id (screen env request t none w).1 (outcome none none answer)
  unfolding screen outcome ask_result ◌>>=◌
  screen_answer request t w (ok ComplianceStatus.rejected) e found p q c =
      rw e (decide_rejects request t (record w { tick = suc w.tick }) found)
  screen_answer request t w (ok ComplianceStatus.approved) e found p q c =
      rw e (decide_approves request t (record w { tick = suc w.tick }) found c)
  screen_answer request t w (ok ComplianceStatus.pending) e found p q c =
      rw e (decide_approves request t (record w { tick = suc w.tick }) found c)
  screen_answer request t w (err x) e found p q c = rw e (t, found, p, q, c)

  listed-outcome :
      (request : SubmitTransferRequest) (t : TransferRequest) (reason : String) (w : World)
      → find t.id w.transfers ≡ some t
      → HasOutcome t.id
          (screen env request t (some reason) w).1
          (ComplianceStatus.rejected, BlockchainStatus.failed, some ("Blocklist: " +++ reason))
  unfolding screen
  listed-outcome request t reason w found =
      rw (reject_transfer_up env up t.id ("Blocklist: " +++ reason) w found) (
        rejected_row env up ("Blocklist: " +++ reason) w.tick t,
        rejected_world_found env up t.id ("Blocklist: " +++ reason) w found,
        refl,
        refl,
        refl,
      )

  screen-outcome :
      (request : SubmitTransferRequest) (t : TransferRequest) (recipient sender : Option String)
      (w : World)
      → find t.id w.transfers ≡ some t
      → t.compliance_status ≡ ComplianceStatus.pending
      → t.blockchain_status ≡ BlockchainStatus.received
      → t.blockchain_last_error ≡ none
      → HasOutcome t.id
          (screen env request t (or_else recipient sender) w).1
          (outcome recipient sender (env.check_compliance w.tick request))
  unfolding outcome
  screen-outcome request t (some reason) sender w found p q c =
      listed-outcome request t reason w found
  screen-outcome request t none (some reason) w found p q c =
      listed-outcome request t reason w found
  screen-outcome request t none none w found p q c =
      screen_answer request t w (env.check_compliance w.tick request) refl found p q c

-- The row that a new request gets, and the world in which it is screened.
abbrev pub stored_row : Env → SubmitTransferRequest → World → TransferRequest
stored_row env request w = new_row request (env.new_uuid (suc w.tick)) (env.clock (suc w.tick))

abbrev pub stored_world : Env → SubmitTransferRequest → World → World
stored_world env request w = record w {
  transfers = w.transfers ++ stored_row env request w ∷ [];
  tick = suc (suc w.tick);
}

pub checked :
    (env : Env) (request : SubmitTransferRequest) (w : World)
    → validate env request ≡ ok tt
    → verify_signature env request ≡ ok tt
    → (known : Option TransferRequest)
    → find_by_nonce env request.from_address request.nonce w
      ≡ (ok known, record w { tick = suc w.tick })
    → submit_transfer env request w ≡ persist env request known (record w { tick = suc w.tick })
unfolding submit_transfer lift ◌>>=◌
checked env request w valid signed known e = rw (valid, signed, e) refl

stored :
    (env : Env) (request : SubmitTransferRequest) (w : World)
    → IsNew env request w
    → submit_transfer env request w
      ≡ screen env request
          (stored_row env request w)
          (blocklist_hit request.to_address request.from_address w)
          (stored_world env request w)
unfolding persist gets ◌>>=◌ blocklist_hit
stored env request w h =
    checked env request w h.valid h.signed none (
      find_by_nonce_up env request.from_address request.nonce w (h.up _)
      ∙ rw h.unknown_sender_nonce refl)
    ∙ rw
        (insert_transfer_request_new env request (record w { tick = suc w.tick }) (h.up _)
          h.unknown_nonce h.fresh)
        refl

stored_found :
    (env : Env) (request : SubmitTransferRequest) (w : World)
    → IsNew env request w
    → find (env.new_uuid (suc w.tick)) (stored_world env request w).transfers
      ≡ some (stored_row env request w)
unfolding new_row
stored_found env request w h =
    find-append (env.new_uuid (suc w.tick)) w.transfers (stored_row env request w)
    ∙ rw (h.fresh, str_eq_self (env.new_uuid (suc w.tick))) refl

-- A new request, valid and signed, under a nonce that no row has and with a fresh key, is stored
-- when the database answers, and then stands as the blocklist and the compliance provider decide:
-- rejected for a listed address, the recipient's reason before the sender's, with no answer of the
-- provider needed; rejected for high risk; approved and queued; or, when the provider fails, still
-- received and pending.
pub submit_transfer-outcome :
    (env : Env) (request : SubmitTransferRequest) (w : World)
    → IsNew env request w
    → HasOutcome (env.new_uuid (suc w.tick)) (submit_transfer env request w).1 (
        outcome
          (check_address request.to_address w)
          (check_address request.from_address w)
          (env.check_compliance (suc (suc w.tick)) request))
unfolding new_row blocklist_hit
submit_transfer-outcome env request w h = rw (stored env request w h) (
    screen-outcome env h.up request (stored_row env request w) (check_address request.to_address w)
      (check_address request.from_address w) (stored_world env request w)
      (stored_found env request w h) refl refl refl)
