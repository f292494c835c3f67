-- ===== src/System/Sessions.antt =====
-- The checkout sessions of src/app/service.rs and the wallet check of src/app/risk_service.rs keep
-- the tables sound.
use solana_compliance_relaye.Prelude.{ℤ, ℕ, Bool, true, false, Option, none, some, List, String}
use solana_compliance_relaye.Domain.Status.{CheckoutSessionStatus}
use solana_compliance_relaye.Domain.Transfer.{
  TransferRequest, SubmitTransferRequest, CreateCheckoutSessionRequest, CheckoutSession,
  WalletRiskProfile,
}
use solana_compliance_relaye.Runtime.{Env, World}
use solana_compliance_relaye.Runtime.Keeps.{Keeps, keeps_rules, Keeps-bind, Keeps-pure, Keeps-gets}
use solana_compliance_relaye.Database.Statement.{Keeps-statement}
use solana_compliance_relaye.Database.Sessions.{
  insert_checkout_session, select_checkout_session, link_checkout_session_transfer,
  get_risk_profile, upsert_risk_profile, insert_session, insert_checked, is_positive_i64,
  link_session,
}
use solana_compliance_relaye.System.Screened.{IsSound, IsSound-quiet}
use solana_compliance_relaye.System.Handlers.{
  get_transfer_request-IsSound, add_address-IsSound, submit_transfer-IsSound,
}
use solana_compliance_relaye.Risk.{
  list_address, auto_block_risky, query_providers, from_cache_or_query, unless_listed,
  check_wallet_risk,
}
use solana_compliance_relaye.Service.Checkout.{
  expiry, open_session_until, create_checkout_session, hydrate_unlinked, hydrate_from,
  hydrate_linked, hydrate_checkout_status, hydrate_option, get_checkout_session, answer_linked,
  link_new, answer_or_link, submit_live, submit_checkout_transfer,
}

module _ {known : List String} (env : Env) where
  select_checkout_session-IsSound :
      (i : String) → Keeps (IsSound known) (select_checkout_session env i)
  unfolding select_checkout_session
  select_checkout_session-IsSound i = Keeps-statement env _ _ (IsSound-quiet known) λ now w h. h

  insert_checkout_session-IsSound :
      (request : CreateCheckoutSessionRequest) (expires_at : ℕ)
      → Keeps (IsSound known) (insert_checkout_session env request expires_at)
  unfolding insert_checkout_session
  insert_checkout_session-IsSound request expires_at =
      Keeps-statement env _ _ (IsSound-quiet known)
        λ now w h. by_check (is_positive_i64 request.amount) _ _ w h
    where
      go :
          (s : CheckoutSession) (o : Option CheckoutSession) (w : World)
          → IsSound known w
          → IsSound known (insert_session env s o w).1
      go s none w h = record {
        unique = h.unique;
        rows = h.rows;
        handed = h.handed;
        shown = h.shown;
      }
      go s (some q) w h = h

      by_check :
          (b : Bool) (s : CheckoutSession) (o : Option CheckoutSession) (w : World)
          → IsSound known w
          → IsSound known (insert_checked env b s o w).1
      by_check true s o w h = go s o w h
      by_check false s o w h = h

  link_checkout_session-IsSound :
      (i t : String) (status : CheckoutSessionStatus)
      → Keeps (IsSound known) (link_checkout_session_transfer env i t status)
  unfolding link_checkout_session_transfer
  link_checkout_session-IsSound i t status =
      Keeps-statement env _ _ (IsSound-quiet known) λ now w h. go now _ w h
    where
      go :
          (now : ℕ) (o : Option CheckoutSession) (w : World)
          → IsSound known w
          → IsSound known (link_session env i t status now o w).1
      go now none w h = h
      go now (some s) w h = record {
        unique = h.unique;
        rows = h.rows;
        handed = h.handed;
        shown = h.shown;
      }

  pub get_risk_profile-IsSound :
      (a : String) (max_age : ℕ) → Keeps (IsSound known) (get_risk_profile env a max_age)
  unfolding get_risk_profile
  get_risk_profile-IsSound a max_age = Keeps-statement env _ _ (IsSound-quiet known) λ now w h. h

  upsert_risk_profile-IsSound :
      (p : WalletRiskProfile) → Keeps (IsSound known) (upsert_risk_profile env p)
  unfolding upsert_risk_profile
  upsert_risk_profile-IsSound p =
      Keeps-statement env _ _ (IsSound-quiet known)
        λ now w h. record { unique = h.unique; rows = h.rows; handed = h.handed; shown = h.shown }

ruleset session_rules = (
  IsSound-quiet, select_checkout_session-IsSound, insert_checkout_session-IsSound,
  link_checkout_session-IsSound, get_transfer_request-IsSound, get_risk_profile-IsSound,
  upsert_risk_profile-IsSound, add_address-IsSound,
)

module _ {known : List String} (env : Env) where
  hydrate_unlinked-IsSound : (s : CheckoutSession) → Keeps (IsSound known) (hydrate_unlinked env s)
  unfolding hydrate_unlinked
  hydrate_unlinked-IsSound s = search (keeps_rules, session_rules)

  hydrate_linked-IsSound :
      (s : CheckoutSession) (o : Option String) → Keeps (IsSound known) (hydrate_linked env s o)
  unfolding hydrate_linked hydrate_from
  hydrate_linked-IsSound s none = hydrate_unlinked-IsSound s
  hydrate_linked-IsSound s (some i) = Keeps-bind (get_transfer_request-IsSound env i) from
    where
      from : (o : Option TransferRequest) → Keeps (IsSound known) (hydrate_from env s o)
      from none = hydrate_unlinked-IsSound s
      from (some t) = search (keeps_rules, session_rules)

  hydrate_checkout_status-IsSound :
      (s : CheckoutSession) → Keeps (IsSound known) (hydrate_checkout_status env s)
  unfolding hydrate_checkout_status
  hydrate_checkout_status-IsSound s = hydrate_linked-IsSound s s.transfer_request_id

  pub get_checkout_session-IsSound :
      (i : String) → Keeps (IsSound known) (get_checkout_session env i)
  unfolding get_checkout_session hydrate_option
  get_checkout_session-IsSound i = Keeps-bind (select_checkout_session-IsSound env i) option
    where
      option : (o : Option CheckoutSession) → Keeps (IsSound known) (hydrate_option env o)
      option none = Keeps-pure none
      option (some s) = search (keeps_rules, hydrate_checkout_status-IsSound)

  expiry-IsSound : (o : Option ℕ) → Keeps (IsSound known) (expiry env o)
  unfolding expiry
  expiry-IsSound none = search (keeps_rules, session_rules)
  expiry-IsSound (some t) = Keeps-pure t

  pub create_checkout_session-IsSound :
      (request : CreateCheckoutSessionRequest)
      → Keeps (IsSound known) (create_checkout_session env request)
  unfolding create_checkout_session open_session_until
  create_checkout_session-IsSound request =
      search (keeps_rules, session_rules, expiry-IsSound) depth 8

  answer_or_link-IsSound :
      (s : CheckoutSession) (payload : SubmitTransferRequest) (o : Option String)
      → Keeps (IsSound known) (answer_or_link env s payload o)
  unfolding answer_or_link answer_linked link_new
  answer_or_link-IsSound s payload none =
      search (keeps_rules, session_rules, submit_transfer-IsSound) depth 8
  answer_or_link-IsSound s payload (some i) = search (keeps_rules, session_rules) depth 8

  pub submit_checkout_transfer-IsSound :
      (i : String) (payload : SubmitTransferRequest)
      → Keeps (IsSound known) (submit_checkout_transfer env i payload)
  unfolding submit_checkout_transfer submit_live
  submit_checkout_transfer-IsSound i payload =
      search (keeps_rules, session_rules, hydrate_checkout_status-IsSound, answer_or_link-IsSound)
        depth 8

  list_address-IsSound :
      (ttl : ℕ) (b : Bool) (a reason : String)
      → Keeps (IsSound known) (list_address env ttl b a reason)
  unfolding list_address
  list_address-IsSound ttl false a reason = Keeps-pure tt
  list_address-IsSound ttl true a reason = search (keeps_rules, session_rules)

  auto_block_risky-IsSound :
      (ttl : ℕ) (p : WalletRiskProfile) (o : Option ℤ)
      → Keeps (IsSound known) (auto_block_risky env ttl p o)
  unfolding auto_block_risky
  auto_block_risky-IsSound ttl p none = Keeps-pure tt
  auto_block_risky-IsSound ttl p (some score) = search (keeps_rules, list_address-IsSound)

  pub check_wallet_risk-IsSound :
      (ttl : ℕ) (a : String) → Keeps (IsSound known) (check_wallet_risk env ttl a)
  unfolding check_wallet_risk query_providers
  check_wallet_risk-IsSound ttl a = Keeps-bind (Keeps-gets _) unlisted
    where
      cached :
          (o : Option WalletRiskProfile) → Keeps (IsSound known) (from_cache_or_query env ttl a o)
      cached none = search (keeps_rules, session_rules, auto_block_risky-IsSound) depth 10
      cached (some p) = Keeps-pure _

      unlisted : (o : Option String) → Keeps (IsSound known) (unless_listed env ttl a o)
      unlisted none = Keeps-bind (get_risk_profile-IsSound env a ttl) cached
      unlisted (some reason) = Keeps-pure _
