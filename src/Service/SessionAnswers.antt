-- ===== src/Service/SessionAnswers.antt =====
-- How a checkout session of src/app/service.rs answers a payment once it has its transfer, and once it
-- has expired.
use solana_compliance_relaye.Prelude.{
  ℕ, suc, ◌≡◌, refl, ap, ◌∙◌, Bool, true, false, none, some, String, leb, if◌then◌else◌, ◌||◌,
}
use solana_compliance_relaye.Domain.Status.{
  CheckoutSessionStatus, is_rejected, is_open, is_session_expired, is_confirmed, is_failed,
  is_expired,
}
use solana_compliance_relaye.Domain.Transfer.{
  TransferRequest, SubmitTransferRequest, CheckoutSession,
}
use solana_compliance_relaye.Runtime.{Env, World, ok, pure, raise, ask, ok_or, bind-ok, ◌>>=◌}
use solana_compliance_relaye.Runtime.Fails.{IsErr}
use solana_compliance_relaye.Database.Table.{find, find_where}
use solana_compliance_relaye.Database.Statement.{statement}
use solana_compliance_relaye.Database.Transfers.{get_transfer_request}
use solana_compliance_relaye.Database.Sessions.{has_session_id, select_checkout_session}
use solana_compliance_relaye.Service.Checkout.{
  or_expired, checkout_status_from_transfer, hydrate_unlinked, hydrate_from, hydrate_linked,
  hydrate_checkout_status, answer_linked, answer_or_link, submit_live, submit_checkout_transfer,
}
use solana_compliance_relaye.Service.Payment.{checkout_status_cases}

-- A session with a transfer is never expired.
live_status :
    (t : TransferRequest) (expires_at now : ℕ)
    → is_session_expired (checkout_status_from_transfer t expires_at now) ≡ false
live_status t expires_at now =
    ap is_session_expired (checkout_status_cases t expires_at now)
    ∙ by_tests (is_rejected t.compliance_status) (is_confirmed t.blockchain_status)
        (is_failed t.blockchain_status || is_expired t.blockchain_status)
  where
    by_tests :
        (a b c : Bool)
        → is_session_expired (
            if a
            then CheckoutSessionStatus.rejected
            else if b
            then CheckoutSessionStatus.settled
            else if c
            then CheckoutSessionStatus.failed
            else CheckoutSessionStatus.transfer_submitted)
          ≡ false
    by_tests true b c = refl
    by_tests false true c = refl
    by_tests false false true = refl
    by_tests false false false = refl

module _ (env : Env) (up : (n : ℕ) → env.fault n ≡ none) (sid : String)
    (payload : SubmitTransferRequest) where
  -- The lookup and the refresh of the session come first.
  submit_refreshed :
      (s : CheckoutSession) (w : World)
      → find_where (has_session_id sid) w.sessions ≡ some s
      → submit_checkout_transfer env sid payload w
        ≡ (hydrate_checkout_status env s >>= λ live. submit_live env live payload)
            (record w { tick = suc w.tick })
  unfolding submit_checkout_transfer select_checkout_session statement ok_or ◌>>=◌
  submit_refreshed s w found = rw (up w.tick, found) refl

  hydrate_known :
      (s : CheckoutSession) (t : TransferRequest) (tid : String) (w : World)
      → s.transfer_request_id ≡ some tid
      → find tid w.transfers ≡ some t
      → hydrate_checkout_status env s w ≡ (
        ok (record s {
          status = checkout_status_from_transfer t s.expires_at (env.clock (suc w.tick));
        }),
        record w { tick = suc (suc w.tick) },
      )
  unfolding hydrate_checkout_status hydrate_linked hydrate_from get_transfer_request statement ask
      pure ◌>>=◌
  hydrate_known s t tid w linked found = ap (λ o. hydrate_linked env s o w) linked ∙ from_transfer
    where
      from_transfer : hydrate_linked env s (some tid) w ≡ (
        ok (record s {
          status = checkout_status_from_transfer t s.expires_at (env.clock (suc w.tick));
        }),
        record w { tick = suc (suc w.tick) },
      )
      from_transfer = rw (up w.tick, found) refl

  answer_known :
      (s : CheckoutSession) (t : TransferRequest) (tid : String) (w : World)
      → find tid w.transfers ≡ some t
      → answer_linked env s tid w ≡ (
        ok (record {
          session = record s {
            status = checkout_status_from_transfer t s.expires_at (env.clock (suc w.tick));
          };
          transfer_request = t;
        }),
        record w { tick = suc (suc w.tick) },
      )
  unfolding answer_linked get_transfer_request statement ask ok_or pure ◌>>=◌
  answer_known s t tid w found = rw (up w.tick, found) refl

-- A session that has its transfer, stored, answers every payment, whatever it holds, with that
-- transfer and its live status when the database answers, and changes nothing but the count of
-- effects: it is not paid twice.
pub session_answers_linked :
    (env : Env) (sid tid : String) (payload : SubmitTransferRequest) (s : CheckoutSession)
    (t : TransferRequest) (w : World)
    → ((n : ℕ) → env.fault n ≡ none)
    → find_where (has_session_id sid) w.sessions ≡ some s
    → s.transfer_request_id ≡ some tid
    → find tid w.transfers ≡ some t
    → submit_checkout_transfer env sid payload w ≡ (
      ok (record {
        session = record s {
          status =
              checkout_status_from_transfer t s.expires_at
                (env.clock (suc (suc (suc (suc w.tick)))));
        };
        transfer_request = t;
      }),
      record w { tick = suc (suc (suc (suc (suc w.tick)))) },
    )
unfolding submit_live answer_or_link
session_answers_linked env sid tid payload s t w up found linked known =
    submit_refreshed env up sid payload s w found
    ∙ bind-ok (hydrate_checkout_status env s) (λ live. submit_live env live payload)
        (hydrate_known env up sid payload s t tid (record w { tick = suc w.tick }) linked known)
    ∙ simp (live_status t s.expires_at (env.clock (suc (suc w.tick))), linked)
        (answer_known env up sid payload _ t tid _ known)

-- An open session without a transfer whose expiry has come refuses every payment with an error, and
-- stores nothing, when the database answers.
pub expired_session_refuses :
    (env : Env) (sid : String) (payload : SubmitTransferRequest) (s : CheckoutSession) (w : World)
    → ((n : ℕ) → env.fault n ≡ none)
    → find_where (has_session_id sid) w.sessions ≡ some s
    → s.transfer_request_id ≡ none
    → is_open s.status ≡ true
    → leb s.expires_at (env.clock (suc w.tick)) ≡ true
    → IsErr (submit_checkout_transfer env sid payload w).0
      × ((submit_checkout_transfer env sid payload w).1 ≡ record w { tick = suc (suc w.tick) })
unfolding hydrate_checkout_status hydrate_linked hydrate_unlinked or_expired submit_live ask pure
    raise ◌>>=◌
expired_session_refuses env sid payload s w up found unlinked open_now due =
    rw (submit_refreshed env up sid payload s w found) (simp (unlinked, open_now, due) (tt, refl))
