-- ===== src/Service/Redelivery.antt =====
-- Webhook events of src/app/service.rs that are delivered again.
use solana_compliance_relaye.Service.Settled.{
  find_where-modify, IsDone, IsSettled, IsSettled-quiet, verdict_not_submitted, marked,
  IsDone-modify,
}
use solana_compliance_relaye.Prelude.{
  ℕ, suc, ◌+◌, ◌≡◌, refl, ap, ◌∙◌, true, Option, none, some, List, [], ◌∷◌, str_eq_self, All, arith,
  inl, inr, Bool-cases, All-weaken,
}
use solana_compliance_relaye.Domain.Status.{is_submitted}
use solana_compliance_relaye.Domain.Transfer.{
  TransferRequest, HeliusTransaction, QuickNodeWebhookEvent,
}
use solana_compliance_relaye.Runtime.{Env, World, Action, ok, pure, bind-ok, ◌>>=◌}
use solana_compliance_relaye.Database.Statement.{statement}
use solana_compliance_relaye.Database.Table.{find, find_where, modify, UniqueIds, modify-UniqueIds}
use solana_compliance_relaye.Service.Notices.{find_where-find}
use solana_compliance_relaye.Database.Transfers.{
  has_signature, update_blockchain_status, get_transfer_by_signature,
}
use solana_compliance_relaye.Service.Webhook.{
  Notice, mark, on_notice, process_notice, process_notices, helius_notices, quicknode_notices,
  process_helius_webhook, process_quicknode_webhook,
}

-- An action returns, and run again changes nothing but the count of effects and counts nothing.
abbrev pub IsRepeatable : Action ℕ → World → Type 0
IsRepeatable m w =
    (j : ℕ) × (v : World) × (t : ℕ) × (m w ≡ (ok j, v)) × (m v ≡ (ok 0, record v { tick = t }))

-- What one event leaves behind: distinct keys, nothing for the same event to change again, and what
-- was settled before.
record IsHandled (env : Env) (n : Notice) (w : World) : Type 0 where
  count : ℕ
  after : World
  runs : process_notice env n w ≡ (ok count, after)
  unique : UniqueIds after.transfers
  settled : IsSettled n after
  kept : (m : Notice) → IsSettled m w → IsSettled m after

module _ (env : Env) (up : (n : ℕ) → env.fault n ≡ none) where
  looked_up :
      (n : Notice) (w : World)
      → process_notice env n w
        ≡ on_notice env n
            (find_where (has_signature n.signature) w.transfers)
            (record w { tick = suc w.tick })
  unfolding process_notice get_transfer_by_signature statement ◌>>=◌
  looked_up n w = rw (up w.tick) refl

  unchanged :
      (n : Notice) (o : Option TransferRequest) (w : World)
      → IsDone o
      → on_notice env n o w ≡ (ok 0, w)
  unfolding on_notice pure
  unchanged n none w h = refl
  unchanged n (some q) w h = simp h refl

  -- A settled event changes nothing.
  settled_again :
      (n : Notice) (w : World)
      → IsSettled n w
      → process_notice env n w ≡ (ok 0, record w { tick = suc w.tick })
  settled_again n w h =
      looked_up n w ∙ unchanged n (find_where (has_signature n.signature) w.transfers) _ h.done

  marked_up :
      (n : Notice) (q : TransferRequest) (w : World)
      → find q.id w.transfers ≡ some q
      → is_submitted q.blockchain_status ≡ true
      → on_notice env n (some q) w ≡ (
        ok 1,
        record w {
          transfers = modify q.id (marked n (env.clock w.tick)) w.transfers;
          tick = suc w.tick;
        },
      )
  unfolding on_notice mark update_blockchain_status statement pure ◌>>=◌
  marked_up n q w found s = simp s (rw (up w.tick, found) refl)

  idle :
      (n : Notice) (o : Option TransferRequest) (w : World)
      → UniqueIds w.transfers
      → find_where (has_signature n.signature) w.transfers ≡ o
      → IsDone o
      → IsHandled env n w
  idle n o w u e d = record {
    count = 0;
    after = record w { tick = suc w.tick };
    runs = looked_up n w ∙ rw e (unchanged n o (record w { tick = suc w.tick }) d);
    unique = u;
    settled = record { done = rw e d };
    kept = λ m h. record { done = h.done };
  }

  effective :
      (n : Notice) (q : TransferRequest) (w : World)
      → UniqueIds w.transfers
      → find_where (has_signature n.signature) w.transfers ≡ some q
      → is_submitted q.blockchain_status ≡ true
      → IsHandled env n w
  effective n q w u e s = record {
    count = 1;
    after = record w {
      transfers = modify q.id (marked n (env.clock (suc w.tick))) w.transfers;
      tick = suc (suc w.tick);
    };
    runs =
        looked_up n w
        ∙ rw e (
            marked_up n q (record w { tick = suc w.tick })
              (find_where-find (has_signature n.signature) w.transfers u e) s);
    unique = modify-UniqueIds q.id _ w.transfers (λ r. refl) u;
    settled = record {
      done =
          rw
            (
              find_where-modify (has_signature n.signature) q.id (marked n (env.clock (suc w.tick)))
                  w.transfers (λ r. refl),
              e,
              str_eq_self q.id,
            )
            (verdict_not_submitted n.success n.error);
    };
    kept =
        λ m h. record { done = IsDone-modify m n (env.clock (suc w.tick)) q.id w.transfers h.done };
  }

  handled :
      (n : Notice) (o : Option TransferRequest) (w : World)
      → UniqueIds w.transfers
      → find_where (has_signature n.signature) w.transfers ≡ o
      → IsHandled env n w
  handled n none w u e = idle n none w u e tt
  handled n (some q) w u e = elim (Bool-cases (is_submitted q.blockchain_status)) [
    | inl s ↦ effective n q w u e s
    | inr s ↦ idle n (some q) w u e s
  ]

  -- A list of events, once handled, is settled, and changes nothing when it comes again.
  notices_handled :
      (k : ℕ) (ns : List Notice) (w : World)
      → UniqueIds w.transfers
      → (j : ℕ) × (v : World) × (process_notices env k ns w ≡ (ok j, v))
        × UniqueIds v.transfers
        × ((m : Notice) → IsSettled m w → IsSettled m v)
        × All (λ n. IsSettled n v) ns
  unfolding process_notices pure
  notices_handled k [] w u = (k, w, refl, u, λ m h. h, tt)
  notices_handled k (n ∷ ns) w u =
      let h = handled n (find_where (has_signature n.signature) w.transfers) w u refl in
      let (j, v, runs, unique, kept, settled) = notices_handled (k + h.count) ns h.after h.unique in
      (
        j,
        v,
        bind-ok (process_notice env n) (λ c. process_notices env (k + c) ns) h.runs ∙ runs,
        unique,
        λ m g. kept m (h.kept m g),
        (kept n h.settled, settled),
      )

  notices_again :
      (k : ℕ) (ns : List Notice) (w : World)
      → All (λ n. IsSettled n w) ns
      → (t : ℕ) × (process_notices env k ns w ≡ (ok k, record w { tick = t }))
  unfolding process_notices pure
  notices_again k [] w h = (w.tick, refl)
  notices_again k (n ∷ ns) w h =
      let (t, e) =
        notices_again (k + 0) ns (record w { tick = suc w.tick })
          (All-weaken (λ m. IsSettled m w) (λ m. IsSettled m (record w { tick = suc w.tick })) ns
            (λ m g. IsSettled-quiet m w (suc w.tick) g) h.1) in
      (
        t,
        bind-ok (process_notice env n) (λ c. process_notices env (k + c) ns) (settled_again n w h.0)
            ∙ e
            ∙ ap (λ c. (ok c, record w { tick = t })) (plus_zero k),
      )
    where
      plus_zero : (c : ℕ) → c + 0 ≡ c
      plus_zero c = omega arith

-- With distinct keys, when the database answers, a webhook returns, and the same events delivered
-- again return that nothing was processed and change nothing but the count of effects.
pub redelivery_changes_nothing :
    (env : Env) (ts : List HeliusTransaction) (es : List QuickNodeWebhookEvent) (w : World)
    → ((n : ℕ) → env.fault n ≡ none)
    → UniqueIds w.transfers
    → IsRepeatable (process_helius_webhook env ts) w
      × IsRepeatable (process_quicknode_webhook env es) w
unfolding process_helius_webhook process_quicknode_webhook
redelivery_changes_nothing env ts es w up u =
    (repeatable (helius_notices ts), repeatable (quicknode_notices es))
  where
    repeatable : (ns : List Notice) → IsRepeatable (process_notices env 0 ns) w
    repeatable ns =
        let (j, v, runs, unique, kept, settled) = notices_handled env up 0 ns w u in
        let (t, again) = notices_again env up 0 ns v settled in (j, v, t, runs, again)
