-- ===== src/Service/Notices.antt =====
-- What the webhooks of src/app/service.rs may change: submitted requests only.
use solana_compliance_relaye.Prelude.{
  ℕ, suc, ◌+◌, ◌≡◌, refl, ◌∙◌, Bool, true, false, Option, none, some, List, [], ◌∷◌, String, eq_iff,
  arith, inl, inr, Bool-cases, Option-cases, str_eq_self,
}
use solana_compliance_relaye.Domain.Status.{is_submitted}
use solana_compliance_relaye.Domain.Transfer.{
  TransferRequest, HeliusTransaction, QuickNodeWebhookEvent,
}
use solana_compliance_relaye.Runtime.{Env, World, pure, ◌>>=◌}
use solana_compliance_relaye.Runtime.Keeps.{Keeps, IsQuiet, Keeps-bind, Keeps-pure}
use solana_compliance_relaye.Database.Statement.{statement}
use solana_compliance_relaye.Database.Table.{
  find, find_where, modify, find-modify, UniqueIds, modify-UniqueIds,
}
use solana_compliance_relaye.Database.Transfers.{
  has_signature, update_blockchain_status, get_transfer_by_signature, set_blockchain,
}
use solana_compliance_relaye.Service.Webhook.{
  Notice, verdict, mark, on_notice, process_notice, process_notices, helius_notices,
  quicknode_notices, process_helius_webhook, process_quicknode_webhook,
}

-- A row found by any test is found again by its key.
pub find_where-find :
    (p : TransferRequest → Bool) (rs : List TransferRequest) {q : TransferRequest}
    → UniqueIds rs
    → find_where p rs ≡ some q
    → find q.id rs ≡ some q
unfolding find
find_where-find p [] {q} u e = ground arith
find_where-find p (r ∷ rs) {q} u e =
    ground (arith, eq_iff r.id q.id, str_eq_self q.id, find_where-find p rs {q = q} u.1)

-- An update keeps distinct keys and leaves a row alone that it is not about.
update_row-Fixed :
    (i : String) (r : TransferRequest) (n : Notice) (now : ℕ) (rs : List TransferRequest)
    {q : TransferRequest}
    → UniqueIds rs
    → find_where (has_signature n.signature) rs ≡ some q
    → is_submitted q.blockchain_status ≡ true
    → is_submitted r.blockchain_status ≡ false
    → find i rs ≡ some r
    → find i (
        modify q.id
          (set_blockchain
            (verdict n.success n.error).0
            none
            (verdict n.success n.error).1
            none
            none
            now)
          rs)
      ≡ some r
update_row-Fixed i r n now rs {q} u e s k f =
    find-modify q.id i _ rs (λ x. refl)
    ∙ ground (arith, eq_iff q.id i, find_where-find (has_signature n.signature) rs u e)

-- One row stands under its key, and the keys are distinct.
record Stands (i : String) (r : TransferRequest) (w : World) : Type 0 where
  unique : UniqueIds w.transfers
  found : find i w.transfers ≡ some r

Stands-quiet : (i : String) (r : TransferRequest) → IsQuiet (Stands i r)
Stands-quiet i r w n h = record { unique = h.unique; found = h.found }

module _ (env : Env) (i : String) (r : TransferRequest) (n : Notice) where
  mark-Stands :
      (q : TransferRequest) (w : World)
      → Stands i r w
      → find_where (has_signature n.signature) w.transfers ≡ some q
      → is_submitted q.blockchain_status ≡ true
      → is_submitted r.blockchain_status ≡ false
      → Stands i r (mark env n q w).1
  unfolding mark update_blockchain_status statement pure ◌>>=◌
  mark-Stands q w h e s k = elim (Option-cases (env.fault w.tick)) [
    | inr (x, f) ↦ rw f (Stands-quiet i r w (suc w.tick) h)
    | inl f ↦
        rw (f, find_where-find (has_signature n.signature) w.transfers h.unique e)
          (record {
            unique = modify-UniqueIds q.id _ w.transfers (λ x. refl) h.unique;
            found = update_row-Fixed i r n _ w.transfers h.unique e s k h.found;
          })
  ]

  on_notice-Stands :
      (o : Option TransferRequest) (w : World)
      → Stands i r w
      → find_where (has_signature n.signature) w.transfers ≡ o
      → is_submitted r.blockchain_status ≡ false
      → Stands i r (on_notice env n o w).1
  unfolding on_notice pure
  on_notice-Stands none w h e k = h
  on_notice-Stands (some q) w h e k = elim (Bool-cases (is_submitted q.blockchain_status)) [
    | inl s ↦ simp s (mark-Stands q w h e s k)
    | inr s ↦ simp s h
  ]

  process_notice-Stands :
      is_submitted r.blockchain_status ≡ false → Keeps (Stands i r) (process_notice env n)
  unfolding process_notice get_transfer_by_signature statement ◌>>=◌
  process_notice-Stands k = record {
    at = λ w h. elim (Option-cases (env.fault w.tick)) [
      | inr (x, f) ↦ rw f (Stands-quiet i r w (suc w.tick) h)
      | inl f ↦ rw f (
          on_notice-Stands (find_where (has_signature n.signature) w.transfers)
            (record w { tick = suc w.tick }) (Stands-quiet i r w (suc w.tick) h) refl k)
    ];
  }

process_notices-Stands :
    (env : Env) (i : String) (r : TransferRequest) (k : ℕ) (ns : List Notice)
    → is_submitted r.blockchain_status ≡ false
    → Keeps (Stands i r) (process_notices env k ns)
unfolding process_notices
process_notices-Stands env i r k [] s = Keeps-pure k
process_notices-Stands env i r k (n ∷ ns) s =
    Keeps-bind (process_notice-Stands env i r n s)
      (λ j. process_notices-Stands env i r (k + j) ns s)

-- With distinct keys, a webhook leaves every row as it is that is not submitted, whatever events it
-- brings: a row that is confirmed, failed or expired stays so.
pub webhooks_keep_unsubmitted :
    (env : Env) (ts : List HeliusTransaction) (es : List QuickNodeWebhookEvent) (i : String)
    (r : TransferRequest) (w : World)
    → UniqueIds w.transfers
    → find i w.transfers ≡ some r
    → is_submitted r.blockchain_status ≡ false
    → (find i (process_helius_webhook env ts w).1.transfers ≡ some r)
      × (find i (process_quicknode_webhook env es w).1.transfers ≡ some r)
unfolding process_helius_webhook process_quicknode_webhook
webhooks_keep_unsubmitted env ts es i r w u f s = (
  ((process_notices-Stands env i r 0 (helius_notices ts) s).at w start).found,
  ((process_notices-Stands env i r 0 (quicknode_notices es) s).at w start).found,
)
  where
    start : Stands i r w
    start = record { unique = u; found = f }
