-- ===== src/System/Deliveries.antt =====
-- The webhooks of src/app/service.rs keep the tables sound.
use solana_compliance_relaye.Prelude.{
  ℕ, ◌≡◌, refl, sym, ◌∙◌, ◌+◌, Bool, true, false, Option, none, some, List, [], ◌∷◌, String, inl,
  inr, All, Bool-cases, arith,
}
use solana_compliance_relaye.Domain.Status.{is_submitted}
use solana_compliance_relaye.Domain.Transfer.{TransferRequest}
use solana_compliance_relaye.Runtime.{Env, World}
use solana_compliance_relaye.Runtime.Keeps.{Keeps, IsQuiet, Keeps-bind, Keeps-pure}
use solana_compliance_relaye.Database.Gives.{Gives, Gives-then, Gives-statement}
use solana_compliance_relaye.Database.Table.{find, find_where}
use solana_compliance_relaye.Database.Claim.{rows_stand}
use solana_compliance_relaye.Database.Transfers.{get_transfer_by_signature, has_signature}
use solana_compliance_relaye.Service.Webhook.{
  Notice, mark, on_notice, process_notice, process_notices,
}
use solana_compliance_relaye.System.Screened.{
  IsSound, WaitsForScreening, IsSound-quiet, IsSound-tail, IsSound-learn, is_unscreened,
}
use solana_compliance_relaye.System.Statements.{update_blockchain_status-IsSound}

-- The row that a lookup by another column finds stands under its key.
find_where_stands :
    (p : TransferRequest → Bool) (table rows : List TransferRequest) (r : TransferRequest)
    → All (λ q. find q.id table ≡ some q) rows
    → find_where p rows ≡ some r
    → find r.id table ≡ some r
find_where_stands p table [] r h e = ground arith
find_where_stands p table (q ∷ rows) r h e = elim (Bool-cases (p q)) [
  | inl b ↦ of_head (sym (ground (arith, e, b))) h.0
  | inr b ↦ find_where_stands p table rows r h.1 (ground (arith, e, b))
]
  where
    of_head : r ≡ q → find q.id table ≡ some q → find r.id table ≡ some r
    of_head c f = rw c f

-- What a lookup by signature gives: a submitted row is known to be screened.
abbrev Knows : List String → Option TransferRequest → World → Type 0
Knows known none w = IsSound known w
Knows known (some r) w =
    IsSound known w × (is_submitted r.blockchain_status ≡ true → IsSound (r.id ∷ known) w)

module _ {known : List String} (env : Env) where
  lookup-Gives :
      (sig : String) → Gives (IsSound known) (get_transfer_by_signature env sig) (Knows known)
  unfolding get_transfer_by_signature
  lookup-Gives sig =
      Gives-statement env _ _ (IsSound-quiet known) quiet
        λ now w h. go w (find_where (has_signature sig) w.transfers) refl h
    where
      quiet : (o : Option TransferRequest) → IsQuiet (Knows known o)
      quiet none w n h = IsSound-quiet known w n h
      quiet (some r) w n h =
          (IsSound-quiet known w n h.0, λ s. IsSound-quiet (r.id ∷ known) w n (h.1 s))

      screened :
          (r : TransferRequest)
          → WaitsForScreening r
          → is_submitted r.blockchain_status ≡ true
          → is_unscreened r.compliance_status ≡ false
      screened r (inl c) s = c
      screened r (inr c) s = ground arith

      go :
          (w : World) (o : Option TransferRequest)
          → find_where (has_signature sig) w.transfers ≡ o
          → IsSound known w
          → Knows known o w
      go w none e h = h
      go w (some r) e h = (h, λ s. IsSound-learn r.id w (r, f, screened r (h.rows r.id r f) s) h)
        where
          f : find r.id w.transfers ≡ some r
          f = find_where_stands _ w.transfers w.transfers r (rows_stand w.transfers h.unique) e

module _ {known : List String} (env : Env) where
  on_notice-IsSound :
      (n : Notice) (r : TransferRequest) → Keeps (Knows known (some r)) (on_notice env n (some r))
  unfolding on_notice mark
  on_notice-IsSound n r = record { at = λ w h. by_status w h _ refl }
    where
      marks : Keeps (IsSound (r.id ∷ known)) (mark env n r)
      marks =
          Keeps-bind (update_blockchain_status-IsSound env r.id _ _ _ _ _ (λ rows h. h.0))
            (λ _. Keeps-pure _)

      by_status :
          (w : World)
          → Knows known (some r) w
          → (b : Bool) → is_submitted r.blockchain_status ≡ b
          → Knows known (some r) (on_notice env n (some r) w).1
      by_status w h true e = let k = marks.at w (h.1 e) in rw e (IsSound-tail _ k, λ _. k)
      by_status w h false e = rw e (h.0, λ s. h.1 (e ∙ s))

  process_notice-IsSound : (n : Notice) → Keeps (IsSound known) (process_notice env n)
  unfolding process_notice
  process_notice-IsSound n = Gives-then (lookup-Gives env n.signature) after forget
    where
      after : (o : Option TransferRequest) → Keeps (Knows known o) (on_notice env n o)
      after none = Keeps-pure 0
      after (some r) = on_notice-IsSound n r

      forget : (o : Option TransferRequest) (v : World) → Knows known o v → IsSound known v
      forget none v h = h
      forget (some r) v h = h.0

  pub process_notices-IsSound :
      (k : ℕ) (ns : List Notice) → Keeps (IsSound known) (process_notices env k ns)
  unfolding process_notices
  process_notices-IsSound k [] = Keeps-pure k
  process_notices-IsSound k (n ∷ ns) =
      Keeps-bind (process_notice-IsSound n) (λ j. process_notices-IsSound (k + j) ns)
