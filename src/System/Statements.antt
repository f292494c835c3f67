-- ===== src/System/Statements.antt =====
-- The statements of src/infra/database/postgres.rs on transfers keep the invariant of the system.
use solana_compliance_relaye.Prelude.{
  ℕ, ◌≡◌, refl, sym, ◌∙◌, inl, inr, false, Option, none, some, List, ◌∷◌, String, str_eq,
  Bool-cases, arith, if◌then◌else◌, ltb,
}
use solana_compliance_relaye.Domain.Status.{BlockchainStatus, ComplianceStatus, LastErrorType}
use solana_compliance_relaye.Domain.Transfer.{TransferRequest, SubmitTransferRequest}
use solana_compliance_relaye.Runtime.{Env, World}
use solana_compliance_relaye.Runtime.Keeps.{Keeps}
use solana_compliance_relaye.Database.Table.{
  find, modify, KeepsId, find-append, modify-UniqueIds, append-UniqueIds,
}
use solana_compliance_relaye.Database.Statement.{Keeps-statement}
use solana_compliance_relaye.Database.Gives.{Gives, Gives-statement, Outcome}
use solana_compliance_relaye.Database.Effects.{find-modify_self}
use solana_compliance_relaye.Database.Transfers.{
  new_row, set_blockchain, set_compliance, insert_transfer, insert_transfer_request,
  update_blockchain_status, update_compliance_status, increment_retry_count, update_jito_tracking,
  update_row, bump_row, max_i32,
}
use solana_compliance_relaye.System.Screened.{
  is_unscreened, WaitsForScreening, IsSound, IsSound-quiet, Shows, IsSound-map, modify-IsScreened,
  modify-EachWaits, IsSound-learn,
}

module _ {known : List String} (env : Env) where
  -- An update that a row survives screened, if it was.
  modify-IsSound :
      (i : String) (f : TransferRequest → TransferRequest) (w : World)
      → KeepsId f
      → ((r : TransferRequest)
          → is_unscreened r.compliance_status ≡ false
          → is_unscreened (f r).compliance_status ≡ false)
      → ((q : TransferRequest)
          → find i w.transfers ≡ some q
          → WaitsForScreening q
          → WaitsForScreening (f q))
      → IsSound known w
      → IsSound known (record w { transfers = modify i f w.transfers })
  modify-IsSound i f w k s t h =
      IsSound-map known w _ refl (modify-UniqueIds i f w.transfers k h.unique)
        (modify-EachWaits i f w.transfers k t h.rows) (modify-IsScreened i f w.transfers k s) h

  -- A new status is for a screened request.
  pub update_blockchain_status-IsSound :
      (i : String) (status : BlockchainStatus) (sig error : Option String) (next : Option ℕ)
      (hash : Option String)
      → Shows known i
      → Keeps (IsSound known) (update_blockchain_status env i status sig error next hash)
  unfolding update_blockchain_status
  update_blockchain_status-IsSound i status sig error next hash show =
      Keeps-statement env _ _ (IsSound-quiet known) λ now w h. go now w (find i w.transfers) h
    where
      go :
          (now : ℕ) (w : World) (o : Option TransferRequest)
          → IsSound known w
          → IsSound known (update_row i (set_blockchain status sig error next hash now) o w).1
      go now w none h = h
      go now w (some r) h =
          let (p, e, c) = show w.transfers h.shown in
          modify-IsSound i _ w (λ x. refl) (λ x d. d) (λ q g _. inl (ground (arith, e, g, c))) h

  -- A verdict is a screening.
  pub update_compliance_status-IsSound :
      (i : String) (status : ComplianceStatus)
      → is_unscreened status ≡ false
      → Keeps (IsSound known) (update_compliance_status env i status)
  unfolding update_compliance_status
  update_compliance_status-IsSound i status c =
      Keeps-statement env _ _ (IsSound-quiet known) λ now w h. go now w (find i w.transfers) h
    where
      go :
          (now : ℕ) (w : World) (o : Option TransferRequest)
          → IsSound known w
          → IsSound known (update_row i (set_compliance status now) o w).1
      go now w none h = h
      go now w (some r) h = modify-IsSound i _ w (λ x. refl) (λ x d. c) (λ q g _. inl c) h

  -- Once it has returned, the request is known to be screened.
  pub update_compliance_status-Gives :
      (i : String) (status : ComplianceStatus)
      → is_unscreened status ≡ false
      → Gives (IsSound known) (update_compliance_status env i status) (λ _. IsSound (i ∷ known))
  unfolding update_compliance_status
  update_compliance_status-Gives i status c =
      Gives-statement env _ _ (IsSound-quiet known) (λ _. IsSound-quiet (i ∷ known))
        λ now w h. go now w (find i w.transfers) refl h
    where
      go :
          (now : ℕ) (w : World) (o : Option TransferRequest)
          → find i w.transfers ≡ o
          → IsSound known w
          → Outcome
              (IsSound known)
              (λ _. IsSound (i ∷ known))
              (update_row i (set_compliance status now) o w).0
              (update_row i (set_compliance status now) o w).1
      go now w none e h = h
      go now w (some r) e h =
          IsSound-learn i _
            (set_compliance status now r, find-modify_self i _ w.transfers (λ x. refl) e, c)
            (modify-IsSound i _ w (λ x. refl) (λ x d. c) (λ q g _. inl c) h)

  pub increment_retry_count-IsSound :
      (i : String) → Keeps (IsSound known) (increment_retry_count env i)
  unfolding increment_retry_count
  increment_retry_count-IsSound i =
      Keeps-statement env _ _ (IsSound-quiet known) λ now w h. go now w (find i w.transfers) h
    where
      go :
          (now : ℕ) (w : World) (o : Option TransferRequest)
          → IsSound known w
          → IsSound known (bump_row env i now o w).1
      go now w none h = h
      go now w (some r) h = elim (Bool-cases (ltb r.blockchain_retry_count max_i32)) [
        | inl e ↦ rw e (modify-IsSound i _ w (λ x. refl) (λ x d. d) (λ q g t. t) h)
        | inr e ↦ rw e h
      ]

  pub update_jito_tracking-IsSound :
      (i : String) (sig : Option String) (kind : LastErrorType) (hash : Option String)
      → Keeps (IsSound known) (update_jito_tracking env i sig kind hash)
  unfolding update_jito_tracking
  update_jito_tracking-IsSound i sig kind hash =
      Keeps-statement env _ _ (IsSound-quiet known)
        λ now w h. modify-IsSound i _ w (λ x. refl) (λ x d. d) (λ q g t. t) h

  insert_transfer-IsSound :
      (request : SubmitTransferRequest) (i : String) (now : ℕ)
      (existing taken : Option TransferRequest) (w : World)
      → find i w.transfers ≡ taken
      → IsSound known w
      → IsSound known (insert_transfer env request i now existing taken w).1
  unfolding insert_transfer new_row
  insert_transfer-IsSound request i now (some x) taken w e h = h
  insert_transfer-IsSound request i now none (some x) w e h = h
  insert_transfer-IsSound request i now none none w e h =
      IsSound-map known w _ refl (append-UniqueIds w.transfers row e h.unique)
        (λ j q g. waits j q (find j w.transfers) refl (sym (find-append j w.transfers row) ∙ g))
        (λ j (q, e, c). (q, find-append j w.transfers row ∙ rw e refl, c)) h
    where
      row : TransferRequest
      row = new_row request i now

      waits :
          (j : String) (q : TransferRequest) (o : Option TransferRequest)
          → find j w.transfers ≡ o
          → elim o [ none ↦ if str_eq i j then some row else none | some p ↦ some p ] ≡ some q
          → WaitsForScreening q
      waits j q (some p) f g = h.rows j q (f ∙ g)
      waits j q none f g = ground (arith, g)

  pub insert_transfer_request-IsSound :
      (request : SubmitTransferRequest)
      → Keeps (IsSound known) (insert_transfer_request env request)
  unfolding insert_transfer_request
  insert_transfer_request-IsSound request =
      Keeps-statement env _ _ (IsSound-quiet known)
        λ now w h. insert_transfer-IsSound request _ now _ _ w refl h
