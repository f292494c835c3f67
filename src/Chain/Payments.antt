-- ===== src/Chain/Payments.antt =====
-- What the transactions of src/infra/blockchain/solana.rs pay.
use solana_compliance_relaye.Prelude.{
  ℕ, zero, suc, ◌≡◌, refl, ◌⊎◌, inl, inr, Bool, true, false, Option, none, some, String, List, [],
  ◌∷◌, ◌++◌, ◌==◌, All, length, ◌≤◌, ap, sym, ◌∙◌, arith,
}
use mathlib.Core.List.{append-nil}
use solana_compliance_relaye.Runtime.{Result, ok, err}
use solana_compliance_relaye.Chain.Errors.{ClientError}
use solana_compliance_relaye.Chain.Client.{
  Pubkey, Instruction, Transaction, Sdk, Strategy, Client, Handed, supports_private, tip_of,
  create_jito_tip_instruction, with_tip, push_tip, by_strategy, by_sdk, hand_over,
  submission_result, submit_or_confirm_transaction, submit_on, sign_and_submit, sol_to, sol_by,
  transfer_sol, serialize_transaction_base58,
}

-- The lamports that the transfer instructions of a list move: payer, receiver and amount. The rent of
-- an account that is created is not among them.
abbrev pub payments : List Instruction → List (Pubkey × Pubkey × ℕ)
payments [] = []
payments (Instruction.transfer from_key to_key lamports ∷ is) =
    (from_key, to_key, lamports) ∷ payments is
payments (_ ∷ is) = payments is

-- The tip that private submission asks for: none where it is not supported or the tip is zero.
abbrev tip_due : Pubkey → Pubkey → Bool → Option ℕ → List (Pubkey × Pubkey × ℕ)
tip_due payer tip_account true (some (suc lamports)) = (payer, tip_account, suc lamports) ∷ []
tip_due payer tip_account _ _ = []

abbrev pub tip_payments : Client → Pubkey → List (Pubkey × Pubkey × ℕ)
tip_payments client payer =
    tip_due payer client.random_jito_tip_account (supports_private client.submission_strategy)
      client.jito_tip_lamports

-- The tokens that it moves: token program, source, mint, destination, authority and amount.
abbrev pub TokenMove : Type 0
TokenMove = Pubkey × Pubkey × Pubkey × Pubkey × Pubkey × ℕ

abbrev pub token_moves : List Instruction → List TokenMove
token_moves [] = []
token_moves (Instruction.transfer_checked program source mint destination authority amount d ∷ is) =
    (program, source, mint, destination, authority, amount) ∷ token_moves is
token_moves (_ ∷ is) = token_moves is

-- The token accounts that it creates: payer (of the rent, too), wallet, mint and token program.
abbrev pub creations : List Instruction → List (Pubkey × Pubkey × Pubkey × Pubkey)
creations [] = []
creations (Instruction.create_associated_token_account_idempotent payer wallet mint program ∷ is) =
    (payer, wallet, mint, program) ∷ creations is
creations (_ ∷ is) = creations is

-- What the code hands over: at most one transaction, whose instructions are as they should be; after
-- a success exactly one, on the blockhash that is reported.
abbrev pub HandsOver : (List Instruction → Type 0) → Handed (String × String) → Type 0
HandsOver P (ok (signature, blockhash), txs) =
    (tx : Transaction) × (txs ≡ tx ∷ []) × (tx.recent_blockhash ≡ blockhash) × P tx.instructions
HandsOver P (err e, txs) = All (λ tx. P tx.instructions) txs × (length txs ≤ 1)

module _ (P : List Instruction → Type 0) (client : Client) where
  hand_over-HandsOver :
      (sdk : Option Sdk) (strategy : Option Strategy) (tx : Transaction)
      → P tx.instructions
      → HandsOver P (hand_over client sdk strategy tx)
  unfolding hand_over by_strategy by_sdk submission_result
  hand_over-HandsOver none strategy tx h = (tt, omega arith)
  hand_over-HandsOver (some sdk) none tx h = sent (sdk.send_and_confirm_transaction tx)
    where
      sent : (r : ClientError ⊎ String) → HandsOver P (by_sdk client tx r, tx ∷ [])
      sent (inl e) = ((h, tt), omega arith)
      sent (inr signature) = (tx, refl, refl, h)
  hand_over-HandsOver (some sdk) (some s) tx h = serialized (serialize_transaction_base58 client tx)
    where
      answered : (r : Result String) → HandsOver P (submission_result client tx r, tx ∷ [])
      answered (ok signature) = (tx, refl, refl, h)
      answered (err e) = ((h, tt), omega arith)

      serialized : (r : Result String) → HandsOver P (by_strategy client s tx r)
      serialized (err e) = (tt, omega arith)
      serialized (ok text) = answered (s.submit_transaction text true)

  pub sign_and_submit-HandsOver :
      (sdk : Sdk) (payer : Pubkey) (is : List Instruction)
      → P is
      → HandsOver P (sign_and_submit client sdk payer is)
  unfolding sign_and_submit submit_on submit_or_confirm_transaction
  sign_and_submit-HandsOver sdk payer is h = by_blockhash sdk.get_latest_blockhash
    where
      by_blockhash : (r : ClientError ⊎ String) → HandsOver P (submit_on client payer is r)
      by_blockhash (inl e) = (tt, omega arith)
      by_blockhash (inr blockhash) =
          hand_over-HandsOver client.sdk_client client.submission_strategy _ h

module _ (client : Client) (payer : Pubkey) where
  payments-append : (is js : List Instruction) → payments (is ++ js) ≡ payments is ++ payments js
  payments-append [] js = refl
  payments-append (Instruction.transfer a b n ∷ is) js =
      ap (λ ps. (a, b, n) ∷ ps) (payments-append is js)
  payments-append (Instruction.set_compute_unit_price n ∷ is) js = payments-append is js
  payments-append (Instruction.create_associated_token_account_idempotent a b c d ∷ is) js =
      payments-append is js
  payments-append (Instruction.transfer_checked a b c d e n m ∷ is) js = payments-append is js

  token_moves-append :
      (is js : List Instruction) → token_moves (is ++ js) ≡ token_moves is ++ token_moves js
  token_moves-append [] js = refl
  token_moves-append (Instruction.transfer a b n ∷ is) js = token_moves-append is js
  token_moves-append (Instruction.set_compute_unit_price n ∷ is) js = token_moves-append is js
  token_moves-append (Instruction.create_associated_token_account_idempotent a b c d ∷ is) js =
      token_moves-append is js
  token_moves-append (Instruction.transfer_checked a b c d e n m ∷ is) js =
      ap (λ ps. (a, b, c, d, e, n) ∷ ps) (token_moves-append is js)

  creations-append :
      (is js : List Instruction) → creations (is ++ js) ≡ creations is ++ creations js
  creations-append [] js = refl
  creations-append (Instruction.transfer a b n ∷ is) js = creations-append is js
  creations-append (Instruction.set_compute_unit_price n ∷ is) js = creations-append is js
  creations-append (Instruction.create_associated_token_account_idempotent a b c d ∷ is) js =
      ap (λ ps. (a, b, c, d) ∷ ps) (creations-append is js)
  creations-append (Instruction.transfer_checked a b c d e n m ∷ is) js = creations-append is js

  -- A pushed tip pays what is due, moves no tokens and creates no account.
  unfoldable pub IsTipped :
      List Instruction → List Instruction → List (Pubkey × Pubkey × ℕ) → Type 0
  IsTipped is tipped due =
      (payments tipped ≡ payments is ++ due)
      × (token_moves tipped ≡ token_moves is)
      × (creations tipped ≡ creations is)

  pub with_tip-IsTipped :
      (is : List Instruction) → IsTipped is (with_tip client payer is) (tip_payments client payer)
  unfolding with_tip create_jito_tip_instruction tip_of IsTipped
  with_tip-IsTipped is =
      by_tip (supports_private client.submission_strategy) client.jito_tip_lamports
    where
      nonzero : (n : ℕ) → (suc n == 0) ≡ false
      nonzero n = ground arith

      by_tip :
          (b : Bool) (o : Option ℕ)
          → IsTipped is
              (push_tip is (tip_of b o payer client.random_jito_tip_account))
              (tip_due payer client.random_jito_tip_account b o)
      by_tip false none = (sym (append-nil _), refl, refl)
      by_tip false (some n) = (sym (append-nil _), refl, refl)
      by_tip true none = (sym (append-nil _), refl, refl)
      by_tip true (some zero) = (sym (append-nil _), refl, refl)
      by_tip true (some (suc n)) = rw (nonzero n) (
        payments-append is _,
        token_moves-append is _ ∙ append-nil _,
        creations-append is _ ∙ append-nil _,
      )

  -- With the relayer's key and a destination that parses: whatever `transfer_sol` hands over pays
  -- exactly the amount from the relayer to the destination and the tip due, and moves no tokens; it
  -- hands over at most one transaction, and after a success exactly one, on the blockhash reported.
  pub transfer_sol-HandsOver :
      (to_address : String) (dest : Pubkey) (amount : ℕ)
      → client.keypair ≡ some payer
      → client.parse_pubkey to_address ≡ inr dest
      → HandsOver
          (λ is.
            (payments is ≡ (payer, dest, amount) ∷ tip_payments client payer)
            × (token_moves is ≡ []))
          (transfer_sol client to_address amount)
  unfolding transfer_sol sol_by sol_to IsTipped
  transfer_sol-HandsOver to_address dest amount key parsed =
      by_amount (amount == 0) refl client.sdk_client refl
    where
      Pays : List Instruction → Type 0
      Pays is =
          (payments is ≡ (payer, dest, amount) ∷ tip_payments client payer) × (token_moves is ≡ [])

      paid :
          (is : List Instruction)
          → (payments (with_tip client payer is) ≡ payments is ++ tip_payments client payer)
            × (token_moves (with_tip client payer is) ≡ token_moves is)
      paid is = let (p, m, c) = with_tip-IsTipped is in (p, m)

      by_amount :
          (b : Bool)
          → (amount == 0) ≡ b
          → (o : Option Sdk) → client.sdk_client ≡ o
          → HandsOver Pays (transfer_sol client to_address amount)
      by_amount true e o f = simp e (tt, omega arith)
      by_amount false e none f = simp (e, f) (tt, omega arith)
      by_amount false e (some sdk) f =
          simp (e, f, key, parsed) (sign_and_submit-HandsOver Pays client sdk payer _ (paid _))
