-- ===== src/Chain/TokenPayments.antt =====
-- What the token transfers of src/infra/blockchain/solana.rs move.
use solana_compliance_relaye.Prelude.{
  ℕ, ◌≡◌, refl, ◌⊎◌, inl, inr, Bool, true, false, Option, none, some, String, List, [], ◌∷◌, ◌++◌,
  ◌==◌, length, drop, str_eq, ltb, not, ap, ◌∙◌, arith,
}
use solana_compliance_relaye.Chain.Errors.{ClientError}
use solana_compliance_relaye.Chain.Client.{Pubkey, Instruction, Account, Sdk, Client}
use solana_compliance_relaye.Chain.Token.{
  TokenTransfer, transfer_token, tokens_by, to_parsed, of_mint, from_source, send_tokens,
  token_instructions, transfer_instruction, source_ata, destination_ata, is_short, balance_in,
  min_mint_size, first_or_zero, decimals_offset,
}
use solana_compliance_relaye.Chain.Payments.{
  payments, tip_payments, token_moves, creations, TokenMove, HandsOver, IsTipped, with_tip-IsTipped,
  sign_and_submit-HandsOver,
}

-- The account that a transfer to a wallet creates, by whether the wallet's token account was found.
abbrev pub created_for :
    Pubkey
    → Pubkey
    → Pubkey
    → Pubkey
    → ClientError ⊎ Account
    → List (Pubkey × Pubkey × Pubkey × Pubkey)
created_for payer wallet mint program (inl e) = (payer, wallet, mint, program) ∷ []
created_for payer wallet mint program (inr account) = []

module _ (client : Client) (sdk : Sdk) (t : TokenTransfer) where
  move : TokenMove
  move = (
    t.token_program_id,
    source_ata client sdk t,
    t.mint_pubkey,
    destination_ata client sdk t,
    t.payer,
    t.amount,
  )

  created : List (Pubkey × Pubkey × Pubkey × Pubkey)
  created =
      created_for t.payer t.to_pubkey t.mint_pubkey t.token_program_id
        (sdk.get_account 2 (destination_ata client sdk t))

  -- Only the tip due is paid, the amount moves between the two token accounts, and the second is
  -- created if it was not found.
  Moves : List Instruction → Type 0
  Moves is =
      (payments is ≡ tip_payments client t.payer)
      × (token_moves is ≡ move ∷ [])
      × (creations is ≡ created)

  token_instructions_plain :
      (payments (token_instructions client sdk t) ≡ [])
      × (token_moves (token_instructions client sdk t) ≡ move ∷ [])
      × (creations (token_instructions client sdk t) ≡ created)
  unfolding token_instructions transfer_instruction move created
  token_instructions_plain = by_account (sdk.get_account 2 (destination_ata client sdk t)) refl
    where
      IsPlain : List Instruction → List (Pubkey × Pubkey × Pubkey × Pubkey) → Type 0
      IsPlain is accounts =
          (payments is ≡ [])
          × (token_moves is
              ≡ (
                t.token_program_id,
                source_ata client sdk t,
                t.mint_pubkey,
                destination_ata client sdk t,
                t.payer,
                t.amount,
              )
                ∷ [])
          × (creations is ≡ accounts)

      by_account :
          (r : ClientError ⊎ Account)
          → sdk.get_account 2 (destination_ata client sdk t) ≡ r
          → IsPlain (token_instructions client sdk t) (
              created_for t.payer t.to_pubkey t.mint_pubkey t.token_program_id
                (sdk.get_account 2 (destination_ata client sdk t)))
      by_account (inl e) h = rw h (refl, refl, refl)
      by_account (inr a) h = rw h (refl, refl, refl)

  send_tokens-HandsOver : (o : Option String) → HandsOver Moves (send_tokens client sdk t o)
  unfolding send_tokens Moves IsTipped
  send_tokens-HandsOver (some e) = (tt, omega arith)
  send_tokens-HandsOver none =
      let (p, m, c) = with_tip-IsTipped client t.payer (token_instructions client sdk t) in
      sign_and_submit-HandsOver Moves client sdk t.payer _ (
        p ∙ ap (λ ps. ps ++ tip_payments client t.payer) token_instructions_plain.0,
        m ∙ token_instructions_plain.1,
        c ∙ token_instructions_plain.2,
      )

  from_source-HandsOver :
      (token_mint : String) (r : ClientError ⊎ Account)
      → HandsOver Moves (from_source client sdk t token_mint r)
  unfolding from_source
  from_source-HandsOver token_mint (inl e) = (tt, omega arith)
  from_source-HandsOver token_mint (inr account) =
      by_tests (not (str_eq account.owner t.token_program_id))
        (is_short (balance_in account.data_bytes) t.amount) refl refl
    where
      by_tests :
          (b c : Bool)
          → not (str_eq account.owner t.token_program_id) ≡ b
          → is_short (balance_in account.data_bytes) t.amount ≡ c
          → HandsOver Moves (from_source client sdk t token_mint (inr account))
      by_tests true c e f = rw e (tt, omega arith)
      by_tests false true e f = rw (e, f) (tt, omega arith)
      by_tests false false e f =
          rw (e, f) (send_tokens-HandsOver (client.token_program_error t.token_program_id))

module _ (client : Client) (payer : Pubkey) where
  -- With the relayer's key, a destination and a mint that parse, and a mint account: whatever
  -- `transfer_token` hands over moves exactly the amount of that mint, once, from the relayer's token
  -- account to the destination's, by an instruction to the token program that owns the mint and on the
  -- relayer's authority; it creates the destination's token account, at the relayer's cost, exactly
  -- when that account could not be fetched, and no other; its transfer instructions pay no lamports but
  -- the tip due. It hands over at most one transaction, and after a success exactly one, on the
  -- blockhash reported.
  pub transfer_token-HandsOver :
      (sdk : Sdk) (to_address token_mint : String) (dest mint : Pubkey) (amount : ℕ) (a : Account)
      → client.sdk_client ≡ some sdk
      → client.keypair ≡ some payer
      → client.parse_pubkey to_address ≡ inr dest
      → client.parse_pubkey token_mint ≡ inr mint
      → sdk.get_account 0 mint ≡ inr a
      → HandsOver
          (λ is.
            (payments is ≡ tip_payments client payer)
            × (token_moves is
                ≡ (
                  a.owner,
                  client.associated_token_address payer mint a.owner,
                  mint,
                  client.associated_token_address dest mint a.owner,
                  payer,
                  amount,
                )
                  ∷ [])
            × (creations is
                ≡ created_for payer dest mint a.owner
                    (sdk.get_account 2 (client.associated_token_address dest mint a.owner))))
          (transfer_token client to_address token_mint amount)
  unfolding transfer_token tokens_by to_parsed of_mint source_ata destination_ata Moves move created
  transfer_token-HandsOver sdk to_address token_mint dest mint amount a has_sdk key dest_parsed
        mint_parsed account =
      by_tests (amount == 0) (ltb (length a.data_bytes) min_mint_size) refl refl
    where
      Due : List Instruction → Type 0
      Due is =
          (payments is ≡ tip_payments client payer)
          × (token_moves is
              ≡ (
                a.owner,
                client.associated_token_address payer mint a.owner,
                mint,
                client.associated_token_address dest mint a.owner,
                payer,
                amount,
              )
                ∷ [])
          × (creations is
              ≡ created_for payer dest mint a.owner
                  (sdk.get_account 2 (client.associated_token_address dest mint a.owner)))

      t : TokenTransfer
      t = record {
        payer = payer;
        to_pubkey = dest;
        mint_pubkey = mint;
        token_program_id = a.owner;
        amount = amount;
        decimals = first_or_zero (drop decimals_offset a.data_bytes);
      }

      by_tests :
          (b c : Bool)
          → (amount == 0) ≡ b
          → ltb (length a.data_bytes) min_mint_size ≡ c
          → HandsOver Due (transfer_token client to_address token_mint amount)
      by_tests true c e f = simp e (tt, omega arith)
      by_tests false true e f =
          simp (e, has_sdk, key, dest_parsed, mint_parsed, account, f) (tt, omega arith)
      by_tests false false e f =
          simp (e, has_sdk, key, dest_parsed, mint_parsed, account, f)
            (from_source-HandsOver client sdk t token_mint
              (sdk.get_account 1 (source_ata client sdk t)))
