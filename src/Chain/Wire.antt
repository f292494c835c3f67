-- ===== src/Chain/Wire.antt =====
-- The wire format of a transaction as src/infra/blockchain/quicknode.rs reads it: a compact-u16 count
-- of signatures, then the signatures. Bytes are numbers.
use solana_compliance_relaye.Prelude.{
  ℕ, ◌+◌, ◌*◌, ◌^◌, ◌⊎◌, inl, inr, String, ◌+++◌, decimal, List, [], ◌∷◌, ltb, leb, ◌==◌, length,
  take, drop, bit_and, bit_or, if◌then◌else◌,
}
use solana_compliance_relaye.Domain.Error.{AppError, BlockchainError}
use solana_compliance_relaye.Runtime.{Result, ok, err}

abbrev pub signature_size : ℕ
signature_size = 64

abbrev pub invalid_signature {ℓ} : {A : Type ℓ} → String → Result A
invalid_signature message = err (AppError.blockchain (BlockchainError.invalid_signature message))

-- `value << n` is `value * 2 ^ n`: the values are below 2^16 and nothing is shifted out.
unfoldable pub third_byte : ℕ → ℕ → List ℕ → Result (ℕ × ℕ)
third_byte first second [] = invalid_signature "Truncated compact-u16"
third_byte first second (third ∷ rest) =
    if leb 4 third
    then invalid_signature "Compact-u16 overflow (value > 65535)"
    else ok (bit_or (bit_or (bit_and first 0x7f) (bit_and second 0x7f * 2 ^ 7)) (third * 2 ^ 14), 3)

unfoldable pub second_byte : ℕ → List ℕ → Result (ℕ × ℕ)
unfolding third_byte
second_byte first [] = invalid_signature "Truncated compact-u16"
second_byte first (second ∷ rest) =
    if ltb second 0x80
    then ok (bit_or (bit_and first 0x7f) (second * 2 ^ 7), 2)
    else third_byte first second rest

-- The value, and the number of bytes that it takes.
unfoldable pub read_compact_u16 : List ℕ → Result (ℕ × ℕ)
unfolding second_byte
read_compact_u16 [] = invalid_signature "Cannot read compact-u16 from empty bytes"
read_compact_u16 (first ∷ rest) = if ltb first 0x80 then ok (first, 1) else second_byte first rest

module _ (bs58_decode : String → String ⊎ List ℕ) (bs58_encode : List ℕ → String) where
  unfoldable pub first_signature : List ℕ → Result (ℕ × ℕ) → Result String
  first_signature tx (err e) = err e
  first_signature tx (ok (sig_count, offset)) =
      if sig_count == 0
      then invalid_signature "Transaction has no signatures"
      else if ltb (length tx) (offset + signature_size)
      then invalid_signature (
          "Transaction too short: "
          +++ decimal (length tx)
          +++ " bytes, need at least "
          +++ decimal (offset + signature_size)
          +++ " for first signature")
      else ok (bs58_encode (take signature_size (drop offset tx)))

  unfoldable pub signature_of_bytes : String ⊎ List ℕ → Result String
  unfolding first_signature read_compact_u16
  signature_of_bytes (inl e) = invalid_signature ("Failed to decode Base58 transaction: " +++ e)
  signature_of_bytes (inr []) = invalid_signature "Empty transaction bytes"
  signature_of_bytes (inr (b ∷ tx)) = first_signature (b ∷ tx) (read_compact_u16 (b ∷ tx))

  unfoldable pub extract_signature_from_serialized_tx : String → Result String
  unfolding signature_of_bytes
  extract_signature_from_serialized_tx serialized_tx =
      signature_of_bytes (bs58_decode serialized_tx)
