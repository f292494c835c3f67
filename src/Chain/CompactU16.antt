-- ===== src/Chain/CompactU16.antt =====
-- The counts and signatures that src/infra/blockchain/quicknode.rs reads back from a transaction.
use solana_compliance_relaye.Prelude.{
  ℕ, ◌≡◌, ◌+◌, ◌*◌, ◌/◌, ◌%◌, ◌^◌, ◌<◌, ◌≤◌, ◌⊎◌, inl, inr, String, List, [], ◌∷◌, ◌++◌, ltb, leb,
  ◌==◌, length, take, drop, bit_and, bit_or, if◌then◌else◌, refl, sym, ap, ◌∙◌, false, true, arith,
  low_bits, bit_or_disjoint, Bool-cases, All,
}
use solana_compliance_relaye.Runtime.{ok}
use solana_compliance_relaye.Chain.Wire.{
  read_compact_u16, second_byte, third_byte, first_signature, signature_of_bytes,
  extract_signature_from_serialized_tx,
}

-- The compact-u16 encoding of the Solana wire format: groups of seven bits, lowest first, each but
-- the last with the top bit set.
abbrev pub compact_u16 : ℕ → List ℕ
compact_u16 v =
    if ltb v 128
    then v ∷ []
    else if ltb v 16384
    then (v % 128 + 128) ∷ v / 128 ∷ []
    else (v % 128 + 128) ∷ (v / 128 % 128 + 128) ∷ v / 16384 ∷ []

two_groups : (a b : ℕ) → a < 256 → bit_or (bit_and a 0x7f) (b * 2 ^ 7) ≡ a % 128 + b * 128
two_groups a b h = rw (low_bits a h) (omega (arith, bit_or_disjoint 7 (a % 128) b (omega arith)))

three_groups :
    (a b c : ℕ)
    → a < 256
    → b < 256
    → bit_or (bit_or (bit_and a 0x7f) (bit_and b 0x7f * 2 ^ 7)) (c * 2 ^ 14)
      ≡ a % 128 + b % 128 * 128 + c * 16384
three_groups a b c h k =
    rw (low_bits b k, two_groups a (b % 128) h)
      (omega (arith, bit_or_disjoint 14 (a % 128 + b % 128 * 128) c (omega arith)))

module _ (v : ℕ) (rest : List ℕ) where
  read_two : 128 ≤ v → v < 16384 → read_compact_u16 ((v % 128 + 128) ∷ v / 128 ∷ rest) ≡ ok (v, 2)
  unfolding read_compact_u16 second_byte
  read_two l h =
      rw (first, second)
        (ap (λ (x : ℕ). ok (x, 2))
          (two_groups (v % 128 + 128) (v / 128) (omega arith) ∙ omega arith))
    where
      first : ltb (v % 128 + 128) 0x80 ≡ false
      first = ground arith

      second : ltb (v / 128) 0x80 ≡ true
      second = ground arith

  read_three :
      16384 ≤ v
      → v < 65536
      → read_compact_u16 ((v % 128 + 128) ∷ (v / 128 % 128 + 128) ∷ v / 16384 ∷ rest) ≡ ok (v, 3)
  unfolding read_compact_u16 second_byte third_byte
  read_three l h =
      rw (first, second, third)
        (ap (λ (x : ℕ). ok (x, 3))
          (three_groups (v % 128 + 128) (v / 128 % 128 + 128) (v / 16384) (omega arith)
              (omega arith)
            ∙ omega arith))
    where
      first : ltb (v % 128 + 128) 0x80 ≡ false
      first = ground arith

      second : ltb (v / 128 % 128 + 128) 0x80 ≡ false
      second = ground arith

      third : leb 4 (v / 16384) ≡ false
      third = ground arith

-- A count below 2^16 in the encoding of the wire format is read back, whatever follows it, and with
-- the number of bytes that it takes.
pub read_compact_u16-compact_u16 :
    (v : ℕ) (rest : List ℕ)
    → v < 65536
    → read_compact_u16 (compact_u16 v ++ rest) ≡ ok (v, length (compact_u16 v))
unfolding read_compact_u16
read_compact_u16-compact_u16 v rest h = elim (Bool-cases (ltb v 128)) [
  | inl e ↦ rw (e, e) refl
  | inr e ↦ elim (Bool-cases (ltb v 16384)) [
    | inl f ↦ rw (e, f) (read_two v rest (ground arith) (ground arith))
    | inr f ↦ rw (e, f) (read_three v rest (ground arith) h)
  ]
]

-- Whatever bytes it is given, a value that it reads is below 2^16 and takes at most three of them.
pub read_compact_u16_bounds :
    (bytes : List ℕ) {v n : ℕ}
    → All (λ b. b < 256) bytes
    → read_compact_u16 bytes ≡ ok (v, n)
    → (v < 65536) × (0 < n) × (n ≤ 3) × (n ≤ length bytes)
unfolding read_compact_u16 second_byte third_byte
read_compact_u16_bounds [] h e = ground arith
read_compact_u16_bounds (a ∷ []) h e = ground arith
read_compact_u16_bounds (a ∷ b ∷ []) h e = ground (arith, two_groups a b h.0)
read_compact_u16_bounds (a ∷ b ∷ c ∷ bytes) h e =
    ground (arith, two_groups a b h.0, three_groups a b c h.0 h.1.0)

module _ {ℓ} {A : Type ℓ} where
  drop-append : (xs ys : List A) → drop (length xs) (xs ++ ys) ≡ ys
  drop-append [] ys = refl
  drop-append (x ∷ xs) ys = drop-append xs ys

  take-append : (xs ys : List A) → take (length xs) (xs ++ ys) ≡ xs
  take-append [] ys = refl
  take-append (x ∷ xs) ys = ap (λ zs. x ∷ zs) (take-append xs ys)

  length-append : (xs ys : List A) → length (xs ++ ys) ≡ length xs + length ys
  length-append [] ys = omega arith
  length-append (x ∷ xs) ys = omega (arith, length-append xs ys)

length-compact_u16 : (v : ℕ) → 0 < length (compact_u16 v)
length-compact_u16 v = ground arith

module _ (decode : String → String ⊎ List ℕ) (encode : List ℕ → String) where
  signature_of_some :
      (tx : List ℕ)
      → 0 < length tx
      → signature_of_bytes decode encode (inr tx)
        ≡ first_signature decode encode tx (read_compact_u16 tx)
  unfolding signature_of_bytes
  signature_of_some [] h = absurd (omega arith)
  signature_of_some (b ∷ tx) h = refl

  -- From the Base58 text of a transaction in the wire format, with at least one signature and at most
  -- 65535, the first signature is read, in Base58.
  pub extract_signature_first :
      (text : String) (count : ℕ) (signature rest : List ℕ)
      → decode text ≡ inr (compact_u16 count ++ (signature ++ rest))
      → 0 < count
      → count < 65536
      → length signature ≡ 64
      → extract_signature_from_serialized_tx decode encode text ≡ ok (encode signature)
  unfolding extract_signature_from_serialized_tx first_signature
  extract_signature_first text count signature rest e some_ few size =
      ap (signature_of_bytes decode encode) e
      ∙ signature_of_some tx (omega (arith, long, length-compact_u16 count))
      ∙ ap (first_signature decode encode tx) (read_compact_u16-compact_u16 count _ few)
      ∙ rw (counted, enough, drop-append (compact_u16 count) (signature ++ rest))
          (ap (λ xs. ok (encode xs))
            (ap (λ n. take n (signature ++ rest)) (sym size) ∙ take-append signature rest))
    where
      tx : List ℕ
      tx = compact_u16 count ++ (signature ++ rest)

      long : length tx ≡ length (compact_u16 count) + (64 + length rest)
      long =
          length-append (compact_u16 count) (signature ++ rest)
          ∙ ap (λ (n : ℕ). length (compact_u16 count) + n)
              (omega (arith, length-append signature rest, size))

      counted : (count == 0) ≡ false
      counted = ground arith

      enough : ltb (length tx) (length (compact_u16 count) + 64) ≡ false
      enough = ground (arith, long)
