-- ===== src/Transmitter/Blob.antt =====
-- ccv/contract_transmitter/contract_transmitter.go: `convertVerifierBlobToEIP2098` and
-- `ConvertAndWriteMessageToChain`. The order n of the curve, the encoding of a message, the hex
-- encoding and the call of the OffRamp are parameters.
use chainlink_stellar.Prelude.{
  ℕ, zero, suc, ◌+◌, ◌-◌, ◌/◌, ◌%◌, Option, some, none, List, [], ◌∷◌, ◌++◌, ltb, leb, nat_eq, ◌||◌,
  not, length, if◌then◌else◌,
}
use chainlink_stellar.Config.{Bytes, bytes}
use chainlink_stellar.ScVal.Address.{Strkey, hex_to_contract_strkey}
use chainlink_stellar.Convert.Events.{traverse}
use chainlink_stellar.Transmitter.Words.{number, padded}

abbrev pub take : ℕ → Bytes → Bytes
take zero bs = []
take (suc n) [] = []
take (suc n) (b ∷ bs) = b ∷ take n bs

abbrev pub drop : ℕ → Bytes → Bytes
drop zero bs = bs
drop (suc n) [] = []
drop (suc n) (b ∷ bs) = drop n bs

-- `sBytes[0] |= 0x80` on a byte.
abbrev pub set_high : Bytes → Bytes
set_high [] = []
set_high (b ∷ bs) = (if ltb b 128 then b + 128 else b) ∷ bs

-- The difference without its sign, as `Bytes` has it.
abbrev pub distance : ℕ → ℕ → ℕ
distance n s = if leb s n then n - s else s - n

-- The half of the order, rounded down, is the greatest S whose recovery id was 0.
unfoldable pub compact_s : ℕ → Bytes → Bytes
compact_s n s_bytes =
    if ltb (n / 2) (number s_bytes)
    then set_high (padded 32 (distance n (number s_bytes)))
    else s_bytes

-- The loop over the signatures, of 64 bytes each: R is kept.
unfoldable pub convert_signatures : ℕ → ℕ → Bytes → Bytes
unfolding compact_s
convert_signatures n zero bs = bs
convert_signatures n (suc count) bs =
    take 32 bs ++ (compact_s n (take 32 (drop 32 bs)) ++ convert_signatures n count (drop 64 bs))

-- The length of the signatures, in the fifth and the sixth byte.
abbrev pub sig_payload_len : Bytes → ℕ
sig_payload_len blob = number (take 2 (drop 4 blob))

unfoldable pub convert_verifier_blob_to_eip2098 : ℕ → Bytes → Option Bytes
unfolding convert_signatures number
convert_verifier_blob_to_eip2098 n blob =
    if ltb (length blob) 6
    then some blob
    else let len = sig_payload_len blob in
      if nat_eq len 0 || ltb (length blob) (6 + len)
      then some blob
      else if not (nat_eq (len % 64) 0)
      then none
      else some (take 6 blob ++ convert_signatures n (len / 64) (drop 6 blob))

pub record Report (Message : Type 0) : Type 0 where
  pub ccvs : List Bytes
  pub ccv_data : List Bytes
  pub message : Message

-- A call of `execute` on the OffRamp.
pub record ExecuteCall : Type 0 where
  pub encoded_message : Bytes
  pub ccvs : List Bytes
  pub verifier_results : List Bytes
  pub gas_limit_override : ℕ

module _ {Message : Type 0} (k : Strkey) (encode : Message → Option Bytes)
    (encode_hex : Bytes → Bytes) (n : ℕ) where
  -- The call that a report is submitted with; `none` is an encoding error, after which there is none.
  unfoldable pub convert_message : Report Message → Option ExecuteCall
  unfolding convert_verifier_blob_to_eip2098 hex_to_contract_strkey
  convert_message r = elim (encode r.message) [
    | none ↦ none
    | some encoded ↦
        elim (traverse (λ ccv. hex_to_contract_strkey k (bytes "0x" ++ encode_hex ccv)) r.ccvs) [
          | none ↦ none
          | some ccvs ↦ elim (traverse (convert_verifier_blob_to_eip2098 n) r.ccv_data) [
            | none ↦ none
            | some blobs ↦ some (record {
              encoded_message = encoded;
              ccvs = ccvs;
              verifier_results = blobs;
              gas_limit_override = 0;
            })
          ]
        ]
  ]
