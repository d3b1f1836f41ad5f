-- ===== src/ScVal/RoundTrip.antt =====
-- bindings/scval/scval.go: reading back what was written.
use mathlib.Core.List.{map}
use chainlink_stellar.Prelude.{ℕ, zero, suc, ◌≡◌, refl, ap, some, List, [], ◌∷◌, length, arith, All}
use chainlink_stellar.Config.{Bytes}
use chainlink_stellar.ScVal.{items_of, ScAddress, account, contract}
use chainlink_stellar.ScVal.Address.{
  Strkey, IsStrkey, fit, build_contract_sc_address, parse_address, address_to_scval, encode_address,
  address_from_scval, raw_bytes, raw_bytes_from_address_scval, address_slice_to_scval,
  address_vec_from_scval, address_items,
}
use chainlink_stellar.ScVal.Codec.{
  bytes_slice_to_scval, bytes_vec_from_scval, bytes_items, bytes_to_scval,
}

pub fit-length : (n : ℕ) (b : Bytes) → length b ≡ n → fit n b ≡ b
fit-length zero [] h = refl
fit-length zero (x ∷ b) h = absurd (omega arith)
fit-length (suc n) [] h = absurd (omega arith)
fit-length (suc n) (x ∷ b) h = ap (λ t. x ∷ t) (fit-length n b (omega arith))

-- A contract or an account with a key of 32 bytes.
pub data IsKeyAddress : ScAddress → Bytes → Type 0 where
  account_key : (b : Bytes) → length b ≡ 32 → IsKeyAddress (account (some (some b))) b
  contract_key : (b : Bytes) → length b ≡ 32 → IsKeyAddress (contract (some b)) b

module _ (k : Strkey) (s : IsStrkey k) where
  pub build_contract_sc_address_lem :
      (b : Bytes) → length b ≡ 32 → build_contract_sc_address k b ≡ some (contract (some b))
  unfolding build_contract_sc_address
  build_contract_sc_address_lem b h = ground (arith, s.contract_xdr b h)

  -- Every account or contract with a key of 32 bytes has a text, which parses to that address and
  -- reads back as that text.
  pub parse_address-encode_address :
      {a : ScAddress} {b : Bytes}
      → IsKeyAddress a b
      → (t : Bytes) × (encode_address k a ≡ some t)
        × (parse_address k t ≡ some a)
        × (address_from_scval k (address_to_scval k t) ≡ some t)
        × (raw_bytes_from_address_scval (address_to_scval k t) ≡ some b)
  unfolding address_to_scval address_from_scval raw_bytes_from_address_scval encode_address
      parse_address
  parse_address-encode_address (account_key b h) =
      let (t, e, d, i) = s.account_text b h in
      let parsed : parse_address k (b'G' ∷ t) ≡ some (account (some (some b))) =
        rw d (ap (λ x. some (account (some (some x)))) (fit-length 32 b h)) in
      (b'G' ∷ t, e, parsed, rw parsed e, rw parsed refl)
  parse_address-encode_address (contract_key b h) =
      let (t, e, d) = s.contract_text b h in
      let parsed : parse_address k (b'C' ∷ t) ≡ some (contract (some b)) =
        rw d (build_contract_sc_address_lem b h) in
      (b'C' ∷ t, e, parsed, rw parsed e, rw parsed refl)

  -- The texts of addresses with their keys, each the text of an account or a contract.
  abbrev pub IsText : Bytes × Bytes → Type 0
  IsText (t, b) = (a : ScAddress) × (parse_address k t ≡ some a) × (raw_bytes a ≡ some b)

  address_items-map :
      (ts : List (Bytes × Bytes))
      → All IsText ts
      → address_items (items_of (map (address_to_scval k) (map (λ e. e.0) ts)))
        ≡ some (map (λ e. e.1) ts)
  unfolding address_items address_to_scval raw_bytes_from_address_scval
  address_items-map [] h = refl
  address_items-map ((t, b) ∷ ts) ((a, p, q), h) =
      rw p (rw (q, address_items) (rw (address_items-map ts h, address_items) refl))

  -- A slice of addresses that parse is read back as their raw keys, in order.
  pub address_vec_from_scval-address_slice_to_scval :
      (ts : List (Bytes × Bytes))
      → All IsText ts
      → address_vec_from_scval (address_slice_to_scval k (map (λ e. e.0) ts))
        ≡ some (map (λ e. e.1) ts)
  unfolding address_vec_from_scval address_slice_to_scval
  address_vec_from_scval-address_slice_to_scval ts h = address_items-map ts h

bytes_items-map : (bs : List Bytes) → bytes_items (items_of (map bytes_to_scval bs)) ≡ some bs
unfolding bytes_items bytes_to_scval
bytes_items-map [] = refl
bytes_items-map (b ∷ bs) = rw (bytes_items-map bs, bytes_items) refl

-- A slice of byte strings is read back, in order.
pub bytes_vec_from_scval-bytes_slice_to_scval :
    (bs : List Bytes) → bytes_vec_from_scval (bytes_slice_to_scval bs) ≡ some bs
unfolding bytes_vec_from_scval bytes_slice_to_scval
bytes_vec_from_scval-bytes_slice_to_scval bs = bytes_items-map bs
