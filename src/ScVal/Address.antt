-- ===== src/ScVal/Address.antt =====
-- bindings/scval/scval.go: addresses. The SDK's strkey encoding, its check sums and the XDR of an
-- address are parameters.
use mathlib.Core.List.{map}
use chainlink_stellar.Prelude.{
  ℕ, zero, suc, ◌≡◌, Option, some, none, List, [], ◌∷◌, nat_eq, length, if◌then◌else◌,
}
use chainlink_stellar.Config.{Bytes}
use chainlink_stellar.ScVal.{
  ScVal, scv_void, scv_address, scv_vec, nil_vec, no_items, Items, ScAddress, account, contract,
  muxed_account, claimable_balance, liquidity_pool, other_address, nil, cons, items, VecArm,
  items_of,
}

-- A `copy` into a fresh array of n bytes.
abbrev pub fit : ℕ → Bytes → Bytes
fit zero bs = []
fit (suc n) [] = 0 ∷ fit n []
fit (suc n) (b ∷ bs) = b ∷ fit n bs

-- `strkey.Encode` and `strkey.Decode` at the two version bytes, `xdr.AddressToAccountId` with the
-- key that it finds, `ScAddress.UnmarshalBinary`, and `hex.DecodeString`.
pub record Strkey : Type 0 where
  pub encode_account : Bytes → Option Bytes
  pub encode_contract : Bytes → Option Bytes
  pub decode_account : Bytes → Option Bytes
  pub decode_contract : Bytes → Option Bytes
  pub address_to_account_id : Bytes → Option Bytes
  pub unmarshal_address : Bytes → Option ScAddress
  pub decode_hex : Bytes → Option Bytes

-- What the SDK documents of them: a key of 32 bytes has a text, which starts with the letter of its
-- version and decodes to the key; the XDR of a contract address is its tag and the key.
pub record IsStrkey (k : Strkey) : Type 0 where
  pub account_text :
      (b : Bytes)
      → length b ≡ 32
      → (t : Bytes) × (k.encode_account b ≡ some (b'G' ∷ t))
        × (k.decode_account (b'G' ∷ t) ≡ some b)
        × (k.address_to_account_id (b'G' ∷ t) ≡ some b)
  pub contract_text :
      (b : Bytes)
      → length b ≡ 32
      → (t : Bytes) × (k.encode_contract b ≡ some (b'C' ∷ t))
        × (k.decode_contract (b'C' ∷ t) ≡ some b)
  pub contract_xdr :
      (b : Bytes)
      → length b ≡ 32
      → k.unmarshal_address (0 ∷ 0 ∷ 0 ∷ 1 ∷ b) ≡ some (contract (some b))

abbrev pub key_of : Option Bytes → Option ScAddress
key_of none = none
key_of (some key) = some (account (some (some (fit 32 key))))

module _ (k : Strkey) where
  unfoldable pub build_contract_sc_address : Bytes → Option ScAddress
  build_contract_sc_address b =
      if nat_eq (length b) 32 then k.unmarshal_address (0 ∷ 0 ∷ 0 ∷ 1 ∷ b) else none

  -- `none` is a nil pointer.
  unfoldable pub parse_address : Bytes → Option ScAddress
  unfolding build_contract_sc_address
  parse_address [] = none
  parse_address (c ∷ cs) =
      if nat_eq c b'C'
      then elim (k.decode_contract (c ∷ cs)) [
        | none ↦ none
        | some decoded ↦ build_contract_sc_address decoded
      ]
      else if nat_eq c b'G'
      then key_of (k.decode_account (c ∷ cs))
      else none

  unfoldable pub address_to_scval : Bytes → ScVal
  unfolding parse_address
  address_to_scval addr = scv_address (parse_address addr)

  unfoldable pub optional_address_to_scval : Option Bytes → ScVal
  unfolding address_to_scval
  optional_address_to_scval none = scv_void
  optional_address_to_scval (some addr) = address_to_scval addr

  -- A nil account or contract panics in the SDK (`MustAccountId`); no result here either.
  unfoldable pub encode_address : ScAddress → Option Bytes
  encode_address (account (some (some key))) = k.encode_account key
  encode_address (account (some none)) = none
  encode_address (account none) = none
  encode_address (contract (some key)) = k.encode_contract key
  encode_address (contract none) = none
  encode_address (muxed_account a) = none
  encode_address (claimable_balance a) = none
  encode_address (liquidity_pool a) = none
  encode_address (other_address a) = none

  unfoldable pub address_from_scval : ScVal → Option Bytes
  unfolding encode_address
  address_from_scval (scv_address (some addr)) = encode_address addr
  address_from_scval _ = none

  -- The outer `none` is an error.
  unfoldable pub optional_address_from_scval : ScVal → Option (Option Bytes)
  unfolding address_from_scval
  optional_address_from_scval scv_void = some none
  optional_address_from_scval v = elim (address_from_scval v) [
    | none ↦ none
    | some addr ↦ some (some addr)
  ]

  unfoldable pub address_slice_to_scval : List Bytes → ScVal
  unfolding address_to_scval
  address_slice_to_scval addrs = scv_vec (items (items_of (map address_to_scval addrs)))

  abbrev trim_0x : Bytes → Bytes
  trim_0x [] = []
  trim_0x (a ∷ []) = a ∷ []
  trim_0x (a ∷ b ∷ rest) =
      if nat_eq a b'0' then (if nat_eq b b'x' then rest else a ∷ b ∷ rest) else a ∷ b ∷ rest

  unfoldable pub hex_to_contract_strkey : Bytes → Option Bytes
  hex_to_contract_strkey hex_addr = elim (k.decode_hex (trim_0x hex_addr)) [
    | none ↦ none
    | some raw ↦ k.encode_contract raw
  ]

-- The raw key of an account or a contract.
unfoldable pub raw_bytes : ScAddress → Option Bytes
raw_bytes (account (some (some key))) = some key
raw_bytes (account (some none)) = none
raw_bytes (account none) = none
raw_bytes (contract key) = key
raw_bytes (muxed_account a) = none
raw_bytes (claimable_balance a) = none
raw_bytes (liquidity_pool a) = none
raw_bytes (other_address a) = none

unfoldable pub raw_bytes_from_address_scval : ScVal → Option Bytes
unfolding raw_bytes
raw_bytes_from_address_scval (scv_address (some addr)) = raw_bytes addr
raw_bytes_from_address_scval _ = none

unfoldable pub address_items : Items → Option (List Bytes)
unfolding raw_bytes_from_address_scval
address_items nil = some []
address_items (cons v vs) = elim (raw_bytes_from_address_scval v) [
  | none ↦ none
  | some raw ↦ elim (address_items vs) [ none ↦ none | some rest ↦ some (raw ∷ rest) ]
]

abbrev vec_items : VecArm → Option Items
vec_items nil_vec = none
vec_items no_items = none
vec_items (items vs) = some vs

-- The items of a vector value, and `none` at any other value.
abbrev pub get_items : ScVal → Option Items
get_items (scv_vec v) = vec_items v
get_items _ = none

unfoldable pub address_vec_from_scval : ScVal → Option (List Bytes)
unfolding address_items
address_vec_from_scval v = elim (get_items v) [ none ↦ none | some vs ↦ address_items vs ]
