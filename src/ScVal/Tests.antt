-- ===== src/ScVal/Tests.antt =====
-- Witnesses of bindings/scval/scval.go.
use chainlink_stellar.Prelude.{◌≡◌, refl, Option, some, none, List, [], ◌∷◌, arith}
use chainlink_stellar.Prelude.Map.{get, Unique}
use chainlink_stellar.Config.{Bytes, bytes, Bytes_equality}
use chainlink_stellar.ScVal.{ScVal, scv_u32, ScAddress, contract}
use chainlink_stellar.ScVal.Address.{
  Strkey, IsStrkey, fit, encode_address, parse_address, address_to_scval, address_from_scval,
  raw_bytes_from_address_scval,
}
use chainlink_stellar.ScVal.Struct.{build_struct_scval}
use chainlink_stellar.ScVal.Sorted.{IsCanonical, build_struct_scval-IsCanonical}
use chainlink_stellar.ScVal.RoundTrip.{contract_key, parse_address-encode_address}

abbrev tail : Bytes → Option Bytes
tail [] = none
tail (b ∷ bs) = some bs

-- The key after a tag of four bytes.
abbrev contract_of : Bytes → Option ScAddress
contract_of (a ∷ b ∷ c ∷ d ∷ key) = some (contract (some key))
contract_of _ = none

-- A text is the letter of its version and the key.
abbrev pub plain_strkey : Strkey
plain_strkey = record {
  encode_account = λ b. some (b'G' ∷ b);
  encode_contract = λ b. some (b'C' ∷ b);
  decode_account = tail;
  decode_contract = tail;
  address_to_account_id = tail;
  unmarshal_address = contract_of;
  decode_hex = some;
}

pub plain_strkey-IsStrkey : IsStrkey plain_strkey
plain_strkey-IsStrkey = record {
  account_text = λ b h. (b, refl, refl, refl);
  contract_text = λ b h. (b, refl, refl);
  contract_xdr = λ b h. refl;
}

abbrev pub key_32 : Bytes
key_32 = fit 32 (1 ∷ 2 ∷ 3 ∷ [])

parse_address-encode_address_example :
    (t : Bytes) × (encode_address plain_strkey (contract (some key_32)) ≡ some t)
    × (parse_address plain_strkey t ≡ some (contract (some key_32)))
    × (address_from_scval plain_strkey (address_to_scval plain_strkey t) ≡ some t)
    × (raw_bytes_from_address_scval (address_to_scval plain_strkey t) ≡ some key_32)
parse_address-encode_address_example =
    parse_address-encode_address plain_strkey plain_strkey-IsStrkey (contract_key key_32 refl)

abbrev ab : List (Bytes × ScVal)
ab = (bytes "a", scv_u32 (some 1)) ∷ (bytes "b", scv_u32 (some 2)) ∷ []

abbrev ba : List (Bytes × ScVal)
ba = (bytes "b", scv_u32 (some 2)) ∷ (bytes "a", scv_u32 (some 1)) ∷ []

ab-Unique : Unique ab
unfolding get
ab-Unique = (refl, (refl, tt))

ba-Unique : Unique ba
unfolding get
ba-Unique = (refl, (refl, tt))

ab-ba : (k : Bytes) → get k ab ≡ get k ba
unfolding get
ab-ba k =
    ground (arith, Bytes_equality.test_iff (bytes "a") k, Bytes_equality.test_iff (bytes "b") k)

build_struct_scval-IsCanonical_example :
    IsCanonical ab (build_struct_scval ab) × (build_struct_scval ab ≡ build_struct_scval ba)
build_struct_scval-IsCanonical_example =
    build_struct_scval-IsCanonical ab ba ab-Unique ba-Unique ab-ba
