-- ===== src/SourceReader/Receipts.antt =====
-- ccv/source_reader/source_reader.go: `parseReceipts`.
use chainlink_stellar.Prelude.{
  ℕ, ◌+◌, ◌*◌, ◌^◌, ◌==◌, Option, some, none, List, [], ◌∷◌, if◌then◌else◌,
}
use chainlink_stellar.Config.{Bytes, bytes, Bytes_equality}
use chainlink_stellar.ScVal.{ScVal, scv_i128, Int128Parts, Items, nil, cons, Entries, end, entry}
use chainlink_stellar.ScVal.Address.{get_items, raw_bytes_from_address_scval}
use chainlink_stellar.ScVal.Codec.{uint32_from_scval, bytes_from_scval, symbol_from_scval}
use chainlink_stellar.Poller.Event.{get_map, or_old}

-- An integer of 128 bits, in excess-2^127 form.
abbrev pub Int128 : Type 0
Int128 = ℕ

-- `hi << 64 + lo`.
abbrev pub int128 : Int128Parts → Int128
int128 parts = parts.hi * 2 ^ 64 + parts.lo

abbrev pub i128_value : ScVal → Option (Option Int128)
i128_value (scv_i128 (some parts)) = some (some (int128 parts))
i128_value _ = none

pub record ReceiptWithBlob : Type 0 where
  pub issuer : Bytes
  pub dest_gas_limit : ℕ
  pub dest_bytes_overhead : ℕ
  pub fee_token_amount : Option Int128
  pub extra_args : Bytes
  pub blob : Bytes

abbrev pub empty_receipt : ReceiptWithBlob
empty_receipt = record {
  issuer = [];
  dest_gas_limit = 0;
  dest_bytes_overhead = 0;
  fee_token_amount = none;
  extra_args = [];
  blob = [];
}

-- The switch on the key of one entry.
unfoldable pub set_receipt_field : Bytes → ScVal → ReceiptWithBlob → ReceiptWithBlob
unfolding raw_bytes_from_address_scval uint32_from_scval bytes_from_scval
set_receipt_field key val r =
    if key == bytes "issuer"
    then record r { issuer = or_old r.issuer (raw_bytes_from_address_scval val) }
    else if key == bytes "dest_gas_limit"
    then record r { dest_gas_limit = or_old r.dest_gas_limit (uint32_from_scval val) }
    else if key == bytes "dest_bytes_overhead"
    then record r { dest_bytes_overhead = or_old r.dest_bytes_overhead (uint32_from_scval val) }
    else if key == bytes "fee_token_amount"
    then record r { fee_token_amount = or_old r.fee_token_amount (i128_value val) }
    else if key == bytes "extra_args"
    then record r { extra_args = or_old r.extra_args (bytes_from_scval val) }
    else r

unfoldable pub receipt_fields : Entries → ReceiptWithBlob → ReceiptWithBlob
unfolding set_receipt_field symbol_from_scval
receipt_fields end r = r
receipt_fields (entry key val es) r = elim (symbol_from_scval key) [
  | none ↦ receipt_fields es r
  | some name ↦ receipt_fields es (set_receipt_field name val r)
]

unfoldable pub parse_receipt : ScVal → Option ReceiptWithBlob
unfolding receipt_fields
parse_receipt v = elim (get_map v) [
  | none ↦ none
  | some es ↦ some (receipt_fields es empty_receipt)
]

unfoldable pub receipt_items : Items → Option (List ReceiptWithBlob)
unfolding parse_receipt
receipt_items nil = some []
receipt_items (cons v vs) = elim (parse_receipt v) [
  | none ↦ none
  | some r ↦ elim (receipt_items vs) [ none ↦ none | some rs ↦ some (r ∷ rs) ]
]

unfoldable pub parse_receipts : ScVal → Option (List ReceiptWithBlob)
unfolding receipt_items
parse_receipts v = elim (get_items v) [ none ↦ none | some vs ↦ receipt_items vs ]
