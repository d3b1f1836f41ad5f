-- ===== src/SourceReader/Encoded.antt =====
-- ccv/source_reader/source_reader.go: the event that the OnRamp emits, after the comments on
-- `decodeCCIPMessageSentEvent` and `parseReceipts`, is read back. A contract writes a struct as a map
-- with its keys in order.
use mathlib.Core.List.{map}
use chainlink_stellar.Prelude.{
  ℕ, zero, suc, ◌≡◌, refl, ap, sym, ◌∙◌, arith, Option, some, List, [], ◌∷◌, All, length,
}
use chainlink_stellar.Config.{Bytes, bytes}
use chainlink_stellar.ScVal.{
  ScVal, scv_symbol, scv_map, scv_u32, scv_u64, scv_i128, scv_bytes, scv_address, Int128Parts,
  ScAddress, entries, Entries, Items, cons, entries_of, items_of,
}
use chainlink_stellar.ScVal.Address.{Strkey, fit, raw_bytes, raw_bytes_from_address_scval}
use chainlink_stellar.ScVal.Codec.{
  bytes_slice_to_scval, vec_to_scval, to_uint64, uint32_from_scval, bytes_from_scval,
  symbol_from_scval, bytes_n_from_scval,
}
use chainlink_stellar.ScVal.RoundTrip.{bytes_vec_from_scval-bytes_slice_to_scval}
use chainlink_stellar.Poller.Event.{EventInfo, or_old}
use chainlink_stellar.SourceReader.Receipts.{
  ReceiptWithBlob, int128, parse_receipts, parse_receipt, receipt_items, receipt_fields,
  set_receipt_field,
}
use chainlink_stellar.SourceReader.Events.{
  Fields, decode_ccip_message_sent_event, message_fields, set_message_field, pair_blobs, no_fields,
}

-- A receipt of the OnRamp, with the raw key of its issuer.
pub record Receipt : Type 0 where
  pub issuer : ScAddress
  pub key : Bytes
  pub dest_gas_limit : ℕ
  pub dest_bytes_overhead : ℕ
  pub fee_token_amount : Int128Parts
  pub extra_args : Bytes

abbrev field : Bytes → ScVal → ScVal × ScVal
field name v = (scv_symbol (some name), v)

abbrev pub encode_receipt : Receipt → ScVal
encode_receipt r = scv_map (
    entries (
      entries_of (
        field (bytes "dest_bytes_overhead") (scv_u32 (some r.dest_bytes_overhead))
        ∷ field (bytes "dest_gas_limit") (scv_u32 (some r.dest_gas_limit))
        ∷ field (bytes "extra_args") (scv_bytes (some r.extra_args))
        ∷ field (bytes "fee_token_amount") (scv_i128 (some r.fee_token_amount))
        ∷ field (bytes "issuer") (scv_address (some r.issuer))
        ∷ [])))

abbrev pub with_blob : Receipt → Bytes → ReceiptWithBlob
with_blob r blob = record {
  issuer = r.key;
  dest_gas_limit = r.dest_gas_limit;
  dest_bytes_overhead = r.dest_bytes_overhead;
  fee_token_amount = some (int128 r.fee_token_amount);
  extra_args = r.extra_args;
  blob = blob;
}

abbrev pub IsIssued : Receipt → Type 0
IsIssued r = raw_bytes r.issuer ≡ some r.key

-- The blob at an index, which is empty where there is none.
abbrev blob_at : List Bytes → ℕ → Bytes
blob_at [] i = []
blob_at (b ∷ bs) zero = b
blob_at (b ∷ bs) (suc i) = blob_at bs i

-- The receipts from an index on, each with the blob of its own index.
abbrev pub with_blobs : List Bytes → ℕ → List Receipt → List ReceiptWithBlob
with_blobs bs i [] = []
with_blobs bs i (r ∷ rs) = with_blob r (blob_at bs i) ∷ with_blobs bs (suc i) rs

pub record SentEvent : Type 0 where
  pub dest_chain_selector : ℕ
  pub sequence_number : ℕ
  pub sender : ScAddress
  pub message_id : Bytes
  pub fee_token : ScAddress
  pub token_amount_before_fees : Int128Parts
  pub encoded_message : Bytes
  -- Those of the verifiers stand first. Those of the token pool, of the executor and of the network
  -- have no blob.
  pub receipts : List Receipt
  pub verifier_blobs : List Bytes

abbrev pub event_entries : SentEvent → Entries
event_entries e = entries_of (
    field (bytes "dest_chain_selector") (scv_u64 (some e.dest_chain_selector))
    ∷ field (bytes "encoded_message") (scv_bytes (some e.encoded_message))
    ∷ field (bytes "fee_token") (scv_address (some e.fee_token))
    ∷ field (bytes "message_id") (scv_bytes (some e.message_id))
    ∷ field (bytes "receipts") (vec_to_scval (map encode_receipt e.receipts))
    ∷ field (bytes "sender") (scv_address (some e.sender))
    ∷ field (bytes "sequence_number") (scv_u64 (some e.sequence_number))
    ∷ field (bytes "token_amount_before_fees") (scv_i128 (some e.token_amount_before_fees))
    ∷ field (bytes "verifier_blobs") (bytes_slice_to_scval e.verifier_blobs)
    ∷ [])

abbrev pub encode_event : SentEvent → ScVal
encode_event e = scv_map (entries (event_entries e))

parse_receipt-encode_receipt :
    (r : Receipt) → IsIssued r → parse_receipt (encode_receipt r) ≡ some (with_blob r [])
unfolding parse_receipt receipt_fields set_receipt_field raw_bytes_from_address_scval
    uint32_from_scval bytes_from_scval symbol_from_scval
parse_receipt-encode_receipt r h = rw h refl

receipt_items_cons :
    (v : ScVal) (vs : Items) (r : ReceiptWithBlob) (rs : List ReceiptWithBlob)
    → parse_receipt v ≡ some r
    → receipt_items vs ≡ some rs
    → receipt_items (cons v vs) ≡ some (r ∷ rs)
unfolding receipt_items
receipt_items_cons v vs r rs e f = ground arith

abbrev without_blob : Receipt → ReceiptWithBlob
without_blob r = with_blob r []

receipt_items-map :
    (rs : List Receipt)
    → All IsIssued rs
    → receipt_items (items_of (map encode_receipt rs)) ≡ some (map without_blob rs)
unfolding receipt_items
receipt_items-map [] h = refl
receipt_items-map (r ∷ rs) (h, hs) =
    receipt_items_cons (encode_receipt r) (items_of (map encode_receipt rs)) _ _
      (parse_receipt-encode_receipt r h) (receipt_items-map rs hs)

parse_receipts-map :
    (rs : List Receipt)
    → All IsIssued rs
    → parse_receipts (vec_to_scval (map encode_receipt rs)) ≡ some (map without_blob rs)
unfolding parse_receipts vec_to_scval
parse_receipts-map rs h = receipt_items-map rs h

-- The first blob serves no index but 0.
with_blobs-suc :
    (b : Bytes) (bs : List Bytes) (i : ℕ) (rs : List Receipt)
    → with_blobs (b ∷ bs) (suc i) rs ≡ with_blobs bs i rs
with_blobs-suc b bs i [] = refl
with_blobs-suc b bs i (r ∷ rs) =
    ap (λ t. with_blob r (blob_at bs i) ∷ t) (with_blobs-suc b bs (suc i) rs)

with_blobs_none : (i : ℕ) (rs : List Receipt) → with_blobs [] i rs ≡ map without_blob rs
with_blobs_none i [] = refl
with_blobs_none i (r ∷ rs) = ap (λ t. without_blob r ∷ t) (with_blobs_none (suc i) rs)

pair_blobs-map :
    (rs : List Receipt) (bs : List Bytes) → pair_blobs (map without_blob rs) bs ≡ with_blobs bs 0 rs
unfolding pair_blobs
pair_blobs-map [] bs = refl
pair_blobs-map (r ∷ rs) [] = sym (with_blobs_none 0 (r ∷ rs))
pair_blobs-map (r ∷ rs) (b ∷ bs) =
    ap (λ t. with_blob r b ∷ t) (pair_blobs-map rs bs ∙ sym (with_blobs-suc b bs 0 rs))

bytes_n_from_scval_lem :
    (b : Bytes) → length b ≡ 32 → bytes_n_from_scval 32 (scv_bytes (some b)) ≡ some b
unfolding bytes_n_from_scval bytes_from_scval
bytes_n_from_scval_lem b h = ground arith

module _ (k : Strkey) (e : SentEvent) where
  event_fields : Fields
  event_fields = message_fields k (event_entries e) no_fields

  fields_id : length e.message_id ≡ 32 → event_fields.message_id ≡ e.message_id
  unfolding event_fields message_fields set_message_field symbol_from_scval
  fields_id h = ap (or_old (fit 32 [])) (bytes_n_from_scval_lem e.message_id h)

  fields_encoded : event_fields.encoded_message ≡ e.encoded_message
  unfolding event_fields message_fields set_message_field symbol_from_scval bytes_from_scval
  fields_encoded = refl

  fields_receipts :
      All IsIssued e.receipts
      → pair_blobs event_fields.receipts event_fields.verifier_blobs
        ≡ with_blobs e.verifier_blobs 0 e.receipts
  unfolding event_fields message_fields set_message_field symbol_from_scval
  fields_receipts h =
      ap (λ bs. pair_blobs event_fields.receipts (or_old [] bs))
        (bytes_vec_from_scval-bytes_slice_to_scval e.verifier_blobs)
      ∙ ap (λ rs. pair_blobs (or_old [] rs) e.verifier_blobs) (parse_receipts-map e.receipts h)
      ∙ pair_blobs-map e.receipts e.verifier_blobs

module _ (k : Strkey) (unmarshal : Bytes → Option ScVal) {Message : Type 0}
    (decode_message : Bytes → Option Message) where
  -- An event with a message id of 32 bytes, an encoding that decodes to a message, and receipts
  -- whose issuers have a raw key, in the form that the OnRamp writes, is read back with its message
  -- id, that message, and its receipts, in order, each with the verifier's blob of its own index; a
  -- receipt past the last blob keeps an empty one.
  pub decode_ccip_message_sent_event-encode_event :
      (i : EventInfo) (e : SentEvent) (message : Message)
      → unmarshal i.value_xdr ≡ some (encode_event e)
      → length e.message_id ≡ 32
      → decode_message e.encoded_message ≡ some message
      → All IsIssued e.receipts
      → decode_ccip_message_sent_event k unmarshal decode_message i
        ≡ some (record {
          message_id = e.message_id;
          message = message;
          receipts = with_blobs e.verifier_blobs 0 e.receipts;
          block_number = to_uint64 i.ledger;
          tx_hash = i.transaction_hash;
        })
  unfolding decode_ccip_message_sent_event event_fields
  decode_ccip_message_sent_event-encode_event i e message u l d h =
      let decoded : decode_message (event_fields k e).encoded_message ≡ some message =
        ap decode_message (fields_encoded k e) ∙ d in
      rw (u, decode_ccip_message_sent_event)
        (ground (arith, decoded, fields_id k e l, fields_receipts k e h))
