-- ===== src/SourceReader/Events.antt =====
-- ccv/source_reader/source_reader.go: `decodeCCIPMessageSentEvent` and `FetchMessageSentEvents`.
-- Reading base64 XDR, the SDK's strkey encoding, `protocol.DecodeMessage` and the RPC client are
-- parameters.
use chainlink_stellar.Prelude.{ℕ, ◌==◌, Option, some, none, List, [], ◌∷◌, ltb, if◌then◌else◌}
use chainlink_stellar.Config.{Bytes, bytes, Bytes_equality}
use chainlink_stellar.Convert.Events.{EventsRequest}
use chainlink_stellar.ScVal.{ScVal, Entries, end, entry}
use chainlink_stellar.ScVal.Address.{Strkey, address_from_scval, fit}
use chainlink_stellar.ScVal.Codec.{
  uint64_from_scval, bytes_from_scval, bytes_n_from_scval, bytes_vec_from_scval, symbol_from_scval,
  to_uint64,
}
use chainlink_stellar.Poller.Event.{EventInfo, get_map, or_old, contract_events}
use chainlink_stellar.SourceReader.Receipts.{ReceiptWithBlob, Int128, i128_value, parse_receipts}

-- The variables that the loop over the entries sets.
pub record Fields : Type 0 where
  pub dest_chain_selector : ℕ
  pub sequence_number : ℕ
  pub sender : Bytes
  pub message_id : Bytes
  pub fee_token : Bytes
  pub token_amount_before_fees : Option Int128
  pub encoded_message : Bytes
  pub receipts : List ReceiptWithBlob
  pub verifier_blobs : List Bytes

abbrev pub no_fields : Fields
no_fields = record {
  dest_chain_selector = 0;
  sequence_number = 0;
  sender = [];
  message_id = fit 32 [];
  fee_token = [];
  token_amount_before_fees = none;
  encoded_message = [];
  receipts = [];
  verifier_blobs = [];
}

pub record MessageSentEvent (Message : Type 0) : Type 0 where
  pub message_id : Bytes
  pub message : Message
  pub receipts : List ReceiptWithBlob
  pub block_number : ℕ
  pub tx_hash : Bytes

-- The blob with the same index, if there is one.
unfoldable pub pair_blobs : List ReceiptWithBlob → List Bytes → List ReceiptWithBlob
pair_blobs [] bs = []
pair_blobs (r ∷ rs) [] = r ∷ rs
pair_blobs (r ∷ rs) (b ∷ bs) = record r { blob = b } ∷ pair_blobs rs bs

-- What the client answers.
pub record ReaderRpc : Type 0 where
  pub latest_ledger : Option ℕ
  pub events : EventsRequest Bytes → Option (List EventInfo)

-- The fields of the reader that its queries use.
pub record SourceReader : Type 0 where
  pub ccip_onramp_address : Bytes
  pub ccip_message_sent_topic : Bytes

module _ (k : Strkey) where
  -- The switch on the key of one entry.
  unfoldable pub set_message_field : Bytes → ScVal → Fields → Fields
  unfolding uint64_from_scval address_from_scval bytes_n_from_scval bytes_from_scval parse_receipts
      bytes_vec_from_scval
  set_message_field key val f =
      if key == bytes "dest_chain_selector"
      then record f { dest_chain_selector = or_old f.dest_chain_selector (uint64_from_scval val) }
      else if key == bytes "sequence_number"
      then record f { sequence_number = or_old f.sequence_number (uint64_from_scval val) }
      else if key == bytes "sender"
      then record f { sender = or_old f.sender (address_from_scval k val) }
      else if key == bytes "message_id"
      then record f { message_id = or_old f.message_id (bytes_n_from_scval 32 val) }
      else if key == bytes "fee_token"
      then record f { fee_token = or_old f.fee_token (address_from_scval k val) }
      else if key == bytes "token_amount_before_fees"
      then record f {
        token_amount_before_fees = or_old f.token_amount_before_fees (i128_value val);
      }
      else if key == bytes "encoded_message"
      then record f { encoded_message = or_old f.encoded_message (bytes_from_scval val) }
      else if key == bytes "receipts"
      then record f { receipts = or_old f.receipts (parse_receipts val) }
      else if key == bytes "verifier_blobs"
      then record f { verifier_blobs = or_old f.verifier_blobs (bytes_vec_from_scval val) }
      else f

  unfoldable pub message_fields : Entries → Fields → Fields
  unfolding set_message_field symbol_from_scval
  message_fields end f = f
  message_fields (entry key val es) f = elim (symbol_from_scval key) [
    | none ↦ message_fields es f
    | some name ↦ message_fields es (set_message_field name val f)
  ]

  module _ (unmarshal : Bytes → Option ScVal) {Message : Type 0}
      (decode_message : Bytes → Option Message) where
    unfoldable pub decode_ccip_message_sent_event : EventInfo → Option (MessageSentEvent Message)
    unfolding message_fields pair_blobs
    decode_ccip_message_sent_event e = elim (unmarshal e.value_xdr) [
      | none ↦ none
      | some v ↦ elim (get_map v) [
        | none ↦ none
        | some es ↦
            let f = message_fields es no_fields in
            elim (decode_message f.encoded_message) [
              | none ↦ none
              | some message ↦ some (record {
                message_id = f.message_id;
                message = message;
                receipts = pair_blobs f.receipts f.verifier_blobs;
                block_number = to_uint64 e.ledger;
                tx_hash = e.transaction_hash;
              })
            ]
      ]
    ]

    -- The loop over the events; one that does not decode is passed over.
    unfoldable pub decode_events : List EventInfo → List (MessageSentEvent Message)
    unfolding decode_ccip_message_sent_event
    decode_events [] = []
    decode_events (e ∷ es) = elim (decode_ccip_message_sent_event e) [
      | none ↦ decode_events es
      | some event ↦ event ∷ decode_events es
    ]

    abbrev max_uint32 : ℕ
    max_uint32 = 4_294_967_295

    -- The last ledger of a query, the latest for a nil block.
    unfoldable pub last_ledger : ReaderRpc → Option ℕ → Option ℕ
    last_ledger r none = r.latest_ledger
    last_ledger r (some to_seq) = if ltb max_uint32 to_seq then none else some to_seq

    -- The query between two ledgers.
    unfoldable pub message_events : SourceReader → ℕ → ℕ → EventsRequest Bytes
    unfolding contract_events
    message_events s first last =
        contract_events s.ccip_onramp_address s.ccip_message_sent_topic first last

    -- The blocks are given by their values as uint64.
    unfoldable pub fetch_message_sent_events :
        SourceReader → ReaderRpc → ℕ → Option ℕ → Option (List (MessageSentEvent Message))
    unfolding decode_events last_ledger message_events
    fetch_message_sent_events s r from_seq to_block =
        if ltb max_uint32 from_seq then none else elim (last_ledger r to_block) [
          | none ↦ none
          | some to_ledger ↦
              elim (r.events
                (message_events s (if ltb from_seq 7 then 7 else from_seq) to_ledger)) [
                  | none ↦ none
                  | some events ↦ some (decode_events events)
                ]
        ]
