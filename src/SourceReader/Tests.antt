-- ===== src/SourceReader/Tests.antt =====
-- Witnesses of ccv/source_reader/source_reader.go.
use mathlib.Core.List.{Memᴰ}
use chainlink_stellar.Prelude.{ℕ, ◌≡◌, refl, Option, some, List, [], ◌∷◌, ℕ_equality}
use chainlink_stellar.Prelude.Int64.{int64}
use chainlink_stellar.Prelude.Map.{get, put}
use chainlink_stellar.Config.{bytes, is_prefix}
use chainlink_stellar.ScVal.{contract}
use chainlink_stellar.ScVal.Address.{fit, raw_bytes}
use chainlink_stellar.ScVal.Codec.{to_uint64}
use chainlink_stellar.ScVal.Tests.{plain_strkey, key_32}
use chainlink_stellar.Poller.Event.{EventInfo}
use chainlink_stellar.SourceReader.Events.{decode_ccip_message_sent_event}
use chainlink_stellar.SourceReader.Headers.{
  BlockHeader, LedgerInfo, get_blocks_headers, add_headers, header_of_ledger, build_block_header,
  to_bytes32, hex_digits,
}
use chainlink_stellar.SourceReader.Encoded.{
  Receipt, SentEvent, encode_event, with_blobs, decode_ccip_message_sent_event-encode_event,
}
use chainlink_stellar.SourceReader.Requested.{get_blocks_headers_lem}

abbrev receipt : Receipt
receipt = record {
  issuer = contract (some key_32);
  key = key_32;
  dest_gas_limit = 1000;
  dest_bytes_overhead = 32;
  fee_token_amount = record { hi = int64 0; lo = 77 };
  extra_args = 4 ∷ [];
}

-- Two verifiers, the executor and the network.
abbrev sent : SentEvent
sent = record {
  dest_chain_selector = 5;
  sequence_number = 12;
  sender = contract (some key_32);
  message_id = key_32;
  fee_token = contract (some key_32);
  token_amount_before_fees = record { hi = int64 0; lo = 9 };
  encoded_message = 1 ∷ 2 ∷ [];
  receipts = receipt ∷ receipt ∷ receipt ∷ receipt ∷ [];
  verifier_blobs = (8 ∷ []) ∷ (9 ∷ []) ∷ [];
}

abbrev info : EventInfo
info = record { ledger = int64 100; transaction_hash = bytes "ab"; value_xdr = bytes "v" }

decode_ccip_message_sent_event-encode_event_example :
    decode_ccip_message_sent_event plain_strkey (λ text. some (encode_event sent)) some info
    ≡ some (record {
      message_id = key_32;
      message = 1 ∷ 2 ∷ [];
      receipts = with_blobs sent.verifier_blobs 0 sent.receipts;
      block_number = to_uint64 (int64 100);
      tx_hash = bytes "ab";
    })
unfolding raw_bytes
decode_ccip_message_sent_event-encode_event_example =
    decode_ccip_message_sent_event-encode_event plain_strkey (λ text. some (encode_event sent)) some
      info sent (1 ∷ 2 ∷ []) refl refl refl (refl, (refl, (refl, (refl, tt))))

abbrev ledger_at : ℕ → Option (List LedgerInfo)
ledger_at n = some (
    record { hash = bytes "0xab"; header = bytes "h"; sequence = n; ledger_close_time = int64 1000 }
    ∷ [])

abbrev header_at : ℕ → BlockHeader
header_at n = record {
  number = n;
  hash = fit 32 (bytes "ab");
  parent_hash = bytes "h";
  timestamp = int64 1000;
}

-- Ledger 8 is asked for twice.
get_blocks_headers_lem_example :
    (Memᴰ {A = ℕ} 9 (8 ∷ 9 ∷ 8 ∷ [])
      → (h : BlockHeader) × (get {K = ℕ} 9 ((8, header_at 8) ∷ (9, header_at 9) ∷ []) ≡ some h))
    × ((h : BlockHeader)
        → get {K = ℕ} 9 ((8, header_at 8) ∷ (9, header_at 9) ∷ []) ≡ some h
        → Memᴰ {A = ℕ} 9 (8 ∷ 9 ∷ 8 ∷ []) × (h.number ≡ 9))
unfolding get_blocks_headers add_headers header_of_ledger build_block_header to_bytes32 hex_digits
    put is_prefix
get_blocks_headers_lem_example =
    get_blocks_headers_lem some some ledger_at (8 ∷ 9 ∷ 8 ∷ [])
      ((8, header_at 8) ∷ (9, header_at 9) ∷ []) 9 refl
