-- ===== src/Poller/Tests.antt =====
-- Witnesses of ccv/destination_reader. The protocol of these tests has messages that are their own
-- ids, values that encode their own index, and an association list for a cache.
use chainlink_stellar.Prelude.{
  ℕ, ◌≡◌, ◌/◌, inl, inr, refl, sym, true, some, List, [], ◌∷◌, All, arith, ◌==◌, Bool-cases,
}
use chainlink_stellar.Prelude.Int64.{int64}
use chainlink_stellar.Prelude.Map.{Map, get, put, get-put}
use chainlink_stellar.Config.{Bytes, bytes, Bytes_equality}
use chainlink_stellar.ScVal.{ScVal, scv_map, scv_symbol, scv_bytes, scv_u32, entries, entry, end}
use chainlink_stellar.ScVal.Address.{
  address_vec_from_scval, address_items, parse_address, build_contract_sc_address,
}
use chainlink_stellar.ScVal.Codec.{
  bytes_slice_to_scval, vec_to_scval, bytes_to_scval, symbol_from_scval, bytes_n_from_scval,
  bytes_from_scval, uint32_from_scval, bytes_vec_from_scval, bytes_items,
}
use chainlink_stellar.ScVal.Tests.{plain_strkey, key_32}
use chainlink_stellar.Poller.Outcome.{panicked}
use chainlink_stellar.Poller.Event.{
  EventInfo, parse_execution_state_changed_event, set_fields, set_field,
}
use chainlink_stellar.Poller.Attempt.{
  ExecutionAttempt, tx_v1, invoke_host_function, invoke_contract, extract_invoke_contract_args,
  decode_execute_args_to_attempt,
}
use chainlink_stellar.Poller.Poll.{
  attempt_of_event, process_execution_state_changed, Protocol, Poller, Rpc, get_start_ledger,
  poll_tick, poll_for_events, process_events, new_poller, get_execution_attempts,
}
use chainlink_stellar.Poller.Ledgers.{ledger_before, get_start_ledger_lem}
use chainlink_stellar.Poller.Loop.{verified}
use chainlink_stellar.Poller.Cached.{IsCache, created, polled, get_execution_attempts-HasId}
use chainlink_stellar.Poller.Ccvs.{get_ccvs_for_message, get_ccvs_for_message_panics}

-- The event of the message with the id.
abbrev event_value : Bytes → ScVal
event_value id =
    scv_map (entries (entry (scv_symbol (some (bytes "message_id"))) (scv_bytes (some id)) end))

-- A call of `execute` with the message.
abbrev call : Bytes → List ScVal
call m =
    scv_bytes (some m)
    ∷ vec_to_scval []
    ∷ bytes_slice_to_scval ((7 ∷ []) ∷ [])
    ∷ scv_u32 (some 3)
    ∷ []

abbrev plain : Protocol
plain = record {
  Message = Bytes;
  unmarshal_scval = λ text. some (event_value text);
  unmarshal_envelope =
      λ text. some (tx_v1 (invoke_host_function (invoke_contract (some (call text))) ∷ []));
  decode_message = some;
  message_id = some;
  Cache = Map Bytes (List (ExecutionAttempt Bytes));
  empty = [];
  get = λ c id. get id c;
  add = λ c id as'. put id as' c;
}

plain-IsCache : IsCache plain
unfolding get
plain-IsCache = record {
  get_empty = λ k. refl;
  get_add = λ c k j v w e. elim (Bool-cases (k == j)) [
    | inl b ↦ inl (sym ((Bytes_equality.test_iff k j).0 b), ground (arith, get-put k j v c))
    | inr b ↦ inr (ground (arith, get-put k j v c))
  ];
}

abbrev attempt : ExecutionAttempt Bytes
attempt = record {
  ccvs = [];
  ccv_data = (7 ∷ []) ∷ [];
  message = key_32;
  transaction_gas_limit = 3;
}

-- The event of ledger 12, whose value and transaction stand for the message.
abbrev event : EventInfo
event = record { ledger = int64 12; transaction_hash = key_32; value_xdr = key_32 }

abbrev offramp : Bytes
offramp = bytes "CA"

abbrev client : ℕ → Rpc
client latest = record {
  latest_ledger = some latest;
  events = λ query. some (event ∷ []);
  transaction = λ hash. some (record { success = true; envelope_xdr = hash });
}

abbrev poller : Poller plain
poller = record {
  offramp_contract_id = offramp;
  lookback_window = int64 60_000_000_000;
  start_ledger = 10;
  last_polled_ledger = 10;
  attempt_cache = [];
}

-- The poller at the latest ledger, with the attempt in its cache.
abbrev served : Poller plain
served = record poller { last_polled_ledger = 20; attempt_cache = (key_32, attempt ∷ []) ∷ [] }

get_start_ledger_lem_example :
    get_start_ledger plain (client 1000) poller
    ≡ some (record poller { start_ledger = ledger_before 1000 (60_000_000_000 / 6_000_000_000) })
get_start_ledger_lem_example =
    get_start_ledger_lem plain (client 1000) poller 1000 60_000_000_000 refl refl (omega arith)
      (omega arith)

abbrev fresh : Poller plain
fresh = record {
  offramp_contract_id = offramp;
  lookback_window = int64 60_000_000_000;
  start_ledger = 0;
  last_polled_ledger = 0;
  attempt_cache = [];
}

abbrev polled_once : Poller plain
polled_once = record fresh { last_polled_ledger = 20; attempt_cache = (key_32, attempt ∷ []) ∷ [] }

get_execution_attempts-HasId_example : All (λ a. some a.message ≡ some key_32) (attempt ∷ [])
unfolding get_execution_attempts new_poller poll_tick poll_for_events process_events
    process_execution_state_changed put get verified parse_execution_state_changed_event set_fields
    set_field symbol_from_scval bytes_n_from_scval bytes_from_scval attempt_of_event
    extract_invoke_contract_args decode_execute_args_to_attempt address_vec_from_scval
    bytes_vec_from_scval uint32_from_scval address_items bytes_items bytes_slice_to_scval
    vec_to_scval bytes_to_scval
get_execution_attempts-HasId_example =
    get_execution_attempts-HasId plain plain-IsCache {p = polled_once} key_32 (attempt ∷ [])
      (polled (client 20) (created offramp (int64 60_000_000_000) refl) refl) refl

-- An account's address after a contract's.
get_ccvs_for_message_panics_example :
    get_ccvs_for_message plain_strkey (
      some (record {
        lane_mandated_ccvs = (b'C' ∷ key_32) ∷ [];
        default_ccvs = (b'C' ∷ key_32) ∷ (b'G' ∷ key_32) ∷ [];
      }))
    ≡ panicked
unfolding parse_address build_contract_sc_address
get_ccvs_for_message_panics_example =
    get_ccvs_for_message_panics plain_strkey ((b'C' ∷ key_32, key_32) ∷ [])
      ((b'C' ∷ key_32, key_32) ∷ []) (b'G' ∷ key_32) (some (some key_32)) [] (refl, tt) (refl, tt)
      refl
