-- ===== src/Poller/Event.antt =====
-- bindings/contracts/offramp/client.go: `ParseExecutionStateChangedEvent`. Reading base64 XDR
-- (`xdr.SafeUnmarshalBase64`) is a parameter.
use chainlink_stellar.Prelude.{
  true, false, ◌∷◌, ℕ, ◌+◌, ◌%◌, ◌^◌, ◌==◌, Option, some, none, [], if◌then◌else◌,
}
use chainlink_stellar.Prelude.Int64.{Int64}
use chainlink_stellar.Config.{Bytes, bytes, Bytes_equality}
use chainlink_stellar.Convert.Events.{EventsRequest, default_format, zero_or_more}
use chainlink_stellar.ScVal.{
  ScVal, scv_map, MapArm, nil_map, no_entries, entries, Entries, end, entry,
}
use chainlink_stellar.ScVal.Address.{fit}
use chainlink_stellar.ScVal.Codec.{
  uint64_from_scval, uint32_from_scval, bytes_from_scval, bytes_n_from_scval, symbol_from_scval,
  symbol_to_scval,
}

-- An event of the RPC client, as far as it is read. The ledger is an int32, here in the form of an
-- int64.
pub record EventInfo : Type 0 where
  pub ledger : Int64
  pub transaction_hash : Bytes
  pub value_xdr : Bytes

-- The query for the events of a contract with a topic, from the first ledger and before the second.
unfoldable pub contract_events : Bytes → Bytes → ℕ → ℕ → EventsRequest Bytes
unfolding symbol_to_scval
contract_events contract topic first last = record {
  start_ledger = first;
  end_ledger = last;
  filters =
      record {
        event_types = record { system = false; contract = true };
        contract_ids = contract ∷ [];
        topics =
            (record { wildcard = none; scval = some (symbol_to_scval topic) }
              ∷ record { wildcard = some zero_or_more; scval = none }
              ∷ [])
            ∷ [];
      }
      ∷ [];
  format = default_format;
  pagination = none;
}

pub record ExecutionStateChangedEvent : Type 0 where
  pub source_chain_selector : ℕ
  pub sequence_number : ℕ
  pub message_id : Bytes
  pub state : ℕ
  pub return_data : Bytes
  pub ledger : ℕ
  pub tx_hash : Bytes

abbrev map_entries : MapArm → Option Entries
map_entries nil_map = none
map_entries no_entries = none
map_entries (entries es) = some es

-- The entries of a map value, and `none` at any other value.
abbrev pub get_map : ScVal → Option Entries
get_map (scv_map m) = map_entries m
get_map _ = none

-- A value that was read replaces the field; an error leaves the field as it is.
abbrev pub or_old {ℓ} : {A : Type ℓ} → A → Option A → A
or_old old none = old
or_old old (some new) = new

unfoldable pub message_execution_state_from_scval : ScVal → Option ℕ
unfolding uint32_from_scval
message_execution_state_from_scval v = uint32_from_scval v

-- The switch on the key of one entry.
unfoldable pub set_field : Bytes → ScVal → ExecutionStateChangedEvent → ExecutionStateChangedEvent
unfolding message_execution_state_from_scval uint64_from_scval bytes_from_scval bytes_n_from_scval
set_field key val r =
    if key == bytes "source_chain_selector"
    then record r { source_chain_selector = or_old r.source_chain_selector (uint64_from_scval val) }
    else if key == bytes "sequence_number"
    then record r { sequence_number = or_old r.sequence_number (uint64_from_scval val) }
    else if key == bytes "message_id"
    then record r { message_id = or_old r.message_id (bytes_n_from_scval 32 val) }
    else if key == bytes "state"
    then record r { state = or_old r.state (message_execution_state_from_scval val) }
    else if key == bytes "return_data"
    then record r { return_data = or_old r.return_data (bytes_from_scval val) }
    else r

-- The loop over the entries; one whose key is no symbol is passed over.
unfoldable pub set_fields : Entries → ExecutionStateChangedEvent → ExecutionStateChangedEvent
unfolding set_field symbol_from_scval
set_fields end r = r
set_fields (entry key val es) r = elim (symbol_from_scval key) [
  | none ↦ set_fields es r
  | some name ↦ set_fields es (set_field name val r)
]

abbrev pub zero_32 : Bytes
zero_32 = fit 32 []

module _ (unmarshal : Bytes → Option ScVal) where
  unfoldable pub parse_execution_state_changed_event : EventInfo → Option ExecutionStateChangedEvent
  unfolding set_fields
  parse_execution_state_changed_event e = elim (unmarshal e.value_xdr) [
    | none ↦ none
    | some v ↦ elim (get_map v) [
      | none ↦ none
      | some es ↦ some (
          set_fields es (record {
            source_chain_selector = 0;
            sequence_number = 0;
            message_id = zero_32;
            state = 0;
            return_data = [];
            ledger = (e.ledger + 2 ^ 63) % 2 ^ 32;
            tx_hash = e.transaction_hash;
          }))
    ]
  ]
