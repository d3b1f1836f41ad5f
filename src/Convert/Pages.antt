-- ===== src/Convert/Pages.antt =====
-- relayer/type_converters.go: pages of events, and the authorisation mode of a simulation. Reading
-- base64 XDR (`xdr.SafeUnmarshalBase64`) is a parameter.
use chainlink_stellar.Prelude.{ℕ, Option, some, none, List, [], ◌∷◌, ltb, ◌-◌, ◌^◌, if◌then◌else◌}
use chainlink_stellar.Prelude.Int64.{Int64}
use chainlink_stellar.Config.{Bytes, Bytes_equality}
use chainlink_stellar.ScVal.{ScVal}
use chainlink_stellar.Convert.Domain.{DomainVal}
use chainlink_stellar.Convert.Value.{convert_scval_to_domain}
use chainlink_stellar.Convert.Events.{
  EventType, system_type, contract_type, EventName, system_name, contract_name, other_name,
  traverse,
}

-- An event of the RPC client. The ledger is an int32, here in the form of an int64.
pub record EventInfo : Type 0 where
  pub event_type : EventName
  pub ledger : Int64
  pub ledger_closed_at : Bytes
  pub contract_id : Bytes
  pub id : Bytes
  pub op_index : ℕ
  pub tx_index : ℕ
  pub transaction_hash : Bytes
  pub topic_xdr : List Bytes
  pub value_xdr : Bytes

pub record DomainEventInfo : Type 0 where
  pub event_type : EventType
  pub ledger : ℕ
  pub ledger_closed_at : Bytes
  pub contract_id : Bytes
  pub id : Bytes
  pub operation_index : ℕ
  pub transaction_index : ℕ
  pub transaction_hash : Bytes
  pub topics : List DomainVal
  pub value : DomainVal

-- A page of events, of either kind: the rest of it is copied.
pub record EventsResponse (Event : Type 0) : Type 0 where
  pub events : List Event
  pub cursor : Bytes
  pub latest_ledger : ℕ
  pub oldest_ledger : ℕ
  pub latest_ledger_close_time : Int64
  pub oldest_ledger_close_time : Int64

abbrev pub event_type_of : EventName → Option EventType
event_type_of system_name = some system_type
event_type_of contract_name = some contract_type
event_type_of (other_name text) = none

module _ (unmarshal : Bytes → Option ScVal) where
  unfoldable pub decode_scval_base64_to_domain : Bytes → Option DomainVal
  decode_scval_base64_to_domain encoded = elim (unmarshal encoded) [
    | none ↦ none
    | some value ↦ convert_scval_to_domain value
  ]

  abbrev pub value_of : Bytes → Option DomainVal
  value_of [] = none
  value_of (b ∷ bs) = decode_scval_base64_to_domain (b ∷ bs)

  unfoldable pub convert_event_info_to_domain : EventInfo → Option DomainEventInfo
  unfolding decode_scval_base64_to_domain
  convert_event_info_to_domain e =
      if ltb e.ledger (2 ^ 63) then none else elim (event_type_of e.event_type) [
        | none ↦ none
        | some event_type ↦ elim (traverse decode_scval_base64_to_domain e.topic_xdr) [
          | none ↦ none
          | some topics ↦ elim (value_of e.value_xdr) [
            | none ↦ none
            | some value ↦ some (record {
              event_type = event_type;
              ledger = e.ledger - 2 ^ 63;
              ledger_closed_at = e.ledger_closed_at;
              contract_id = e.contract_id;
              id = e.id;
              operation_index = e.op_index;
              transaction_index = e.tx_index;
              transaction_hash = e.transaction_hash;
              topics = topics;
              value = value;
            })
          ]
        ]
      ]

  unfoldable pub convert_get_events_response_to_domain :
      EventsResponse EventInfo → Option (EventsResponse DomainEventInfo)
  unfolding convert_event_info_to_domain
  convert_get_events_response_to_domain r = elim (traverse convert_event_info_to_domain r.events) [
    | none ↦ none
    | some events ↦ some (record {
      events = events;
      cursor = r.cursor;
      latest_ledger = r.latest_ledger;
      oldest_ledger = r.oldest_ledger;
      latest_ledger_close_time = r.latest_ledger_close_time;
      oldest_ledger_close_time = r.oldest_ledger_close_time;
    })
  ]

pub data SimulateAuthMode : Type 0 where
  unset enforce record_mode record_allow_nonroot : SimulateAuthMode
  other_mode : Bytes → SimulateAuthMode

unfoldable pub validate_simulate_auth_mode : SimulateAuthMode → Option SimulateAuthMode
validate_simulate_auth_mode unset = some record_mode
validate_simulate_auth_mode enforce = some enforce
validate_simulate_auth_mode record_mode = some record_mode
validate_simulate_auth_mode record_allow_nonroot = some record_allow_nonroot
validate_simulate_auth_mode (other_mode text) = none
