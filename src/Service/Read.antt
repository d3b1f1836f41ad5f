-- ===== src/Service/Read.antt =====
-- relayer/stellar_service.go: `GetEvents`, `GetTransaction` and `GetSigningAccount`.
use chainlink_stellar.Prelude.{ℕ, ◌+◌, ◌%◌, ◌^◌, Option, some, none, List, [], ◌∷◌}
use chainlink_stellar.Prelude.Int64.{Int64}
use chainlink_stellar.Config.{Bytes}
use chainlink_stellar.ScVal.{ScVal}
use chainlink_stellar.ScVal.Address.{Strkey}
use chainlink_stellar.Convert.Events.{
  DomainEventsRequest, EventsRequest, convert_get_events_requests_from_domain,
}
use chainlink_stellar.Convert.Pages.{
  EventsResponse, EventInfo, DomainEventInfo, convert_get_events_response_to_domain,
}

module _ (k : Strkey) (unmarshal : Bytes → Option ScVal) {Cursor : Type 0}
    (parse_cursor : Bytes → Option Cursor) where
  unfoldable pub get_events :
      (EventsRequest Cursor → Option (EventsResponse EventInfo))
      → DomainEventsRequest
      → Option (EventsResponse DomainEventInfo)
  unfolding convert_get_events_requests_from_domain convert_get_events_response_to_domain
  get_events client req = elim (convert_get_events_requests_from_domain k parse_cursor req) [
    | none ↦ none
    | some query ↦ elim (client query) [
      | none ↦ none
      | some page ↦ convert_get_events_response_to_domain unmarshal page
    ]
  ]

-- A transaction of the RPC client.
pub record TransactionInfo : Type 0 where
  pub result_xdr : Bytes
  pub ledger : ℕ
  pub ledger_close_time : Int64

pub data Lookup : Type 0 where
  not_found : Lookup
  found : TransactionInfo → Lookup

pub record GetTransactionResponse : Type 0 where
  pub fee_stroops : ℕ
  pub ledger_sequence : ℕ
  pub ledger_close_time : Int64

-- The fee that a result charges, an int64, as a uint64, and 0 without a result that decodes.
abbrev fee_of : (Bytes → Option Int64) → Bytes → ℕ
fee_of decode [] = 0
fee_of decode (b ∷ bs) = elim (decode (b ∷ bs)) [ none ↦ 0 | some fee ↦ (fee + 2 ^ 63) % 2 ^ 64 ]

abbrev looked_up : (Bytes → Option Int64) → Option Lookup → Option GetTransactionResponse
looked_up decode none = none
looked_up decode (some not_found) = none
looked_up decode (some (found t)) = some (record {
  fee_stroops = fee_of decode t.result_xdr;
  ledger_sequence = t.ledger;
  ledger_close_time = t.ledger_close_time;
})

unfoldable pub get_transaction :
    (Bytes → Option Int64) → (Bytes → Option Lookup) → Bytes → Option GetTransactionResponse
get_transaction decode client [] = none
get_transaction decode client (b ∷ bs) = looked_up decode (client (b ∷ bs))

-- The outer `none` is a service without a keystore.
unfoldable pub get_signing_account : Option (Option (List Bytes)) → Option Bytes
get_signing_account none = none
get_signing_account (some none) = none
get_signing_account (some (some [])) = none
get_signing_account (some (some (a ∷ as'))) = some a
