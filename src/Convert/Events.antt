-- ===== src/Convert/Events.antt =====
-- relayer/type_converters.go: event queries, and the arguments of a call. Parsing a cursor
-- (`protocol.ParseCursor`) is a parameter.
use chainlink_stellar.Prelude.{
  ℕ, Bool, true, false, Option, some, none, List, [], ◌∷◌, ltb, nat_eq, ◌&&◌, not, ◌==◌,
  if◌then◌else◌,
}
use chainlink_stellar.Config.{Bytes, bytes, Bytes_equality}
use chainlink_stellar.ScVal.{ScVal}
use chainlink_stellar.ScVal.Address.{Strkey}
use chainlink_stellar.Convert.Domain.{DomainVal}
use chainlink_stellar.Convert.Value.{convert_scval_from_domain}

-- A loop that fills a slice and returns at the first error.
abbrev pub traverse {ℓ κ} : {A : Type ℓ} {B : Type κ} → (A → Option B) → List A → Option (List B)
traverse f [] = some []
traverse f (x ∷ xs) = elim (f x) [
  | none ↦ none
  | some y ↦ elim (traverse f xs) [ none ↦ none | some ys ↦ some (y ∷ ys) ]
]

-- A type of event in a domain query, and in a query of the RPC client.
pub data EventType : Type 0 where
  system_type contract_type : EventType
  other_type : ℕ → EventType

pub data EventName : Type 0 where
  system_name contract_name : EventName
  other_name : Bytes → EventName

-- The keys of `protocol.EventTypeSet`: only these two are ever put in one.
pub record EventTypeSet : Type 0 where
  pub system : Bool
  pub contract : Bool

pub record DomainSegment : Type 0 where
  pub wildcard : Option Bytes
  pub value : Option DomainVal

pub record SegmentFilter : Type 0 where
  pub wildcard : Option Bytes
  pub scval : Option ScVal

pub record DomainEventFilter : Type 0 where
  pub event_types : List EventType
  pub contract_ids : List Bytes
  pub topics : List (List DomainSegment)

pub record EventFilter : Type 0 where
  pub event_types : EventTypeSet
  pub contract_ids : List Bytes
  pub topics : List (List SegmentFilter)

pub record DomainEventsRequest : Type 0 where
  pub start_ledger : ℕ
  pub end_ledger : ℕ
  pub filters : List DomainEventFilter
  -- A limit and a cursor.
  pub pagination : Option (ℕ × Bytes)

pub data Format : Type 0 where
  default_format base64 : Format

pub record EventsRequest (Cursor : Type 0) : Type 0 where
  pub start_ledger : ℕ
  pub end_ledger : ℕ
  pub filters : List EventFilter
  pub format : Format
  pub pagination : Option (ℕ × Option Cursor)

abbrev pub no_types : EventTypeSet
no_types = record { system = false; contract = false }

-- The loop that puts the types into the set.
unfoldable pub add_types : EventTypeSet → List EventType → Option EventTypeSet
add_types set [] = some set
add_types set (system_type ∷ ts) = add_types (record { system = true; contract = set.contract }) ts
add_types set (contract_type ∷ ts) = add_types (record { system = set.system; contract = true }) ts
add_types set (other_type tag ∷ ts) = none

abbrev pub exact_one : Bytes
exact_one = bytes "*"

abbrev pub zero_or_more : Bytes
zero_or_more = bytes "**"

module _ (k : Strkey) where
  -- One case of the switch over a segment.
  unfoldable pub convert_segment : DomainSegment → Option SegmentFilter
  convert_segment s = elim s.wildcard [
    | none ↦ elim s.value [
      | none ↦ none
      | some v ↦ elim (convert_scval_from_domain k v) [
        | none ↦ none
        | some x ↦ some (record { wildcard = none; scval = some x })
      ]
    ]
    | some w ↦ elim s.value [
      | none ↦
          if not (w == exact_one) && not (w == zero_or_more)
          then none
          else some (record { wildcard = some w; scval = none })
      | some v ↦ none
    ]
  ]

  unfoldable pub convert_topic_filter_from_domain : List DomainSegment → Option (List SegmentFilter)
  unfolding convert_segment
  convert_topic_filter_from_domain [] = none
  convert_topic_filter_from_domain (s ∷ ss) = traverse convert_segment (s ∷ ss)

  unfoldable pub convert_event_filter_from_domain : DomainEventFilter → Option EventFilter
  unfolding add_types convert_topic_filter_from_domain
  convert_event_filter_from_domain f = elim (add_types no_types f.event_types) [
    | none ↦ none
    | some types ↦ elim (traverse convert_topic_filter_from_domain f.topics) [
      | none ↦ none
      | some topics ↦
          some (record { event_types = types; contract_ids = f.contract_ids; topics = topics })
    ]
  ]

  unfoldable pub convert_pagination :
      {Cursor : Type 0}
      → (Bytes → Option Cursor)
      → Option (ℕ × Bytes)
      → Option (Option (ℕ × Option Cursor))
  convert_pagination parse_cursor none = some none
  convert_pagination parse_cursor (some (limit, [])) = some (some (limit, none))
  convert_pagination parse_cursor (some (limit, b ∷ bs)) = elim (parse_cursor (b ∷ bs)) [
    | none ↦ none
    | some cursor ↦ some (some (limit, some cursor))
  ]

  unfoldable pub convert_get_events_requests_from_domain :
      {Cursor : Type 0}
      → (Bytes → Option Cursor)
      → DomainEventsRequest
      → Option (EventsRequest Cursor)
  unfolding convert_event_filter_from_domain convert_pagination
  convert_get_events_requests_from_domain parse_cursor req =
      if not (nat_eq req.start_ledger 0)
        && not (nat_eq req.end_ledger 0)
        && ltb req.end_ledger req.start_ledger
      then none
      else elim (traverse convert_event_filter_from_domain req.filters) [
        | none ↦ none
        | some filters ↦ elim (convert_pagination parse_cursor req.pagination) [
          | none ↦ none
          | some pagination ↦ some (record {
            start_ledger = req.start_ledger;
            end_ledger = req.end_ledger;
            filters = filters;
            format = base64;
            pagination = pagination;
          })
        ]
      ]

  -- `convertScValsToDomain`, which converts from the domain type.
  unfoldable pub convert_scvals_to_domain : List DomainVal → Option (List ScVal)
  convert_scvals_to_domain vals = traverse (convert_scval_from_domain k) vals
