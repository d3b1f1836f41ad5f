-- ===== src/Convert/Tests.antt =====
-- Witnesses of relayer/type_converters.go.
use chainlink_stellar.Prelude.{◌≡◌, ◌↔◌, refl, some, none, [], ◌∷◌, All}
use chainlink_stellar.ScVal.{
  ScVal, scv_u32, scv_vec, scv_void, scv_address, items, nil, cons, contract, account,
}
use chainlink_stellar.ScVal.Tests.{plain_strkey, plain_strkey-IsStrkey, key_32}
use chainlink_stellar.Convert.Domain.{
  void_value, DomainVal, u32_value, vec_value, address_value, values, refs, no_refs, ref,
  contract_id, account_id,
}
use chainlink_stellar.Convert.Address.{convert_address_to_domain, account_address}
use chainlink_stellar.ScVal.Address.{build_contract_sc_address}
use chainlink_stellar.Convert.Value.{convert_scval_from_domain, convert_scval_to_domain}
use chainlink_stellar.Convert.RoundTrip.{
  with_voids, convert_scval_to_domain-convert_scval_from_domain,
}
use chainlink_stellar.Convert.Arguments.{IsArgument, convert_scval_from_domain_iff}
use chainlink_stellar.Convert.Events.{
  DomainEventFilter, EventFilter, system_type, zero_or_more, convert_event_filter_from_domain,
}
use chainlink_stellar.Convert.Queries.{IsEventType, IsTopic, convert_event_filter_from_domain_iff}

-- A vector of a number, of two addresses and of a `Void` without a pointer.
abbrev nested : DomainVal
nested = vec_value (
    values (
      refs (ref (u32_value (some 7))) (
        refs (ref (address_value (some (contract_id key_32)))) (
          refs (ref (address_value (some (account_id key_32))))
            (refs (ref (void_value none)) no_refs)))))

abbrev nested_scval : ScVal
nested_scval = scv_vec (
    items (
      cons (scv_u32 (some 7)) (
        cons (scv_address (some (contract (some key_32))))
          (cons (scv_address (some (account (some (some key_32))))) (cons scv_void nil)))))

convert_scval_to_domain-convert_scval_from_domain_example :
    convert_scval_to_domain nested_scval ≡ some (with_voids nested)
unfolding convert_scval_from_domain convert_address_to_domain account_address
    build_contract_sc_address
convert_scval_to_domain-convert_scval_from_domain_example =
    convert_scval_to_domain-convert_scval_from_domain plain_strkey plain_strkey-IsStrkey nested
      nested_scval refl

convert_scval_from_domain_iff_example :
    ((x : ScVal) × (convert_scval_from_domain plain_strkey nested ≡ some x)) ↔ IsArgument nested
convert_scval_from_domain_iff_example =
    convert_scval_from_domain_iff plain_strkey plain_strkey-IsStrkey nested

abbrev sample_filter : DomainEventFilter
sample_filter = record {
  event_types = system_type ∷ [];
  contract_ids = [];
  topics =
      (record { wildcard = none; value = some nested }
        ∷ record { wildcard = some zero_or_more; value = none }
        ∷ [])
      ∷ [];
}

convert_event_filter_from_domain_iff_example :
    ((x : EventFilter) × (convert_event_filter_from_domain plain_strkey sample_filter ≡ some x))
    ↔ (All IsEventType sample_filter.event_types × All IsTopic sample_filter.topics)
convert_event_filter_from_domain_iff_example =
    convert_event_filter_from_domain_iff plain_strkey plain_strkey-IsStrkey sample_filter
