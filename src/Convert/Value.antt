-- ===== src/Convert/Value.antt =====
-- relayer/type_converters.go: `convertScValFromDomain` and `convertScValToDomain`.
use chainlink_stellar.Prelude.{Option, some, none}
use chainlink_stellar.ScVal.{
  ScVal, scv_bool, scv_void, scv_error, scv_u32, scv_i32, scv_u64, scv_i64, scv_timepoint,
  scv_duration, scv_u128, scv_i128, scv_u256, scv_i256, scv_bytes, scv_string, scv_symbol, scv_vec,
  scv_map, scv_address, scv_contract_instance, scv_ledger_key_contract_instance,
  scv_ledger_key_nonce, other_scv, nil_vec, no_items, items, Items, nil, cons, nil_map, no_entries,
  entries, Entries, end, entry, InstanceArm, nil_instance, bare_instance, instance_with,
}
use chainlink_stellar.ScVal.Address.{Strkey}
use chainlink_stellar.Convert.Domain.{
  DomainVal, bool_value, void_value, error_value, u32_value, i32_value, u64_value, i64_value,
  timepoint_value, duration_value, u128_value, i128_value, u256_value, i256_value, bytes_value,
  string_value, symbol_value, vec_value, map_value, address_value, instance_value,
  ledger_key_instance_value, nonce_key_value, other_value, nil_values, values, nil_pairs, pairs,
  Ref, nil_ref, ref, Refs, no_refs, refs, Pairs, no_pairs, pair,
}
use chainlink_stellar.Convert.Address.{
  convert_address_to_domain, convert_sc_address_to_domain, convert_contract_executable_to_domain,
  convert_sc_error_to_domain,
}

-- The result, if the pointer is not nil.
abbrev arm {ℓ κ} : {A : Type ℓ} {B : Type κ} → (A → B) → Option A → Option B
arm f none = none
arm f (some a) = some (f a)

abbrev both {ℓ κ μ} :
    {A : Type ℓ} {B : Type κ} {C : Type μ} → (A → B → C) → Option A → Option B → Option C
both f none b = none
both f (some a) none = none
both f (some a) (some b) = some (f a b)

abbrev all_three {ℓ κ μ ν} :
    {A : Type ℓ} {B : Type κ} {C : Type μ} {D : Type ν}
    → (A → B → C → D)
    → Option A
    → Option B
    → Option C
    → Option D
all_three f none b c = none
all_three f (some a) none c = none
all_three f (some a) (some b) none = none
all_three f (some a) (some b) (some c) = some (f a b c)

module _ (k : Strkey) where
  unfoldable mutual
    pub convert_scval_from_domain : DomainVal → Option ScVal
    convert_scval_from_domain (bool_value b) = arm (λ x. scv_bool (some x)) b
    convert_scval_from_domain (void_value v) = some scv_void
    convert_scval_from_domain (error_value e) = none
    convert_scval_from_domain (u32_value u) = arm (λ x. scv_u32 (some x)) u
    convert_scval_from_domain (i32_value i) = arm (λ x. scv_i32 (some x)) i
    convert_scval_from_domain (u64_value u) = arm (λ x. scv_u64 (some x)) u
    convert_scval_from_domain (i64_value i) = arm (λ x. scv_i64 (some x)) i
    convert_scval_from_domain (timepoint_value t) = arm (λ x. scv_timepoint (some x)) t
    convert_scval_from_domain (duration_value d) = arm (λ x. scv_duration (some x)) d
    convert_scval_from_domain (u128_value p) = arm (λ x. scv_u128 (some x)) p
    convert_scval_from_domain (i128_value p) = arm (λ x. scv_i128 (some x)) p
    convert_scval_from_domain (u256_value p) = arm (λ x. scv_u256 (some x)) p
    convert_scval_from_domain (i256_value p) = arm (λ x. scv_i256 (some x)) p
    convert_scval_from_domain (bytes_value b) = some (scv_bytes (some b))
    convert_scval_from_domain (string_value s) = arm (λ x. scv_string (some x)) s
    convert_scval_from_domain (symbol_value s) = arm (λ x. scv_symbol (some x)) s
    convert_scval_from_domain (vec_value nil_values) = none
    convert_scval_from_domain (vec_value (values rs)) = arm (λ x. scv_vec (items x)) (from_refs rs)
    convert_scval_from_domain (map_value nil_pairs) = none
    convert_scval_from_domain (map_value (pairs ps)) =
        arm (λ x. scv_map (entries x)) (from_pairs ps)
    convert_scval_from_domain (address_value none) = none
    convert_scval_from_domain (address_value (some a)) =
        arm (λ x. scv_address (some x)) (convert_address_to_domain k a)
    convert_scval_from_domain (instance_value executable storage) = none
    convert_scval_from_domain ledger_key_instance_value = none
    convert_scval_from_domain (nonce_key_value nonce) = none
    convert_scval_from_domain (other_value tag) = none

    pub from_ref : Ref → Option ScVal
    from_ref nil_ref = none
    from_ref (ref v) = convert_scval_from_domain v

    pub from_refs : Refs → Option Items
    from_refs no_refs = some nil
    from_refs (refs r rs) = both cons (from_ref r) (from_refs rs)

    pub from_pairs : Pairs → Option Entries
    from_pairs no_pairs = some end
    from_pairs (pair key val ps) = all_three entry (from_ref key) (from_ref val) (from_pairs ps)

unfoldable mutual
  pub convert_scval_to_domain : ScVal → Option DomainVal
  convert_scval_to_domain (scv_bool b) = arm (λ x. bool_value (some x)) b
  convert_scval_to_domain scv_void = some (void_value (some tt))
  convert_scval_to_domain (scv_error none) = none
  convert_scval_to_domain (scv_error (some e)) = arm error_value (convert_sc_error_to_domain e)
  convert_scval_to_domain (scv_u32 u) = arm (λ x. u32_value (some x)) u
  convert_scval_to_domain (scv_i32 i) = arm (λ x. i32_value (some x)) i
  convert_scval_to_domain (scv_u64 u) = arm (λ x. u64_value (some x)) u
  convert_scval_to_domain (scv_i64 i) = arm (λ x. i64_value (some x)) i
  convert_scval_to_domain (scv_timepoint t) = arm (λ x. timepoint_value (some x)) t
  convert_scval_to_domain (scv_duration d) = arm (λ x. duration_value (some x)) d
  convert_scval_to_domain (scv_u128 p) = arm (λ x. u128_value (some x)) p
  convert_scval_to_domain (scv_i128 p) = arm (λ x. i128_value (some x)) p
  convert_scval_to_domain (scv_u256 p) = arm (λ x. u256_value (some x)) p
  convert_scval_to_domain (scv_i256 p) = arm (λ x. i256_value (some x)) p
  convert_scval_to_domain (scv_bytes b) = arm bytes_value b
  convert_scval_to_domain (scv_string s) = arm (λ x. string_value (some x)) s
  convert_scval_to_domain (scv_symbol s) = arm (λ x. symbol_value (some x)) s
  convert_scval_to_domain (scv_vec nil_vec) = none
  convert_scval_to_domain (scv_vec no_items) = some (vec_value (values no_refs))
  convert_scval_to_domain (scv_vec (items vs)) =
      arm (λ x. vec_value (values x)) (items_to_domain vs)
  convert_scval_to_domain (scv_map nil_map) = none
  convert_scval_to_domain (scv_map no_entries) = some (map_value (pairs no_pairs))
  convert_scval_to_domain (scv_map (entries es)) =
      arm (λ x. map_value (pairs x)) (convert_sc_map_to_domain es)
  convert_scval_to_domain (scv_address none) = none
  convert_scval_to_domain (scv_address (some a)) =
      arm (λ x. address_value (some x)) (convert_sc_address_to_domain a)
  convert_scval_to_domain (scv_contract_instance i) = convert_sc_contract_instance_to_domain i
  convert_scval_to_domain scv_ledger_key_contract_instance = some ledger_key_instance_value
  convert_scval_to_domain (scv_ledger_key_nonce n) = arm nonce_key_value n
  convert_scval_to_domain (other_scv tag) = none

  pub items_to_domain : Items → Option Refs
  items_to_domain nil = some no_refs
  items_to_domain (cons v vs) =
      both (λ x rs. refs (ref x) rs) (convert_scval_to_domain v) (items_to_domain vs)

  pub convert_sc_map_to_domain : Entries → Option Pairs
  convert_sc_map_to_domain end = some no_pairs
  convert_sc_map_to_domain (entry key val es) =
      all_three (λ x y ps. pair (ref x) (ref y) ps) (convert_scval_to_domain key)
        (convert_scval_to_domain val) (convert_sc_map_to_domain es)

  pub convert_sc_contract_instance_to_domain : InstanceArm → Option DomainVal
  convert_sc_contract_instance_to_domain nil_instance = none
  convert_sc_contract_instance_to_domain (bare_instance executable) =
      arm (λ x. instance_value x no_pairs) (convert_contract_executable_to_domain executable)
  convert_sc_contract_instance_to_domain (instance_with executable es) =
      both instance_value (convert_contract_executable_to_domain executable)
        (convert_sc_map_to_domain es)
