-- ===== src/Convert/Arguments.antt =====
-- relayer/type_converters.go: the domain values that can be arguments of a contract.
use chainlink_stellar.Prelude.{
  ◌≡◌, ◌↔◌, refl, ℕ, Bool, List, Option, some, none, arith, Option-cases, inl, inr, nat_eq,
  nat_eq_iff, length, Bool-cases,
}
use chainlink_stellar.Config.{Bytes}
use chainlink_stellar.ScVal.{
  ScVal, scv_bool, scv_void, scv_u32, scv_i32, scv_u64, scv_i64, scv_timepoint, scv_duration,
  scv_u128, scv_i128, scv_u256, scv_i256, scv_bytes, scv_string, scv_symbol, scv_vec, scv_map,
  scv_address, items, Items, nil, cons, entries, Entries, end, entry, UInt128Parts, Int128Parts,
  UInt256Parts, Int256Parts, ScAddress, account, contract,
}
use chainlink_stellar.ScVal.Address.{Strkey, IsStrkey}
use chainlink_stellar.ScVal.RoundTrip.{build_contract_sc_address_lem}
use chainlink_stellar.Convert.Domain.{
  DomainVal, bool_value, void_value, error_value, u32_value, i32_value, u64_value, i64_value,
  timepoint_value, duration_value, u128_value, i128_value, u256_value, i256_value, bytes_value,
  string_value, symbol_value, vec_value, map_value, address_value, instance_value,
  ledger_key_instance_value, nonce_key_value, other_value, nil_values, values, nil_pairs, pairs,
  nil_ref, ref, Refs, no_refs, refs, Pairs, no_pairs, pair, DomainAddress, account_id, contract_id,
  muxed_id, claimable_balance_id, liquidity_pool_id, other_id,
}
use chainlink_stellar.Convert.Address.{convert_address_to_domain, account_address}
use chainlink_stellar.Convert.Value.{convert_scval_from_domain, from_refs, from_pairs}

-- An account or a contract with a key of 32 bytes.
pub data IsKey : DomainAddress → Type 0 where
  account_key : {key : List ℕ} → length key ≡ 32 → IsKey (account_id key)
  contract_key : {key : List ℕ} → length key ≡ 32 → IsKey (contract_id key)

-- A value of a type that an argument can have, with no nil pointer in it but that of a `Void`, which
-- is not looked at.
mutual
  pub data IsArgument : DomainVal → Type 0 where
    is_bool : {x : Bool} → IsArgument (bool_value (some x))
    is_void : {x : Option (Unit {0})} → IsArgument (void_value x)
    is_u32 : {x : ℕ} → IsArgument (u32_value (some x))
    is_i32 : {x : ℕ} → IsArgument (i32_value (some x))
    is_u64 : {x : ℕ} → IsArgument (u64_value (some x))
    is_i64 : {x : ℕ} → IsArgument (i64_value (some x))
    is_timepoint : {x : ℕ} → IsArgument (timepoint_value (some x))
    is_duration : {x : ℕ} → IsArgument (duration_value (some x))
    is_u128 : {x : UInt128Parts} → IsArgument (u128_value (some x))
    is_i128 : {x : Int128Parts} → IsArgument (i128_value (some x))
    is_u256 : {x : UInt256Parts} → IsArgument (u256_value (some x))
    is_i256 : {x : Int256Parts} → IsArgument (i256_value (some x))
    is_string : {x : Bytes} → IsArgument (string_value (some x))
    is_symbol : {x : Bytes} → IsArgument (symbol_value (some x))
    is_bytes : {x : Bytes} → IsArgument (bytes_value x)
    is_vec : {rs : Refs} → AreArguments rs → IsArgument (vec_value (values rs))
    is_map : {ps : Pairs} → AreEntries ps → IsArgument (map_value (pairs ps))
    is_address : {a : DomainAddress} → IsKey a → IsArgument (address_value (some a))

  pub data AreArguments : Refs → Type 0 where
    no_arguments : AreArguments no_refs
    arguments :
        {v : DomainVal} {rs : Refs}
        → IsArgument v
        → AreArguments rs
        → AreArguments (refs (ref v) rs)

  pub data AreEntries : Pairs → Type 0 where
    no_entry : AreEntries no_pairs
    an_entry :
        {key val : DomainVal} {ps : Pairs}
        → IsArgument key
        → IsArgument val
        → AreEntries ps
        → AreEntries (pair (ref key) (ref val) ps)

module _ (k : Strkey) (s : IsStrkey k) where
  key_converts :
      {a : DomainAddress} → IsKey a → (x : ScAddress) × (convert_address_to_domain k a ≡ some x)
  unfolding convert_address_to_domain account_address
  key_converts (account_key {key} h) =
      let (t, p, d, i) = s.account_text key h in
      (account (some (some key)), ground (arith, p, i, h))
  key_converts (contract_key {key} h) =
      (contract (some key), ground (arith, build_contract_sc_address_lem k s key h))

  mutual
    unfolding convert_scval_from_domain

    argument_converts :
        {v : DomainVal} → IsArgument v → (x : ScVal) × (convert_scval_from_domain k v ≡ some x)
    argument_converts is_void = (scv_void, refl)
    argument_converts (is_bytes {x}) = (scv_bytes (some x), refl)
    argument_converts (is_bool {x}) = (scv_bool (some x), refl)
    argument_converts (is_u32 {x}) = (scv_u32 (some x), refl)
    argument_converts (is_i32 {x}) = (scv_i32 (some x), refl)
    argument_converts (is_u64 {x}) = (scv_u64 (some x), refl)
    argument_converts (is_i64 {x}) = (scv_i64 (some x), refl)
    argument_converts (is_timepoint {x}) = (scv_timepoint (some x), refl)
    argument_converts (is_duration {x}) = (scv_duration (some x), refl)
    argument_converts (is_u128 {x}) = (scv_u128 (some x), refl)
    argument_converts (is_i128 {x}) = (scv_i128 (some x), refl)
    argument_converts (is_u256 {x}) = (scv_u256 (some x), refl)
    argument_converts (is_i256 {x}) = (scv_i256 (some x), refl)
    argument_converts (is_string {x}) = (scv_string (some x), refl)
    argument_converts (is_symbol {x}) = (scv_symbol (some x), refl)
    argument_converts (is_vec {rs} h) =
        let (xs, e) = arguments_convert h in (scv_vec (items xs), rw e refl)
    argument_converts (is_map {ps} h) =
        let (xs, e) = entries_convert h in (scv_map (entries xs), rw e refl)
    argument_converts (is_address {a} h) =
        let (x, e) = key_converts h in (scv_address (some x), rw e refl)

    arguments_convert : {rs : Refs} → AreArguments rs → (xs : Items) × (from_refs k rs ≡ some xs)
    arguments_convert no_arguments = (nil, refl)
    arguments_convert (arguments h hs) =
        let (x, e) = argument_converts h in
        let (xs, es) = arguments_convert hs in (cons x xs, rw (e, es) refl)

    entries_convert : {ps : Pairs} → AreEntries ps → (xs : Entries) × (from_pairs k ps ≡ some xs)
    entries_convert no_entry = (end, refl)
    entries_convert (an_entry h h2 hs) =
        let (x, e) = argument_converts h in
        let (y, e2) = argument_converts h2 in
        let (xs, es) = entries_convert hs in (entry x y xs, rw (e, e2, es) refl)

  converts-IsKey :
      (a : DomainAddress) (x : ScAddress) → convert_address_to_domain k a ≡ some x → IsKey a
  unfolding convert_address_to_domain account_address
  converts-IsKey (account_id key) x e = elim (Bool-cases (nat_eq (length key) 32)) [
    | inl h ↦ account_key ((nat_eq_iff (length key) 32).0 h)
    | inr h ↦ absurd (ground arith)
  ]
  converts-IsKey (contract_id key) x e = elim (Bool-cases (nat_eq (length key) 32)) [
    | inl h ↦ contract_key ((nat_eq_iff (length key) 32).0 h)
    | inr h ↦ absurd (ground arith)
  ]
  converts-IsKey (muxed_id id key) x e = absurd cc
  converts-IsKey (claimable_balance_id v0) x e = absurd cc
  converts-IsKey (liquidity_pool_id key) x e = absurd cc
  converts-IsKey (other_id tag) x e = absurd cc

  mutual
    unfolding convert_scval_from_domain

    converts-IsArgument :
        (v : DomainVal) (x : ScVal) → convert_scval_from_domain k v ≡ some x → IsArgument v
    converts-IsArgument (bool_value none) x e = absurd cc
    converts-IsArgument (bool_value (some b)) x e = is_bool
    converts-IsArgument (u32_value none) x e = absurd cc
    converts-IsArgument (u32_value (some b)) x e = is_u32
    converts-IsArgument (i32_value none) x e = absurd cc
    converts-IsArgument (i32_value (some b)) x e = is_i32
    converts-IsArgument (u64_value none) x e = absurd cc
    converts-IsArgument (u64_value (some b)) x e = is_u64
    converts-IsArgument (i64_value none) x e = absurd cc
    converts-IsArgument (i64_value (some b)) x e = is_i64
    converts-IsArgument (timepoint_value none) x e = absurd cc
    converts-IsArgument (timepoint_value (some b)) x e = is_timepoint
    converts-IsArgument (duration_value none) x e = absurd cc
    converts-IsArgument (duration_value (some b)) x e = is_duration
    converts-IsArgument (u128_value none) x e = absurd cc
    converts-IsArgument (u128_value (some b)) x e = is_u128
    converts-IsArgument (i128_value none) x e = absurd cc
    converts-IsArgument (i128_value (some b)) x e = is_i128
    converts-IsArgument (u256_value none) x e = absurd cc
    converts-IsArgument (u256_value (some b)) x e = is_u256
    converts-IsArgument (i256_value none) x e = absurd cc
    converts-IsArgument (i256_value (some b)) x e = is_i256
    converts-IsArgument (string_value none) x e = absurd cc
    converts-IsArgument (string_value (some b)) x e = is_string
    converts-IsArgument (symbol_value none) x e = absurd cc
    converts-IsArgument (symbol_value (some b)) x e = is_symbol
    converts-IsArgument (void_value b) x e = is_void
    converts-IsArgument (error_value b) x e = absurd cc
    converts-IsArgument (bytes_value b) x e = is_bytes
    converts-IsArgument (vec_value nil_values) x e = absurd cc
    converts-IsArgument (vec_value (values rs)) x e = elim (Option-cases (from_refs k rs)) [
      | inl q ↦ absurd (ground arith)
      | inr (xs, q) ↦ is_vec (converts_arguments rs xs q)
    ]
    converts-IsArgument (map_value nil_pairs) x e = absurd cc
    converts-IsArgument (map_value (pairs ps)) x e = elim (Option-cases (from_pairs k ps)) [
      | inl q ↦ absurd (ground arith)
      | inr (xs, q) ↦ is_map (converts_entries ps xs q)
    ]
    converts-IsArgument (address_value none) x e = absurd cc
    converts-IsArgument (address_value (some a)) x e =
        elim (Option-cases (convert_address_to_domain k a)) [
          | inl q ↦ absurd (ground arith)
          | inr (xs, q) ↦ is_address (converts-IsKey a xs q)
        ]
    converts-IsArgument (instance_value b c) x e = absurd cc
    converts-IsArgument ledger_key_instance_value x e = absurd cc
    converts-IsArgument (nonce_key_value b) x e = absurd cc
    converts-IsArgument (other_value b) x e = absurd cc

    converts_arguments : (rs : Refs) (xs : Items) → from_refs k rs ≡ some xs → AreArguments rs
    converts_arguments no_refs xs e = no_arguments
    converts_arguments (refs nil_ref rs) xs e = absurd cc
    converts_arguments (refs (ref v) rs) xs e =
        elim (Option-cases (convert_scval_from_domain k v)) [
          | inl q ↦ absurd (ground arith)
          | inr (x, q) ↦ elim (Option-cases (from_refs k rs)) [
            | inl q2 ↦ absurd (ground arith)
            | inr (ys, q2) ↦ arguments (converts-IsArgument v x q) (converts_arguments rs ys q2)
          ]
        ]

    converts_entries : (ps : Pairs) (xs : Entries) → from_pairs k ps ≡ some xs → AreEntries ps
    converts_entries no_pairs xs e = no_entry
    converts_entries (pair nil_ref val ps) xs e = absurd cc
    converts_entries (pair (ref key) nil_ref ps) xs e =
        elim (Option-cases (convert_scval_from_domain k key)) [
          | inl q ↦ absurd (ground arith)
          | inr (x, q) ↦ absurd (ground arith)
        ]
    converts_entries (pair (ref key) (ref val) ps) xs e =
        elim (Option-cases (convert_scval_from_domain k key)) [
          | inl q ↦ absurd (ground arith)
          | inr (x, q) ↦ elim (Option-cases (convert_scval_from_domain k val)) [
            | inl q2 ↦ absurd (ground arith)
            | inr (y, q2) ↦ elim (Option-cases (from_pairs k ps)) [
              | inl q3 ↦ absurd (ground arith)
              | inr (ys, q3) ↦
                  an_entry (converts-IsArgument key x q) (converts-IsArgument val y q2)
                    (converts_entries ps ys q3)
            ]
          ]
        ]

  -- A value converts to a Soroban value exactly when it is an argument: of a type that an argument
  -- can have, with no nil pointer in it, save that of a `Void`, and with addresses of 32 bytes.
  pub convert_scval_from_domain_iff :
      (v : DomainVal) → ((x : ScVal) × (convert_scval_from_domain k v ≡ some x)) ↔ IsArgument v
  convert_scval_from_domain_iff v = ((λ (x, e). converts-IsArgument v x e), argument_converts)
