-- ===== src/Convert/RoundTrip.antt =====
-- relayer/type_converters.go: what a domain value that converts to a Soroban value converts back to.
use chainlink_stellar.Prelude.{
  nat_eq_iff, ◌≡◌, some, none, arith, Option-cases, inl, inr, nat_eq, length, Bool-cases,
}
use chainlink_stellar.ScVal.{ScVal, Items, Entries, ScAddress}
use chainlink_stellar.ScVal.Address.{Strkey, IsStrkey}
use chainlink_stellar.ScVal.RoundTrip.{build_contract_sc_address_lem}
use chainlink_stellar.Convert.Domain.{
  DomainVal, bool_value, void_value, error_value, u32_value, i32_value, u64_value, i64_value,
  timepoint_value, duration_value, u128_value, i128_value, u256_value, i256_value, bytes_value,
  string_value, symbol_value, vec_value, map_value, address_value, instance_value,
  ledger_key_instance_value, nonce_key_value, other_value, nil_values, values, nil_pairs, pairs,
  Ref, nil_ref, ref, Refs, no_refs, refs, Pairs, no_pairs, pair, DomainAddress, account_id,
  contract_id, muxed_id, claimable_balance_id, liquidity_pool_id, other_id,
}
use chainlink_stellar.Convert.Address.{
  convert_address_to_domain, convert_sc_address_to_domain, account_address,
}
use chainlink_stellar.Convert.Value.{
  convert_scval_from_domain, from_refs, from_pairs, convert_scval_to_domain, items_to_domain,
  convert_sc_map_to_domain,
}

-- The value with the pointer of every `Void` in it set.
unfoldable mutual
  pub with_voids : DomainVal → DomainVal
  with_voids (void_value v) = void_value (some tt)
  with_voids (vec_value (values rs)) = vec_value (values (refs_with_voids rs))
  with_voids (map_value (pairs ps)) = map_value (pairs (pairs_with_voids ps))
  with_voids v = v

  refs_with_voids : Refs → Refs
  refs_with_voids no_refs = no_refs
  refs_with_voids (refs r rs) = refs (ref_with_voids r) (refs_with_voids rs)

  pairs_with_voids : Pairs → Pairs
  pairs_with_voids no_pairs = no_pairs
  pairs_with_voids (pair key val ps) =
      pair (ref_with_voids key) (ref_with_voids val) (pairs_with_voids ps)

  ref_with_voids : Ref → Ref
  ref_with_voids nil_ref = nil_ref
  ref_with_voids (ref v) = ref (with_voids v)

module _ (k : Strkey) (s : IsStrkey k) where
  address_back :
      (a : DomainAddress) (x : ScAddress)
      → convert_address_to_domain k a ≡ some x
      → convert_sc_address_to_domain x ≡ some a
  unfolding convert_address_to_domain convert_sc_address_to_domain account_address
  address_back (account_id key) x e = elim (Bool-cases (nat_eq (length key) 32)) [
    | inl h ↦
        let (t, p, d, i) = s.account_text key ((nat_eq_iff (length key) 32).0 h) in
        ground (arith, p, i)
    | inr h ↦ absurd (ground arith)
  ]
  address_back (contract_id key) x e = elim (Bool-cases (nat_eq (length key) 32)) [
    | inl h ↦
        ground (arith, build_contract_sc_address_lem k s key ((nat_eq_iff (length key) 32).0 h))
    | inr h ↦ absurd (ground arith)
  ]
  address_back (muxed_id id key) x e = cc
  address_back (claimable_balance_id v0) x e = cc
  address_back (liquidity_pool_id key) x e = cc
  address_back (other_id tag) x e = cc

  mutual
    unfolding convert_scval_from_domain convert_scval_to_domain with_voids

    value_back :
        (v : DomainVal) (x : ScVal)
        → convert_scval_from_domain k v ≡ some x
        → convert_scval_to_domain x ≡ some (with_voids v)
    value_back (bool_value none) x e = cc
    value_back (bool_value (some b)) x e = ground arith
    value_back (u32_value none) x e = cc
    value_back (u32_value (some b)) x e = ground arith
    value_back (i32_value none) x e = cc
    value_back (i32_value (some b)) x e = ground arith
    value_back (u64_value none) x e = cc
    value_back (u64_value (some b)) x e = ground arith
    value_back (i64_value none) x e = cc
    value_back (i64_value (some b)) x e = ground arith
    value_back (timepoint_value none) x e = cc
    value_back (timepoint_value (some b)) x e = ground arith
    value_back (duration_value none) x e = cc
    value_back (duration_value (some b)) x e = ground arith
    value_back (u128_value none) x e = cc
    value_back (u128_value (some b)) x e = ground arith
    value_back (i128_value none) x e = cc
    value_back (i128_value (some b)) x e = ground arith
    value_back (u256_value none) x e = cc
    value_back (u256_value (some b)) x e = ground arith
    value_back (i256_value none) x e = cc
    value_back (i256_value (some b)) x e = ground arith
    value_back (string_value none) x e = cc
    value_back (string_value (some b)) x e = ground arith
    value_back (symbol_value none) x e = cc
    value_back (symbol_value (some b)) x e = ground arith
    value_back (void_value b) x e = ground arith
    value_back (error_value b) x e = cc
    value_back (bytes_value b) x e = ground arith
    value_back (vec_value nil_values) x e = cc
    value_back (vec_value (values rs)) x e = elim (Option-cases (from_refs k rs)) [
      | inl q ↦ absurd (ground arith)
      | inr (xs, q) ↦ ground (arith, refs_back rs xs q)
    ]
    value_back (map_value nil_pairs) x e = cc
    value_back (map_value (pairs ps)) x e = elim (Option-cases (from_pairs k ps)) [
      | inl q ↦ absurd (ground arith)
      | inr (xs, q) ↦ ground (arith, pairs_back ps xs q)
    ]
    value_back (address_value none) x e = cc
    value_back (address_value (some a)) x e = elim (Option-cases (convert_address_to_domain k a)) [
      | inl q ↦ absurd (ground arith)
      | inr (xs, q) ↦ ground (arith, address_back a xs q)
    ]
    value_back (instance_value b c) x e = cc
    value_back ledger_key_instance_value x e = cc
    value_back (nonce_key_value b) x e = cc
    value_back (other_value b) x e = cc

    refs_back :
        (rs : Refs) (xs : Items)
        → from_refs k rs ≡ some xs
        → items_to_domain xs ≡ some (refs_with_voids rs)
    refs_back no_refs xs e = ground arith
    refs_back (refs nil_ref rs) xs e = cc
    refs_back (refs (ref v) rs) xs e = elim (Option-cases (convert_scval_from_domain k v)) [
      | inl q ↦ absurd (ground arith)
      | inr (x, q) ↦ elim (Option-cases (from_refs k rs)) [
        | inl q2 ↦ absurd (ground arith)
        | inr (ys, q2) ↦ ground (arith, value_back v x q, refs_back rs ys q2)
      ]
    ]

    pairs_back :
        (ps : Pairs) (xs : Entries)
        → from_pairs k ps ≡ some xs
        → convert_sc_map_to_domain xs ≡ some (pairs_with_voids ps)
    pairs_back no_pairs xs e = ground arith
    pairs_back (pair nil_ref val ps) xs e = cc
    pairs_back (pair (ref key) nil_ref ps) xs e =
        elim (Option-cases (convert_scval_from_domain k key)) [
          | inl q ↦ absurd (ground arith)
          | inr (x, q) ↦ absurd (ground arith)
        ]
    pairs_back (pair (ref key) (ref val) ps) xs e =
        elim (Option-cases (convert_scval_from_domain k key)) [
          | inl q ↦ absurd (ground arith)
          | inr (x, q) ↦ elim (Option-cases (convert_scval_from_domain k val)) [
            | inl q2 ↦ absurd (ground arith)
            | inr (y, q2) ↦ elim (Option-cases (from_pairs k ps)) [
              | inl q3 ↦ absurd (ground arith)
              | inr (ys, q3) ↦
                  ground (arith, value_back key x q, value_back val y q2, pairs_back ps ys q3)
            ]
          ]
        ]

  -- A domain value that converts to a Soroban value is what that value converts back to, with the
  -- pointer of every `Void` in it set, however deep it stands, whether or not it was.
  pub convert_scval_to_domain-convert_scval_from_domain :
      (v : DomainVal) (x : ScVal)
      → convert_scval_from_domain k v ≡ some x
      → convert_scval_to_domain x ≡ some (with_voids v)
  convert_scval_to_domain-convert_scval_from_domain = value_back
