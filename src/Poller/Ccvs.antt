-- ===== src/Poller/Ccvs.antt =====
-- ccv/destination_reader/destination_reader.go: `GetCCVSForMessage` and `GetMessageSuccess`. The
-- answers of the OffRamp's bindings are arguments.
use chainlink_stellar.Prelude.{
  ℕ, ◌≡◌, ◌++◌, ap, refl, Bool, Option, some, none, List, [], ◌∷◌, map, nat_eq, All,
}
use chainlink_stellar.Config.{Bytes}
use chainlink_stellar.ScVal.{ScAddress, account, contract}
use chainlink_stellar.ScVal.Address.{Strkey, parse_address}
use chainlink_stellar.Poller.Outcome.{Outcome, returned, failed, panicked}

-- The fields of the OffRamp's `SourceChainConfig` that are read.
pub record SourceChainConfig : Type 0 where
  pub lane_mandated_ccvs : List Bytes
  pub default_ccvs : List Bytes

pub record CcvAddressInfo : Type 0 where
  pub required_ccvs : List Bytes
  pub optional_ccvs : List Bytes
  pub optional_threshold : ℕ

-- The arm of a contract's address, which is dereferenced for any address; a nil pointer panics.
abbrev contract_id : Option ScAddress → Outcome Bytes
contract_id none = failed
contract_id (some (contract (some key))) = returned key
contract_id (some _) = panicked

abbrev cons_outcome : Outcome Bytes → Outcome (List Bytes) → Outcome (List Bytes)
cons_outcome (returned x) (returned xs) = returned (x ∷ xs)
cons_outcome (returned x) failed = failed
cons_outcome (returned x) panicked = panicked
cons_outcome failed xs = failed
cons_outcome panicked xs = panicked

abbrev pub threshold : List Bytes → ℕ
threshold [] = 0
threshold (c ∷ cs) = 1

module _ (k : Strkey) where
  -- One of the two loops over a list of addresses.
  unfoldable pub contract_ids : List Bytes → Outcome (List Bytes)
  unfolding parse_address
  contract_ids [] = returned []
  contract_ids (addr ∷ addrs) =
      cons_outcome (contract_id (parse_address k addr)) (contract_ids addrs)

  -- `none` is an error of the query.
  unfoldable pub get_ccvs_for_message : Option SourceChainConfig → Outcome CcvAddressInfo
  unfolding contract_ids
  get_ccvs_for_message none = failed
  get_ccvs_for_message (some config) = elim (contract_ids config.lane_mandated_ccvs) [
    | failed ↦ failed
    | panicked ↦ panicked
    | returned required ↦ elim (contract_ids config.default_ccvs) [
      | failed ↦ failed
      | panicked ↦ panicked
      | returned optional ↦ returned (record {
        required_ccvs = required;
        optional_ccvs = optional;
        optional_threshold = threshold optional;
      })
    ]
  ]

-- The outer `none` is an error; 2 is `MessageExecutionStateSuccess`.
unfoldable pub get_message_success : Option Bytes → (Bytes → Option ℕ) → Option Bool
get_message_success none state = none
get_message_success (some id) state = elim (state id) [ none ↦ none | some s ↦ some (nat_eq s 2) ]

module _ (k : Strkey) where
  -- The texts of contracts, with their keys.
  abbrev pub IsContract : Bytes × Bytes → Type 0
  IsContract (text, key) = parse_address k text ≡ some (contract (some key))

  contract_ids-map :
      (ts : List (Bytes × Bytes))
      → All IsContract ts
      → contract_ids k (map (λ e. e.0) ts) ≡ returned (map (λ e. e.1) ts)
  unfolding contract_ids
  contract_ids-map [] h = refl
  contract_ids-map ((text, key) ∷ ts) (h, hs) =
      rw h (ap (λ o. cons_outcome (returned key) o) (contract_ids-map ts hs))

  -- When every address of the configuration is a contract's, the mandated ones are required, the
  -- default ones are optional, as their keys in order, and one of them suffices if there is any.
  pub get_ccvs_for_message_lem :
      (mandated defaults : List (Bytes × Bytes))
      → All IsContract mandated
      → All IsContract defaults
      → get_ccvs_for_message k (
          some (record {
            lane_mandated_ccvs = map (λ e. e.0) mandated;
            default_ccvs = map (λ e. e.0) defaults;
          }))
        ≡ returned (record {
          required_ccvs = map (λ e. e.1) mandated;
          optional_ccvs = map (λ e. e.1) defaults;
          optional_threshold = threshold (map (λ e. e.1) defaults);
        })
  unfolding get_ccvs_for_message
  get_ccvs_for_message_lem mandated defaults h i =
      rw (contract_ids-map mandated h, get_ccvs_for_message)
        (rw (contract_ids-map defaults i, get_ccvs_for_message) refl)

  contract_ids_panics :
      (ts : List (Bytes × Bytes)) (text : Bytes) (key : Option (Option Bytes)) (rest : List Bytes)
      → All IsContract ts
      → parse_address k text ≡ some (account key)
      → contract_ids k (map (λ e. e.0) ts ++ text ∷ rest) ≡ panicked
  unfolding contract_ids
  contract_ids_panics [] text key rest h e = rw e refl
  contract_ids_panics ((t, x) ∷ ts) text key rest (h, hs) e =
      rw h (ap (λ o. cons_outcome (returned x) o) (contract_ids_panics ts text key rest hs e))

  -- An account's address in a configuration, after the addresses of contracts, panics.
  pub get_ccvs_for_message_panics :
      (mandated defaults : List (Bytes × Bytes)) (text : Bytes) (key : Option (Option Bytes))
      (rest : List Bytes)
      → All IsContract mandated
      → All IsContract defaults
      → parse_address k text ≡ some (account key)
      → get_ccvs_for_message k (
          some (record {
            lane_mandated_ccvs = map (λ e. e.0) mandated;
            default_ccvs = map (λ e. e.0) defaults ++ text ∷ rest;
          }))
        ≡ panicked
  unfolding get_ccvs_for_message
  get_ccvs_for_message_panics mandated defaults text key rest h i e =
      rw (contract_ids-map mandated h, get_ccvs_for_message)
        (rw (contract_ids_panics defaults text key rest i e, get_ccvs_for_message) refl)
