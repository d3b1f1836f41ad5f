-- ===== src/SourceReader/Headers.antt =====
-- ccv/source_reader/source_reader.go: the headers of ledgers. Reading the previous ledger's hash out
-- of the base64 XDR of a header or of a ledger's metadata, `hex.DecodeString` and the RPC client are
-- parameters.
use chainlink_stellar.Prelude.{
  ℕ_equality, ℕ, ◌%◌, Option, some, none, List, [], ◌∷◌, ◌++◌, ltb, nat_eq, length, not,
  if◌then◌else◌,
}
use chainlink_stellar.Prelude.Int64.{Int64}
use chainlink_stellar.Prelude.Map.{Map, put}
use chainlink_stellar.Config.{Bytes, bytes, is_prefix}
use chainlink_stellar.ScVal.Address.{fit}

pub record BlockHeader : Type 0 where
  pub number : ℕ
  pub hash : Bytes
  pub parent_hash : Bytes
  pub timestamp : Int64

-- A ledger of the RPC client; `header` is its header, or its metadata.
pub record LedgerInfo : Type 0 where
  pub hash : Bytes
  pub header : Bytes
  pub sequence : ℕ
  pub ledger_close_time : Int64

abbrev drop_two : Bytes → Bytes
drop_two [] = []
drop_two (a ∷ []) = []
drop_two (a ∷ b ∷ bs) = bs

-- `strings.TrimPrefix` of a prefix of two bytes.
abbrev trim_prefix : Bytes → Bytes → Bytes
trim_prefix prefix text = if is_prefix prefix text then drop_two text else text

module _ (decode_hex : Bytes → Option Bytes) where
  -- The text after its prefix, of even length.
  unfoldable pub hex_digits : Bytes → Bytes
  unfolding is_prefix
  hex_digits text =
      let prefixed =
        if is_prefix (bytes "0x") text then text else bytes "0x" ++ trim_prefix (bytes "0X") text in
      let h = trim_prefix (bytes "0x") prefixed in
      if nat_eq (length h % 2) 1 then bytes "0" ++ h else h

  unfoldable pub to_bytes32 : Bytes → Option Bytes
  unfolding hex_digits
  to_bytes32 text =
      let h = hex_digits text in
      if ltb 64 (length h)
      then none
      else elim (decode_hex h) [ none ↦ none | some decoded ↦ some (fit 32 decoded) ]

  -- `buildBlockHeader`, and `buildBlockHeaderFromMeta` with the reader of metadata.
  unfoldable pub build_block_header : (Bytes → Option Bytes) → LedgerInfo → Option BlockHeader
  unfolding to_bytes32
  build_block_header previous_hash l = elim (previous_hash l.header) [
    | none ↦ none
    | some parent ↦ elim (to_bytes32 l.hash) [
      | none ↦ none
      | some hash ↦ some (record {
        number = l.sequence;
        hash = hash;
        parent_hash = parent;
        timestamp = l.ledger_close_time;
      })
    ]
  ]

  -- The latest header and the finalized one.
  unfoldable pub latest_and_finalized_block :
      (Bytes → Option Bytes) → Option LedgerInfo → Option (BlockHeader × BlockHeader)
  unfolding build_block_header
  latest_and_finalized_block previous_hash none = none
  latest_and_finalized_block previous_hash (some l) = elim (build_block_header previous_hash l) [
    | none ↦ none
    | some header ↦ some (header, header)
  ]

  module _ (previous_hash : Bytes → Option Bytes) (get_ledgers : ℕ → Option (List LedgerInfo)) where
    -- One ledger, which must be the one that was asked for. The first `none` is an error of the
    -- query.
    unfoldable pub header_of_ledger : ℕ → Option (List LedgerInfo) → Option BlockHeader
    unfolding build_block_header
    header_of_ledger seq none = none
    header_of_ledger seq (some []) = none
    header_of_ledger seq (some (l ∷ ls)) =
        if not (nat_eq l.sequence seq) then none else build_block_header previous_hash l

    -- The loop; the blocks are given by their values as uint64.
    unfoldable pub add_headers : List ℕ → Map ℕ BlockHeader → Option (Map ℕ BlockHeader)
    unfolding header_of_ledger
    add_headers [] headers = some headers
    add_headers (seq ∷ seqs) headers =
        if ltb 4_294_967_295 seq then none else elim (header_of_ledger seq (get_ledgers seq)) [
          | none ↦ none
          | some header ↦ add_headers seqs (put seq header headers)
        ]

    unfoldable pub get_blocks_headers : List ℕ → Option (Map ℕ BlockHeader)
    unfolding add_headers
    get_blocks_headers seqs = add_headers seqs []
