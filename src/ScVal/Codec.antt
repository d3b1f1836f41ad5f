-- ===== src/ScVal/Codec.antt =====
-- bindings/scval/scval.go: the conversions of numbers, bytes, texts and slices. A `[n]byte` is a list
-- of bytes, whose length the caller's type fixes.
use mathlib.Core.List.{map}
use chainlink_stellar.Prelude.{
  ℕ, ◌%◌, ◌^◌, ◌+◌, Bool, Option, some, none, List, [], ◌∷◌, nat_eq, ltb, length, if◌then◌else◌,
}
use chainlink_stellar.Prelude.Int64.{Int64, int64, of_uint64}
use chainlink_stellar.Config.{Bytes}
use chainlink_stellar.ScVal.{
  ScVal, scv_bool, scv_void, scv_u32, scv_u64, scv_u128, scv_i128, scv_bytes, scv_string,
  scv_symbol, scv_vec, UInt128Parts, Items, nil, cons, items, items_of,
}
use chainlink_stellar.ScVal.Address.{get_items}

unfoldable pub uint64_to_scval : ℕ → ScVal
uint64_to_scval v = scv_u64 (some v)

unfoldable pub uint32_to_scval : ℕ → ScVal
uint32_to_scval v = scv_u32 (some v)

unfoldable pub bool_to_scval : Bool → ScVal
bool_to_scval v = scv_bool (some v)

-- `uint64(v)` of an int64.
abbrev pub to_uint64 : Int64 → ℕ
to_uint64 v = (v + 2 ^ 63) % 2 ^ 64

-- The int64 -1 is 2^63 - 1 in the form of Prelude.Int64.
unfoldable pub i128_to_scval : Int64 → ScVal
i128_to_scval v = scv_i128 (
    some (record {
      hi = if ltb v (int64 0) then 9_223_372_036_854_775_807 else int64 0;
      lo = to_uint64 v;
    }))

unfoldable pub i128_from_scval : ScVal → Option Int64
i128_from_scval (scv_i128 (some parts)) = some (of_uint64 parts.lo)
i128_from_scval _ = none

-- Also `Bytes4ToScVal`, `Bytes16ToScVal` and `Bytes32ToScVal`.
unfoldable pub bytes_to_scval : Bytes → ScVal
bytes_to_scval b = scv_bytes (some b)

unfoldable pub void_scval : ScVal
void_scval = scv_void

unfoldable pub vec_to_scval : List ScVal → ScVal
vec_to_scval vs = scv_vec (items (items_of vs))

unfoldable pub symbol_to_scval : Bytes → ScVal
symbol_to_scval sym = scv_symbol (some sym)

unfoldable pub symbol_from_scval : ScVal → Option Bytes
symbol_from_scval (scv_symbol sym) = sym
symbol_from_scval _ = none

unfoldable pub string_to_scval : Bytes → ScVal
string_to_scval s = scv_string (some s)

unfoldable pub string_from_scval : ScVal → Option Bytes
string_from_scval (scv_string s) = s
string_from_scval _ = none

unfoldable pub uint64_from_scval : ScVal → Option ℕ
uint64_from_scval (scv_u64 v) = v
uint64_from_scval _ = none

unfoldable pub uint32_from_scval : ScVal → Option ℕ
uint32_from_scval (scv_u32 v) = v
uint32_from_scval _ = none

unfoldable pub bytes_from_scval : ScVal → Option Bytes
bytes_from_scval (scv_bytes b) = b
bytes_from_scval _ = none

-- `Bytes4FromScVal`, `Bytes16FromScVal` and `Bytes32FromScVal`, at n = 4, 16 and 32.
unfoldable pub bytes_n_from_scval : ℕ → ScVal → Option Bytes
unfolding bytes_from_scval
bytes_n_from_scval n v = elim (bytes_from_scval v) [
  | none ↦ none
  | some b ↦ if nat_eq (length b) n then some b else none
]

unfoldable pub u128_to_scval : UInt128Parts → ScVal
u128_to_scval parts = scv_u128 (some parts)

unfoldable pub u128_from_scval : ScVal → Option UInt128Parts
u128_from_scval (scv_u128 parts) = parts
u128_from_scval _ = none

-- Also the slices of `[4]byte`, `[16]byte` and `[32]byte`.
unfoldable pub bytes_slice_to_scval : List Bytes → ScVal
unfolding vec_to_scval bytes_to_scval
bytes_slice_to_scval bs = vec_to_scval (map bytes_to_scval bs)

unfoldable pub uint64_slice_to_scval : List ℕ → ScVal
unfolding vec_to_scval uint64_to_scval
uint64_slice_to_scval vs = vec_to_scval (map uint64_to_scval vs)

unfoldable pub uint32_slice_to_scval : List ℕ → ScVal
unfolding vec_to_scval uint32_to_scval
uint32_slice_to_scval vs = vec_to_scval (map uint32_to_scval vs)

unfoldable pub bytes_items : Items → Option (List Bytes)
unfolding bytes_from_scval
bytes_items nil = some []
bytes_items (cons v vs) = elim (bytes_from_scval v) [
  | none ↦ none
  | some b ↦ elim (bytes_items vs) [ none ↦ none | some rest ↦ some (b ∷ rest) ]
]

unfoldable pub bytes_vec_from_scval : ScVal → Option (List Bytes)
unfolding bytes_items
bytes_vec_from_scval v = elim (get_items v) [ none ↦ none | some vs ↦ bytes_items vs ]
