-- ===== src/Transmitter/Tests.antt =====
-- Witnesses of ccv/contract_transmitter/contract_transmitter.go.
use chainlink_stellar.Prelude.{
  ℕ, ◌*◌, ◌^◌, ◌-◌, ◌/◌, ◌≤◌, ◌≡◌, refl, some, List, [], ◌∷◌, map, ltb, arith, if◌then◌else◌,
}
use chainlink_stellar.Config.{Bytes}
use chainlink_stellar.ScVal.Address.{fit}
use chainlink_stellar.Transmitter.Words.{number}
use chainlink_stellar.Transmitter.Blob.{compact_s, convert_verifier_blob_to_eip2098}
use chainlink_stellar.Transmitter.Compact.{
  compact_s_lem, convert_verifier_blob_to_eip2098_lem, recovery_id, low_s, flatten,
}

-- An order, and a word with an S above its half.
abbrev order : ℕ
order = 7 * 256 ^ 31

abbrev high : Bytes
high = fit 32 (6 ∷ 1 ∷ [])

compact_s_lem_example :
    (recovery_id (number (compact_s order high)) ≡ ltb (order / 2) (number high))
    × (low_s (number (compact_s order high))
        ≡ (if ltb (order / 2) (number high) then order - number high else number high))
    × (low_s (number (compact_s order high)) ≤ order / 2)
unfolding number
compact_s_lem_example = compact_s_lem order (omega arith) high (omega arith)

abbrev signatures : List (Bytes × Bytes)
signatures = (fit 32 (9 ∷ []), high) ∷ (fit 32 (8 ∷ []), fit 32 (1 ∷ [])) ∷ []

convert_verifier_blob_to_eip2098_lem_example :
    convert_verifier_blob_to_eip2098 order (1 ∷ 2 ∷ 3 ∷ 4 ∷ 0 ∷ 128 ∷ flatten signatures (5 ∷ []))
    ≡ some (
        1
        ∷ 2
        ∷ 3
        ∷ 4
        ∷ 0
        ∷ 128
        ∷ flatten (map (λ p. (p.0, compact_s order p.1)) signatures) (5 ∷ []))
convert_verifier_blob_to_eip2098_lem_example =
    convert_verifier_blob_to_eip2098_lem order 1 2 3 4 0 128 signatures (5 ∷ []) (omega arith)
      (omega arith) ((refl, refl), ((refl, refl), tt))
