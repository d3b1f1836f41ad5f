-- ===== src/Transmitter/Compact.antt =====
-- ccv/contract_transmitter/contract_transmitter.go: what the compact form of a signature says, and
-- what the conversion of a blob changes.
use chainlink_stellar.Prelude.{
  ℕ, zero, suc, ◌+◌, ◌*◌, ◌-◌, ◌/◌, ◌^◌, ◌<◌, ◌≤◌, ◌≡◌, refl, ap, ◌∙◌, arith, Bool, some, List, [],
  ◌∷◌, ◌++◌, All, map, ltb, leb, length, length-append, Bool-cases, inl, inr, ltb→lt, ltb→le,
  if◌then◌else◌,
}
use chainlink_stellar.Config.{Bytes}
use chainlink_stellar.Transmitter.Words.{number, padded, number-padded, length-padded, number_cons}
use chainlink_stellar.Transmitter.Blob.{
  take, drop, set_high, distance, compact_s, convert_signatures, convert_verifier_blob_to_eip2098,
}

number_cons_31 : (b : ℕ) (bs : Bytes) → length bs ≡ 31 → number (b ∷ bs) ≡ b * 256 ^ 31 + number bs
number_cons_31 b bs h = number_cons b bs ∙ ap (λ m. b * 256 ^ m + number bs) h

number-set_high :
    (bs : Bytes) → length bs ≡ 32 → number bs < 2 ^ 255 → number (set_high bs) ≡ 2 ^ 255 + number bs
number-set_high [] h l = absurd (omega arith)
number-set_high (b ∷ bs) h l = elim (Bool-cases (ltb b 128)) [
  | inl e ↦
      rw e (
        omega (arith, number_cons_31 b bs (omega arith), number_cons_31 (b + 128) bs (omega arith)))
  | inr e ↦ absurd (omega (arith, number_cons_31 b bs (omega arith), ltb→le b 128 e))
]

-- What EIP-2098 reads of the last word of a signature: its recovery id and its S. The order gives the
-- S that the other recovery id would have.
abbrev pub recovery_id : ℕ → Bool
recovery_id word = leb (2 ^ 255) word

abbrev pub low_s : ℕ → ℕ
low_s word = if recovery_id word then word - 2 ^ 255 else word

module _ (n : ℕ) (h : n < 2 ^ 256) where
  flipped :
      (s : ℕ) → n / 2 < s → s < n → number (set_high (padded 32 (distance n s))) ≡ 2 ^ 255 + (n - s)
  flipped s low high =
      ap (λ d. number (set_high (padded 32 d))) (ground arith)
      ∙ number-set_high (padded 32 (n - s)) (length-padded 32 (n - s))
          (omega (arith, number-padded 32 (n - s) (omega arith)))
      ∙ ap (λ y. 2 ^ 255 + y) (number-padded 32 (n - s) (omega arith))

  number-compact_s :
      (w : Bytes)
      → number w < n
      → number (compact_s n w)
        ≡ (if ltb (n / 2) (number w) then 2 ^ 255 + (n - number w) else number w)
  unfolding compact_s
  number-compact_s w l = elim (Bool-cases (ltb (n / 2) (number w))) [
    | inl e ↦ rw e (flipped (number w) (ltb→lt (n / 2) (number w) e) l)
    | inr e ↦ rw e refl
  ]

  -- Where the number S of a word is below the order n of the curve, the compact word has the
  -- recovery id 1 exactly when S is above the half of n; its S is then n - S, else S, and never above
  -- the half.
  pub compact_s_lem :
      (w : Bytes)
      → number w < n
      → (recovery_id (number (compact_s n w)) ≡ ltb (n / 2) (number w))
        × (low_s (number (compact_s n w))
            ≡ (if ltb (n / 2) (number w) then n - number w else number w))
        × (low_s (number (compact_s n w)) ≤ n / 2)
  compact_s_lem w l =
      let e = number-compact_s w l in (ground (arith, e), ground (arith, e), ground (arith, e))

abbrev pub flatten : List (Bytes × Bytes) → Bytes → Bytes
flatten [] rest = rest
flatten ((r, s) ∷ ps) rest = r ++ (s ++ flatten ps rest)

-- A signature with R and S of 32 bytes.
abbrev pub IsSized : Bytes × Bytes → Type 0
IsSized (r, s) = (length r ≡ 32) × (length s ≡ 32)

take-append : (n : ℕ) (xs ys : Bytes) → length xs ≡ n → take n (xs ++ ys) ≡ xs
take-append zero [] ys h = refl
take-append zero (x ∷ xs) ys h = absurd (omega arith)
take-append (suc n) [] ys h = absurd (omega arith)
take-append (suc n) (x ∷ xs) ys h = ap (λ t. x ∷ t) (take-append n xs ys (omega arith))

drop-append : (n : ℕ) (xs ys : Bytes) → length xs ≡ n → drop n (xs ++ ys) ≡ ys
drop-append zero [] ys h = refl
drop-append zero (x ∷ xs) ys h = absurd (omega arith)
drop-append (suc n) [] ys h = absurd (omega arith)
drop-append (suc n) (x ∷ xs) ys h = drop-append n xs ys (omega arith)

drop_two : (n : ℕ) (xs ys zs : Bytes) → length xs + length ys ≡ n → drop n (xs ++ (ys ++ zs)) ≡ zs
drop_two n [] ys zs h = drop-append n ys zs (omega arith)
drop_two zero (x ∷ xs) ys zs h = absurd (omega arith)
drop_two (suc n) (x ∷ xs) ys zs h = drop_two n xs ys zs (omega arith)

convert_signatures-flatten :
    (n : ℕ) (ps : List (Bytes × Bytes)) (rest : Bytes)
    → All IsSized ps
    → convert_signatures n (length ps) (flatten ps rest)
      ≡ flatten (map (λ p. (p.0, compact_s n p.1)) ps) rest
unfolding convert_signatures
convert_signatures-flatten n [] rest h = refl
convert_signatures-flatten n ((r, s) ∷ ps) rest ((hr, hs), h) =
    let tail = flatten ps rest in
    let e : take 32 (drop 32 (r ++ (s ++ tail))) ≡ s =
      ap (take 32) (drop-append 32 r (s ++ tail) hr) ∙ take-append 32 s tail hs in
    rw
      (
        take-append 32 r (s ++ tail) hr,
        e,
        drop_two 64 r s tail (omega arith),
        convert_signatures-flatten n ps rest h,
      )
      refl

length-flatten :
    (ps : List (Bytes × Bytes)) (rest : Bytes)
    → All IsSized ps
    → length (flatten ps rest) ≡ 64 * length ps + length rest
length-flatten [] rest h = omega arith
length-flatten ((r, s) ∷ ps) rest ((hr, hs), h) = omega (
  arith,
  length-append r (s ++ flatten ps rest),
  length-append s (flatten ps rest),
  length-flatten ps rest h,
)

-- A blob with its length field set to its signatures keeps its header, each R and what follows them,
-- and has each S in the compact form.
pub convert_verifier_blob_to_eip2098_lem :
    (n v0 v1 v2 v3 hi lo : ℕ) (ps : List (Bytes × Bytes)) (rest : Bytes)
    → hi * 256 + lo ≡ 64 * length ps
    → 0 < length ps
    → All IsSized ps
    → convert_verifier_blob_to_eip2098 n (v0 ∷ v1 ∷ v2 ∷ v3 ∷ hi ∷ lo ∷ flatten ps rest)
      ≡ some (v0 ∷ v1 ∷ v2 ∷ v3 ∷ hi ∷ lo ∷ flatten (map (λ p. (p.0, compact_s n p.1)) ps) rest)
unfolding convert_verifier_blob_to_eip2098
convert_verifier_blob_to_eip2098_lem n v0 v1 v2 v3 hi lo ps rest e pos h =
    let count : ((0 + hi) * 256 + lo) / 64 ≡ length ps = omega arith in
    let signatures : convert_signatures n (((0 + hi) * 256 + lo) / 64) (flatten ps rest)
        ≡ flatten (map (λ p. (p.0, compact_s n p.1)) ps) rest =
      ap (λ c. convert_signatures n c (flatten ps rest)) count
      ∙ convert_signatures-flatten n ps rest h in
    ground (arith, length-flatten ps rest h, signatures)
