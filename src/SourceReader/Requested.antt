-- ===== src/SourceReader/Requested.antt =====
-- ccv/source_reader/source_reader.go: `GetBlocksHeaders` returns the headers of the ledgers that were
-- asked for, and of no others.
use mathlib.Core.List.{Memᴰ}
use chainlink_stellar.Prelude.{
  ℕ, ◌≡◌, ◌⊎◌, ap, sym, ◌∙◌, inl, inr, refl, arith, Option, some, none, List, [], ◌∷◌, ltb, nat_eq,
  nat_eq_iff, Option-cases, Bool-cases, ◌==◌, ℕ_equality,
}
use chainlink_stellar.Prelude.Map.{Map, get, put, get-put, get-put_self}
use chainlink_stellar.Config.{Bytes}
use chainlink_stellar.SourceReader.Headers.{
  BlockHeader, LedgerInfo, header_of_ledger, add_headers, get_blocks_headers, build_block_header,
  to_bytes32,
}

module _ (decode_hex : Bytes → Option Bytes) (previous_hash : Bytes → Option Bytes)
    (get_ledgers : ℕ → Option (List LedgerInfo)) where
  build_block_header-number :
      (l : LedgerInfo) (h : BlockHeader)
      → build_block_header decode_hex previous_hash l ≡ some h
      → h.number ≡ l.sequence
  unfolding build_block_header
  build_block_header-number l h e = elim (Option-cases (previous_hash l.header)) [
    | inl q ↦ absurd (ground arith)
    | inr (parent, q) ↦ elim (Option-cases (to_bytes32 decode_hex l.hash)) [
      | inl i ↦ absurd (ground arith)
      | inr (hash, i) ↦ ground arith
    ]
  ]

  header_of_ledger-number :
      (n : ℕ) (o : Option (List LedgerInfo)) (h : BlockHeader)
      → header_of_ledger decode_hex previous_hash get_ledgers n o ≡ some h
      → h.number ≡ n
  unfolding header_of_ledger
  header_of_ledger-number n none h e = absurd cc
  header_of_ledger-number n (some []) h e = absurd cc
  header_of_ledger-number n (some (l ∷ ls)) h e = elim (Bool-cases (nat_eq l.sequence n)) [
    | inl b ↦ build_block_header-number l h (ground arith) ∙ (nat_eq_iff l.sequence n).0 b
    | inr b ↦ absurd (ground arith)
  ]

  -- One round of the loop that does not fail.
  round :
      (seq : ℕ) (seqs : List ℕ) (m0 m : Map ℕ BlockHeader)
      → add_headers decode_hex previous_hash get_ledgers (seq ∷ seqs) m0 ≡ some m
      → (h : BlockHeader) × (h.number ≡ seq)
        × (add_headers decode_hex previous_hash get_ledgers seqs (put seq h m0) ≡ some m)
  unfolding add_headers
  round seq seqs m0 m e = elim (Bool-cases (ltb 4_294_967_295 seq)) [
    | inl b ↦ absurd (ground arith)
    | inr b ↦
        elim (Option-cases
          (header_of_ledger decode_hex previous_hash get_ledgers seq (get_ledgers seq))) [
            | inl q ↦ absurd (ground arith)
            | inr (h, q) ↦ (h, header_of_ledger-number seq (get_ledgers seq) h q, ground arith)
          ]
  ]

  kept :
      (seqs : List ℕ) (m0 m : Map ℕ BlockHeader) (n : ℕ) (h : BlockHeader)
      → add_headers decode_hex previous_hash get_ledgers seqs m0 ≡ some m
      → get n m0 ≡ some h
      → (h' : BlockHeader) × (get n m ≡ some h')
  unfolding add_headers
  kept [] m0 m n h e q = (h, ground arith)
  kept (seq ∷ seqs) m0 m n h e q =
      let (h2, i, e2) = round seq seqs m0 m e in
      elim (Bool-cases (seq == n)) [
        | inl b ↦ kept seqs (put seq h2 m0) m n h2 e2 (rw (get-put seq n h2 m0, b) refl)
        | inr b ↦ kept seqs (put seq h2 m0) m n h e2 (rw (get-put seq n h2 m0, b) q)
      ]

  present :
      (seqs : List ℕ) (m0 m : Map ℕ BlockHeader) (n : ℕ)
      → add_headers decode_hex previous_hash get_ledgers seqs m0 ≡ some m
      → Memᴰ n seqs
      → (h : BlockHeader) × (get n m ≡ some h)
  present [] m0 m n e i = elim i [ ]
  present (seq ∷ seqs) m0 m n e (Memᴰ.head i) =
      let (h, j, e2) = round seq seqs m0 m e in
      kept seqs (put seq h m0) m n h e2 (ap (λ x. get x (put seq h m0)) i ∙ get-put_self seq h m0)
  present (seq ∷ seqs) m0 m n e (Memᴰ.tail i) =
      let (h, j, e2) = round seq seqs m0 m e in present seqs (put seq h m0) m n e2 i

  only :
      (seqs : List ℕ) (m0 m : Map ℕ BlockHeader) (n : ℕ) (h : BlockHeader)
      → add_headers decode_hex previous_hash get_ledgers seqs m0 ≡ some m
      → get n m ≡ some h
      → (Memᴰ n seqs × (h.number ≡ n)) ⊎ (get n m0 ≡ some h)
  unfolding add_headers
  only [] m0 m n h e q = inr (ground arith)
  only (seq ∷ seqs) m0 m n h e q =
      let (h2, i, e2) = round seq seqs m0 m e in
      elim (only seqs (put seq h2 m0) m n h e2 q) [
        | inl (j, k) ↦ inl (Memᴰ.tail j, k)
        | inr j ↦ elim (Bool-cases (seq == n)) [
          | inl b ↦
              let same = (ℕ_equality.test_iff seq n).0 b in
              inl (Memᴰ.head (sym same), ground (arith, get-put seq n h2 m0))
          | inr b ↦ inr (ground (arith, get-put seq n h2 m0))
        ]
      ]

  -- The headers that are returned are those of the ledgers asked for: each of these has one, and
  -- each header is that of a ledger asked for and has its number.
  pub get_blocks_headers_lem :
      (seqs : List ℕ) (m : Map ℕ BlockHeader) (n : ℕ)
      → get_blocks_headers decode_hex previous_hash get_ledgers seqs ≡ some m
      → (Memᴰ n seqs → (h : BlockHeader) × (get n m ≡ some h))
        × ((h : BlockHeader) → get n m ≡ some h → Memᴰ n seqs × (h.number ≡ n))
  unfolding get_blocks_headers get
  get_blocks_headers_lem seqs m n e = (
    present seqs [] m n e,
    (λ h q. elim (only seqs [] m n h e q) [ inl i ↦ i | inr i ↦ absurd (ground arith) ]),
  )
