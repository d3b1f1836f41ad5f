-- ===== src/Txm/Assembled.antt =====
-- relayer/txm/broadcast.go, `assembleTransaction`: what the transaction that is signed and sent
-- carries.
use chainlink_stellar.Prelude.{
  ℕ, ◌≡◌, refl, false, Option, some, none, List, [], ◌∷◌, ◌==◌, if◌then◌else◌, Bool-cases, inl, inr,
  ℕ_equality, String_equality,
}
use chainlink_stellar.Prelude.Int64.{Int64, int64, add}
use chainlink_stellar.Config.{Bytes_equality}
use chainlink_stellar.Txm.Network.{Network, SimulateTransactionResponse}
use chainlink_stellar.Txm.Sdk.{Sdk}
use chainlink_stellar.Txm.Recorded.{if_elim}
use chainlink_stellar.Txm.Assembly.{
  assemble_transaction, assemble_operations, assemble_decoded, rebuild, apply_soroban_data,
}
use chainlink_stellar.Txm.Prepared.{Numbers}

module _ (net : Network) (sdk : Sdk net.World) where
  abbrev resource_fee_of : Int64 → SimulateTransactionResponse → Int64
  resource_fee_of buffer sim =
      if sim.transaction_data_xdr == "" then int64 0 else add sim.min_resource_fee buffer

  -- What assembling promises: the sequence number is kept, and the fees add up.
  abbrev pub IsAssembled :
      sdk.Transaction → Int64 → Int64 → Option (sdk.Transaction × Int64) × net.World → Type 0
  IsAssembled prelim inclusion_fee resource_fee (none, w) = Unit
  IsAssembled prelim inclusion_fee resource_fee (some (tx, total_fee), w) =
      (sdk.source_sequence tx ≡ sdk.source_sequence prelim)
      × (total_fee ≡ add inclusion_fee resource_fee)

  rebuild-IsAssembled :
      (prelim : sdk.Transaction) (ops : List ℕ) (inclusion_fee resource_fee : Int64)
      (max_ledger : ℕ) (w : net.World)
      → Numbers sdk
      → IsAssembled prelim inclusion_fee resource_fee
          (rebuild net sdk prelim ops inclusion_fee resource_fee max_ledger w)
  unfolding rebuild
  rebuild-IsAssembled prelim ops inclusion_fee resource_fee max_ledger w n = go _ refl
    where
      go :
          (o : Option sdk.Transaction)
          → sdk.new_transaction
              (record {
                account_id = sdk.source_account_id prelim;
                sequence = sdk.source_sequence prelim;
                increment_sequence_num = false;
                operations = ops;
                base_fee = inclusion_fee;
                time_bounds = sdk.time_bounds prelim;
                max_ledger = some max_ledger;
              })
              w
            ≡ o
          → IsAssembled prelim inclusion_fee resource_fee (elim o [
            | none ↦ (none, w)
            | some assembled ↦ (some (assembled, add inclusion_fee resource_fee), w)
          ])
      go none e = tt
      go (some t) e = (n.numbered _ w t e, refl)

  assemble_decoded-IsAssembled :
      (data' : Option sdk.SorobanData) (resource_fee : Int64) (op : ℕ) (ops : List ℕ)
      (prelim : sdk.Transaction) (sim : SimulateTransactionResponse) (inclusion_fee : Int64)
      (max_ledger : ℕ) (w : net.World)
      → Numbers sdk
      → IsAssembled prelim inclusion_fee resource_fee
          (assemble_decoded net sdk data' resource_fee op ops prelim sim inclusion_fee max_ledger w)
  unfolding assemble_decoded
  assemble_decoded-IsAssembled none fee op ops prelim sim inclusion_fee max_ledger w n = tt
  assemble_decoded-IsAssembled (some d) fee op ops prelim sim inclusion_fee max_ledger w n =
      if_elim (IsAssembled prelim inclusion_fee fee)
        (apply_soroban_data net sdk op (sdk.set_resource_fee fee d) sim w).0 _ _
        (rebuild-IsAssembled prelim (op ∷ ops) inclusion_fee fee max_ledger _ n) tt

  assemble_operations-IsAssembled :
      (ops : List ℕ) (buffer : Int64) (prelim : sdk.Transaction) (sim : SimulateTransactionResponse)
      (inclusion_fee : Int64) (max_ledger : ℕ) (w : net.World)
      → Numbers sdk
      → IsAssembled prelim inclusion_fee
          (resource_fee_of buffer sim)
          (assemble_operations net sdk ops buffer prelim sim inclusion_fee max_ledger w)
  unfolding assemble_operations
  assemble_operations-IsAssembled [] buffer prelim sim inclusion_fee max_ledger w n = tt
  assemble_operations-IsAssembled (op ∷ ops) buffer prelim sim inclusion_fee max_ledger w n =
      elim (Bool-cases (sim.transaction_data_xdr == "")) [
        | inl e ↦
            rw e (rebuild-IsAssembled prelim (op ∷ ops) inclusion_fee (int64 0) max_ledger w n)
        | inr e ↦ rw e (
            assemble_decoded-IsAssembled _ (add sim.min_resource_fee buffer) op ops prelim sim
              inclusion_fee max_ledger w n)
      ]

  -- An assembled transaction keeps the sequence number of the preliminary one, and the total fee is
  -- the inclusion fee plus the resource fee: the simulation's with the buffer, or none without
  -- Soroban data.
  pub assemble_transaction-IsAssembled :
      (buffer : Int64) (prelim : sdk.Transaction) (sim : SimulateTransactionResponse)
      (inclusion_fee : Int64) (max_ledger : ℕ) (w : net.World)
      → Numbers sdk
      → IsAssembled prelim inclusion_fee
          (if sim.transaction_data_xdr == "" then int64 0 else add sim.min_resource_fee buffer)
          (assemble_transaction net sdk buffer prelim sim inclusion_fee max_ledger w)
  unfolding assemble_transaction
  assemble_transaction-IsAssembled buffer prelim sim inclusion_fee max_ledger w n =
      assemble_operations-IsAssembled (sdk.operations prelim) buffer prelim sim inclusion_fee
        max_ledger w n
