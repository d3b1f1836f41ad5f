-- ===== src/Service/Accepted.antt =====
-- relayer/stellar_service.go: what reaches the manager, and what is said of its result.
use chainlink_stellar.Prelude.{
  ◌≡◌, ◌≢◌, ◌⊎◌, ℕ, sym, ◌∙◌, refl, ap, arith, Option, some, none, List, [], ◌∷◌, All, map,
  Option-cases, inl, inr,
}
use chainlink_stellar.Config.{Bytes}
use chainlink_stellar.ScVal.{ScVal}
use chainlink_stellar.ScVal.Address.{Strkey, IsStrkey, build_contract_sc_address}
use chainlink_stellar.Convert.Value.{convert_scval_from_domain}
use chainlink_stellar.Convert.Arguments.{IsArgument, convert_scval_from_domain_iff}
use chainlink_stellar.Convert.Events.{convert_scvals_to_domain}
use chainlink_stellar.Convert.Queries.{traverse-All, traverse-map}
use chainlink_stellar.Service.Submit.{
  TxRequest, TxResult, SubmitTransactionRequest, SubmitTransactionResponse, response,
  submit_transaction, submit_request, submit_result, submit_reply, build_invoke_contract_operation,
  tx_success, tx_failed, finalized, failed_status, other_status, TransactionStatus,
  InvokeHostFunction,
}

status_cases :
    (st : TransactionStatus)
    → (st ≡ finalized) ⊎ ((st ≡ failed_status) ⊎ ((tag : ℕ) × (st ≡ other_status tag)))
status_cases finalized = inl refl
status_cases failed_status = inr (inl refl)
status_cases (other_status tag) = inr (inr (tag, refl))

bytes_cases : (b : Bytes) → (b ≡ []) ⊎ ((c : ℕ) × (cs : Bytes) × (b ≡ c ∷ cs))
bytes_cases [] = inl refl
bytes_cases (c ∷ cs) = inr (c, cs, refl)

-- A response without an error says that the transaction succeeded, or that it was reverted on the
-- chain.
abbrev pub IsExecuted : TxResult → SubmitTransactionResponse → Type 0
IsExecuted r a =
    (a.tx_hash ≡ r.hash)
    × (((a.tx_status ≡ tx_success) × (r.status ≡ finalized))
        ⊎ ((a.tx_status ≡ tx_failed) × (r.status ≡ failed_status) × (r.result_xdr ≢ [])))

submit_reply-IsExecuted :
    (r : TxResult) (a : SubmitTransactionResponse) → submit_reply r ≡ response a → IsExecuted r a
unfolding submit_reply
submit_reply-IsExecuted r a e = elim (status_cases r.status) [
  | inl h ↦ (ground arith, inl (ground arith, h))
  | inr (inl h) ↦ elim (bytes_cases r.result_xdr) [
    | inl i ↦ absurd (ground arith)
    | inr (c, cs, i) ↦ (ground arith, inr (ground arith, h, λ n. absurd (ground arith)))
  ]
  | inr (inr (tag, h)) ↦ absurd (ground arith)
]

module _ (k : Strkey) (s : IsStrkey k) where
  -- A request that converts.
  submit_request-arguments :
      (q : SubmitTransactionRequest) (request : TxRequest)
      → submit_request k q ≡ some request
      → All IsArgument q.args
  unfolding submit_request convert_scvals_to_domain
  submit_request-arguments q request e = elim (Option-cases (convert_scvals_to_domain k q.args)) [
    | inl h ↦ absurd (ground arith)
    | inr (args, h) ↦
        (traverse-All (convert_scval_from_domain k) IsArgument (convert_scval_from_domain_iff k s)
            q.args).0
          (args, h)
  ]

  built_args :
      (c f : Bytes) (args : List ScVal) (from : Bytes) (o : InvokeHostFunction)
      → build_invoke_contract_operation k c f args from ≡ some o
      → o.args ≡ args
  unfolding build_invoke_contract_operation
  built_args [] f args from o e = absurd cc
  built_args (c ∷ cs) [] args from o e = absurd cc
  built_args (c ∷ cs) (f ∷ fs) args from o e = elim (Option-cases (k.decode_contract (c ∷ cs))) [
    | inl h ↦ absurd (ground arith)
    | inr (raw, h) ↦ elim (Option-cases (build_contract_sc_address k raw)) [
      | inl i ↦ absurd (ground arith)
      | inr (address, i) ↦ ground arith
    ]
  ]

  -- The manager's answer to a submission that succeeds.
  answered :
      (o : Option (Option TxResult)) (a : SubmitTransactionResponse)
      → submit_result k o ≡ response a
      → (r : TxResult) × (o ≡ some (some r)) × (submit_reply r ≡ response a)
  unfolding submit_result
  answered none a e = absurd cc
  answered (some none) a e = absurd cc
  answered (some (some r)) a e = (r, refl, e)

  -- The operation has the converted arguments.
  request_args :
      (q : SubmitTransactionRequest) (request : TxRequest)
      → submit_request k q ≡ some request
      → map (convert_scval_from_domain k) q.args ≡ map some request.operation.args
  unfolding submit_request convert_scvals_to_domain
  request_args q request e = elim (Option-cases (convert_scvals_to_domain k q.args)) [
    | inl h ↦ absurd (ground arith)
    | inr (args, h) ↦
        elim (Option-cases
          (build_invoke_contract_operation k q.contract_id q.function args q.from_address)) [
            | inl i ↦ absurd (ground arith)
            | inr (operation, i) ↦
                traverse-map (convert_scval_from_domain k) q.args args h
                ∙ ap (map some) (
                    sym (built_args q.contract_id q.function args q.from_address operation i)
                    ∙ ground arith)
          ]
  ]

  -- A submission that returns a response and no error has converted each of its arguments, which
  -- all can be arguments, has passed them to the manager, and reports its transaction: it succeeded
  -- where the manager finalized it, and was reverted where the manager has a failed result of it.
  pub submit_transaction-IsExecuted :
      (manager : TxRequest → Option (Option TxResult)) (q : SubmitTransactionRequest)
      (a : SubmitTransactionResponse)
      → submit_transaction k (some manager) q ≡ response a
      → (request : TxRequest) × (r : TxResult) × (manager request ≡ some (some r))
        × All IsArgument q.args
        × (map (convert_scval_from_domain k) q.args ≡ map some request.operation.args)
        × IsExecuted r a
  unfolding submit_transaction submit_result
  submit_transaction-IsExecuted manager q a e = elim (bytes_cases q.contract_id) [
    | inl h ↦ absurd (ground arith)
    | inr (c, cs, h) ↦ elim (bytes_cases q.function) [
      | inl i ↦ absurd (ground arith)
      | inr (f, fs, i) ↦ elim (Option-cases (submit_request k q)) [
        | inl j ↦ absurd (ground arith)
        | inr (request, j) ↦
            let (r, m, x) = answered (manager request) a (ground arith) in
            (
              request,
              r,
              m,
              submit_request-arguments q request j,
              request_args q request j,
              submit_reply-IsExecuted r a x,
            )
      ]
    ]
  ]
