-- ===== src/Failure/Classified.antt =====
-- Which failed transactions are retried.
use chainlink_stellar.Prelude.{
  ◌≡◌, ◌↔◌, ◌⊎◌, refl, true, false, Option, some, none, List, [], ◌∷◌, String, arith, ◌==◌,
  String_equality, Option-cases, inl, inr, Bool-cases,
}
use chainlink_stellar.Failure.{
  ResultXdr, TransactionResult, OperationResult, OperationTr, OperationResultCode, op_inner,
  op_exceeded_work_limit, other_op, InvokeHostFunctionResultCode, resource_limit_exceeded,
  entry_archived, insufficient_refundable_fee, classify_failed_transaction_result,
  classify_operation, is_retryable_invoke_host_function_result,
}

abbrev pub IsTransientCode : InvokeHostFunctionResultCode → Type 0
IsTransientCode code =
    (code ≡ resource_limit_exceeded)
    ⊎ (code ≡ entry_archived)
    ⊎ (code ≡ insufficient_refundable_fee)

-- The operation ran out of its work limit, or it is a host function call that hit a resource
-- limit, an archived entry or a refundable fee that is too low.
pub data IsTransient (r : OperationResult) : Type 0 where
  work_limit : r.code ≡ op_exceeded_work_limit → IsTransient r
  invocation :
      (tr : OperationTr) (code : InvokeHostFunctionResultCode)
      → r.code ≡ op_inner
      → r.tr ≡ some tr
      → tr.invoke_host_function_result ≡ some code
      → IsTransientCode code
      → IsTransient r

-- The result decodes, and its first operation failed for a transient reason.
pub data IsTransientResult (x : ResultXdr) (result_xdr : String) : Type 0 where
  first_operation :
      (t : TransactionResult) (r : OperationResult) (rs : List OperationResult)
      → (result_xdr == "") ≡ false
      → x.decode result_xdr ≡ some t
      → t.results ≡ some (r ∷ rs)
      → IsTransient r
      → IsTransientResult x result_xdr

module _ (x : ResultXdr) where
  retryable_of_IsTransient :
      (r : OperationResult) → IsTransient r → (classify_operation x r).retryable ≡ true
  unfolding classify_operation is_retryable_invoke_host_function_result
  retryable_of_IsTransient r (work_limit e) = ground arith
  retryable_of_IsTransient r (invocation tr code inner some_tr invoked transient) = ground arith

  transient_code :
      (code : InvokeHostFunctionResultCode)
      → is_retryable_invoke_host_function_result code ≡ true
      → IsTransientCode code
  unfolding is_retryable_invoke_host_function_result
  transient_code code h = ground arith

  IsTransient-classify :
      (r : OperationResult) → (classify_operation x r).retryable ≡ true → IsTransient r
  unfolding classify_operation
  IsTransient-classify r h = go r.code r.tr refl refl
    where
      go :
          (c : OperationResultCode) (t : Option OperationTr) → r.code ≡ c → r.tr ≡ t → IsTransient r
      go op_inner none e f = absurd (ground arith)
      go op_inner (some tr) e f = elim (Option-cases tr.invoke_host_function_result) [
        | inl g ↦ absurd (ground arith)
        | inr (code, g) ↦ invocation tr code e f g (transient_code code (ground arith))
      ]
      go op_exceeded_work_limit t e f = work_limit e
      go (other_op name) t e f = absurd (ground arith)

  -- The classifier marks a failed transaction as retryable exactly when its result is present,
  -- decodes, and its first operation failed for a transient reason.
  pub retryable_iff :
      (result_xdr : String)
      → ((classify_failed_transaction_result x result_xdr).retryable ≡ true)
        ↔ IsTransientResult x result_xdr
  unfolding classify_failed_transaction_result
  retryable_iff result_xdr = (forward, backward)
    where
      results :
          (t : TransactionResult)
          → x.decode result_xdr ≡ some t
          → (result_xdr == "") ≡ false
          → (o : Option (List OperationResult)) → t.results ≡ o
          → (classify_failed_transaction_result x result_xdr).retryable ≡ true
          → IsTransientResult x result_xdr
      results t e present none f h = absurd (ground arith)
      results t e present (some []) f h = absurd (ground arith)
      results t e present (some (r ∷ rs)) f h =
          first_operation t r rs present e f (IsTransient-classify r (ground arith))

      forward :
          (classify_failed_transaction_result x result_xdr).retryable ≡ true
          → IsTransientResult x result_xdr
      forward h = elim (Bool-cases (result_xdr == "")) [
        | inl empty ↦ absurd (ground arith)
        | inr present ↦ elim (Option-cases (x.decode result_xdr)) [
          | inl e ↦ absurd (ground arith)
          | inr (t, e) ↦ results t e present t.results refl h
        ]
      ]

      backward :
          IsTransientResult x result_xdr
          → (classify_failed_transaction_result x result_xdr).retryable ≡ true
      backward (first_operation t r rs present e f transient) =
          ground (arith, retryable_of_IsTransient r transient)
