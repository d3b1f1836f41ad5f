-- ===== src/Txm/Backpressure.antt =====
-- The broadcast queue of relayer/txm/txm.go when it is full.
use chainlink_stellar.Prelude.{
  ◌∙◌, ltb, ltb→lt, ltb→le, Bool-cases, inl, inr, err, ◌⊎◌, ℕ, ◌≤◌, ◌<◌, ◌≡◌, refl, String, some,
  none, List, [], ◌∷◌, ◌++◌, arith, String_equality, length, ok, Result,
}
use chainlink_stellar.Prelude.Map.{get, put, get-put, get-put_self, get-delete, delete}
use chainlink_stellar.TxStore.{TxRef}
use chainlink_stellar.Txm.{
  Txm, Settings, failed, is_terminal_status, modify, update_transaction_status,
}
use chainlink_stellar.Txm.Status.{IsSettled, update_transaction_status-IsSettled}
use chainlink_stellar.Txm.Queue.{
  try_send, drop_oldest_for_backpressure, evict_oldest, resend, enqueue_transaction, EnqueueError,
  channel_full,
}

module _ (c : Settings) where
  -- The manager once the oldest transaction has made room.
  evicted : ℕ → TxRef → TxRef → List TxRef → Txm → Txm
  evicted now r oldest rest s = update_transaction_status c now oldest failed (
      modify oldest (λ t. record t { result_code = "channel_full_oldest_evicted" })
        (record s { transactions = put (s.heap r).id r s.transactions; broadcast_chan = rest }))

  evict_oldest-evicted :
      (now : ℕ) (r oldest : TxRef) (rest : List TxRef) (s : Txm)
      → get (s.heap r).id s.transactions ≡ none
      → s.broadcast_chan ≡ oldest ∷ rest
      → get (s.heap oldest).id s.transactions ≡ some oldest
      → evict_oldest c now (record s { transactions = put (s.heap r).id r s.transactions })
        ≡ evicted now r oldest rest s
  unfolding evict_oldest drop_oldest_for_backpressure evicted
  evict_oldest-evicted now r oldest rest s free head known =
      rw (head, evict_oldest)
        (ground (
          arith,
          get-put (s.heap r).id (s.heap oldest).id r s.transactions,
          String_equality.test_iff (s.heap r).id (s.heap oldest).id,
        ))

  evicted_parts :
      (now : ℕ) (r oldest : TxRef) (rest : List TxRef) (s : Txm)
      → get (s.heap r).id s.transactions ≡ none
      → get (s.heap oldest).id s.transactions ≡ some oldest
      → let t = evicted now r oldest rest s in
        (t.broadcast_chan ≡ rest)
        × ((t.heap r).id ≡ (s.heap r).id)
        × ((t.heap oldest).result_code ≡ "channel_full_oldest_evicted")
        × (get (s.heap r).id t.transactions ≡ some r)
  unfolding evicted update_transaction_status
  evicted_parts now r oldest rest s free known = ground (
    arith,
    get-put_self (s.heap r).id r s.transactions,
    get-delete (s.heap oldest).id (s.heap r).id (put (s.heap r).id r s.transactions),
    String_equality.test_iff (s.heap oldest).id (s.heap r).id,
  )

  evicted-IsSettled :
      (now : ℕ) (r oldest : TxRef) (rest : List TxRef) (s : Txm)
      → IsSettled oldest (evicted now r oldest rest s)
  unfolding evicted is_terminal_status
  evicted-IsSettled now r oldest rest s =
      update_transaction_status-IsSettled c now oldest failed _ refl

  try_send_full :
      (r : TxRef) (s : Txm)
      → c.broadcast_chan_size ≤ length s.broadcast_chan
      → try_send c r s ≡ none
  unfolding try_send
  try_send_full r s h = ground arith

  -- The new transaction is registered, and the oldest has left the queue, failed with the eviction
  -- as its reason.
  pub record IsEvicted (r oldest : TxRef) (rest : List TxRef) (s t : Txm) : Type 0 where
    pub queue : t.broadcast_chan ≡ rest
    pub registered : get (s.heap r).id t.transactions ≡ some r
    pub settled : IsSettled oldest t
    pub reason : (t.heap oldest).result_code ≡ "channel_full_oldest_evicted"

  evicted-IsEvicted :
      (now : ℕ) (r oldest : TxRef) (rest : List TxRef) (s : Txm)
      → get (s.heap r).id s.transactions ≡ none
      → get (s.heap oldest).id s.transactions ≡ some oldest
      → IsEvicted r oldest rest s (evicted now r oldest rest s)
  evicted-IsEvicted now r oldest rest s free known =
      let parts = evicted_parts now r oldest rest s free known in
      record {
        queue = parts.0;
        registered = parts.3;
        settled = evicted-IsSettled now r oldest rest s;
        reason = parts.2;
      }

  -- What an enqueue on a full queue answers, from the manager before it and the one that it finds
  -- after the eviction and what other goroutines have done since: the transaction stands last in the
  -- queue, or it is no longer registered and refused.
  abbrev pub Resent : TxRef → Txm → Txm → Txm × Result EnqueueError String → Type 0
  Resent r s t out =
      (length t.broadcast_chan < c.broadcast_chan_size)
        × (out ≡ (record t { broadcast_chan = t.broadcast_chan ++ r ∷ [] }, ok (s.heap r).id))
      ⊎ (c.broadcast_chan_size ≤ length t.broadcast_chan)
        × (out ≡ (
          record t { transactions = delete (s.heap r).id t.transactions },
          err (channel_full (s.heap r).id),
        ))

  resend-Resent :
      (r : TxRef) (s t : Txm) → (t.heap r).id ≡ (s.heap r).id → Resent r s t (resend c r t)
  unfolding resend try_send
  resend-Resent r s t same =
      elim (Bool-cases (ltb (length t.broadcast_chan) c.broadcast_chan_size)) [
        | inl room ↦ inl (ltb→lt _ _ room, rw (room, resend) (rw same refl))
        | inr full ↦ inr (ltb→le _ _ full, rw (full, resend) (rw same refl))
      ]

  -- On a full queue whose oldest transaction is still registered, enqueuing a new transaction
  -- takes the oldest out, fails it with the eviction as its reason and releases its waiters, and
  -- leaves the others in their order. Then other goroutines may act on the manager, in any way that
  -- keeps the new transaction's id. If the queue has room after that, the new transaction is
  -- accepted and stands last in it; if they have filled it again, the new transaction is
  -- unregistered and refused.
  pub enqueue_transaction_evicts :
      (others : Txm → Txm) (now : ℕ) (r oldest : TxRef) (rest : List TxRef) (s : Txm)
      → ((t : Txm) → ((others t).heap r).id ≡ (t.heap r).id)
      → get (s.heap r).id s.transactions ≡ none
      → get (s.heap oldest).id s.transactions ≡ some oldest
      → s.broadcast_chan ≡ oldest ∷ rest
      → length s.broadcast_chan ≡ c.broadcast_chan_size
      → (t : Txm) × IsEvicted r oldest rest s t
        × Resent r s (others t) (enqueue_transaction c others now r s)
  unfolding enqueue_transaction
  enqueue_transaction_evicts others now r oldest rest s keep free known head full = (
    evicted now r oldest rest s,
    evicted-IsEvicted now r oldest rest s free known,
    rw (free, enqueue_transaction)
        (rw
          (
            try_send_full r (record s { transactions = put (s.heap r).id r s.transactions })
                (omega arith),
            enqueue_transaction,
          )
          (rw (evict_oldest-evicted now r oldest rest s free head known) (
            resend-Resent r s (others (evicted now r oldest rest s)) (
              keep (evicted now r oldest rest s)
              ∙ (evicted_parts now r oldest rest s free known).1)))),
  )
