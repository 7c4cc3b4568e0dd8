-- ===== src/Lthread/Pipeline/Buffers.antt =====
-- Where the buffers of lthread/main.c go, for every interleaving of the threads.
use flo_watcher_dpdk.Common.{
  ℕ, ◌+◌, ◌<◌, ◌^◌, ◌≡◌, refl, ap, List, [], ◌∷◌, ◌++◌, length, All, arith, Array, update,
  update_self, update_ne, count, length-append, sum_below, sum_below-change, Bool-cases, inl, inr,
}
use flo_watcher_dpdk.Buckets.{addrs, total}
use flo_watcher_dpdk.Buckets.Addrs.{count-addrs, count-none, count-freed}
use flo_watcher_dpdk.Double.{Arithmetic}
use flo_watcher_dpdk.Dpdk.{Mbuf}
use flo_watcher_dpdk.Lthread.{burst_size, rx_rings}
use flo_watcher_dpdk.Lthread.DoubleHash.{PktCount}
use flo_watcher_dpdk.Lthread.Pipeline.{
  Cond, State, Event, receive, dequeue, wait, Setting, update_2, view, receive_queue, count_mbuf,
  count_mbufs, count_taken, at_dequeue, lthread_tx_per_ring, cond_wait, step, run, batch, batches,
  arrivals,
}
use flo_watcher_dpdk.Lthread.Receive.{lthread_rx_queue}
use flo_watcher_dpdk.Lthread.Receive.Buffers.{in_rings, queue-buffers, queue-loss}
use flo_watcher_dpdk.Ring.{Ring, IsFifo}

-- the threads of an event exist, a receive thread has a ring, and `batch_n` and `re` have a place for
-- its queue or the counting thread
abbrev pub Within : Setting → Event → Type 0
Within k (receive rx queueid bufs) = (rx < k.n_rx_thread) × (0 < k.n_ring rx) × (queueid < rx_rings)
Within k (dequeue rx w) = (rx < k.n_rx_thread) × (w < k.n_ring rx) × (k.thread_id rx w < rx_rings)
Within k (wait rx w) = Unit

-- how often a buffer is in the rings of all receive threads
unfoldable pub in_all_rings : {R : Type 0} → Ring R → Setting → Array (Array R) → ℕ → ℕ
in_all_rings ops k rings a = sum_below k.n_rx_thread (λ rx. in_rings ops (k.n_ring rx) (rings rx) a)

module _ {R : Type 0} (ops : Ring R) (k : Setting) (a : ℕ) (rings : Array (Array R)) where
  -- the rings of one receive thread change
  in_all_rings-update :
      (rx : ℕ) (own : Array R)
      → rx < k.n_rx_thread
      → in_all_rings ops k (update rings rx own) a + in_rings ops (k.n_ring rx) (rings rx) a
        ≡ in_all_rings ops k rings a + in_rings ops (k.n_ring rx) own a
  unfolding in_all_rings
  in_all_rings-update rx own lt =
      let f = λ (i : ℕ). in_rings ops (k.n_ring i) (rings i) a in
      let g = λ (i : ℕ). in_rings ops (k.n_ring i) (update rings rx own i) a in
      omega (
        arith,
        sum_below-change k.n_rx_thread rx f g lt
            (λ i d. ap (λ r. in_rings ops (k.n_ring i) r a) (update_ne rings rx own i d)),
        ap (λ r. in_rings ops (k.n_ring rx) r a) (update_self rings rx own),
      )

  -- one ring changes
  in_all_rings-update_2 :
      (rx w : ℕ) (r : R)
      → rx < k.n_rx_thread
      → w < k.n_ring rx
      → in_all_rings ops k (update_2 rings rx w r) a + count a (addrs (ops.contents (rings rx w)))
        ≡ in_all_rings ops k rings a + count a (addrs (ops.contents r))
  unfolding in_rings
  in_all_rings-update_2 rx w r lt lw =
      let f = λ (i : ℕ). count a (addrs (ops.contents (rings rx i))) in
      let g = λ (i : ℕ). count a (addrs (ops.contents (update (rings rx) w r i))) in
      omega (
        arith,
        in_all_rings-update rx (update (rings rx) w r) lt,
        sum_below-change (k.n_ring rx) w f g lw
            (λ i d. ap (λ t. count a (addrs (ops.contents t))) (update_ne (rings rx) w r i d)),
        ap (λ t. count a (addrs (ops.contents t))) (update_self (rings rx) w r),
      )

module _ {R C F : Type 0} ⦃fp : Arithmetic F⦄ (ops : Ring R) (cond : Cond C) (k : Setting) where
  count_mbufs-freed :
      (a global : ℕ) (ms : List Mbuf) (s : Array (PktCount F) × List ℕ)
      → let s' = count_mbufs ops cond k global ms s in
        (count a s'.1 ≡ count a s.1 + count a (addrs ms)) × (length s'.1 ≡ length s.1 + length ms)
  unfolding count_mbufs
  count_mbufs-freed a global [] s = (omega (arith, count-none a), omega arith)
  count_mbufs-freed a global (m ∷ ms) s =
      let (freed, many) =
        count_mbufs-freed a global ms (count_mbuf ops cond k global s.0 m, s.1 ++ m.addr ∷ []) in
      (
        omega (arith, freed, count-freed a s.1 m ms),
        omega (arith, many, length-append s.1 (m.addr ∷ [])),
      )

  count_taken-freed :
      (a rx w : ℕ) (bufs : List Mbuf) (s : State R C F)
      → let s' = count_taken ops cond k rx w bufs s in
        (count a s'.freed ≡ count a s.freed + count a (addrs bufs))
        × (length s'.freed ≡ length s.freed + length bufs)
        × (s'.rings ≡ s.rings)
        × (s'.ring_loss ≡ s.ring_loss)
  unfolding count_taken
  count_taken-freed a rx w [] s = (omega (arith, count-none a), omega arith, refl, refl)
  count_taken-freed a rx w (m ∷ ms) s =
      let (freed, many) = count_mbufs-freed a _ (m ∷ ms) (s.pkt_ctr, s.freed) in
      (freed, many, refl, refl)

  module _ (fifo : IsFifo ops) (a : ℕ) where
    step-buffers :
        (e : Event) (es : List Event) (s : State R C F)
        → Within k e
        → let s' = step ops cond k e s in
          in_all_rings ops k s'.rings a + count a s'.freed + count a (addrs (arrivals es))
          ≡ in_all_rings ops k s.rings a + count a s.freed + count a (addrs (arrivals (e ∷ es)))
    unfolding step receive_queue lthread_tx_per_ring cond_wait arrivals
    step-buffers (receive rx queueid bufs) es s (lt, some, _) =
        let r = lthread_rx_queue ops (k.n_ring rx) queueid bufs (view ops cond k rx s) in
        omega (
          arith,
          in_all_rings-update ops k a s.rings rx r.rings lt,
          queue-buffers ops fifo (k.n_ring rx) some a queueid bufs (view ops cond k rx s),
          count-addrs a bufs (arrivals es),
        )
    step-buffers (dequeue rx w) es s (lt, lw, _) =
        elim (Bool-cases (at_dequeue ops cond k rx w s)) [
          | inr off ↦ rw off refl
          | inl on ↦
              let taken = ops.dequeue_burst (s.rings rx w) burst_size in
              let s0 = record s { rings = update_2 s.rings rx w taken.1 } in
              let (freed, _, rings, _) = count_taken-freed a rx w taken.0 s0 in
              rw (on, rings)
                (omega (
                  arith,
                  freed,
                  in_all_rings-update_2 ops k a s.rings rx w taken.1 lt lw,
                  ap (λ t. count a (addrs t)) (fifo.dequeue_gives (s.rings rx w) burst_size).1,
                  count-addrs a taken.0 (ops.contents taken.1),
                ))
        ]
    step-buffers (wait rx w) es s h = elim (Bool-cases (s.emptied rx w)) [
      | inl on ↦ rw on refl
      | inr off ↦ rw off refl
    ]

  module _ (fifo : IsFifo ops) where
    step-loss :
        (e : Event) (es : List Event) (s : State R C F)
        → Within k e
        → s.ring_loss + length (arrivals (e ∷ es)) < 2 ^ 31
        → let s' = step ops cond k e s in
          (s'.ring_loss + length (batch ops cond k e s) + length s.freed
            ≡ s.ring_loss + length s'.freed)
          × (s'.ring_loss + length (arrivals es) < 2 ^ 31)
    unfolding step batch receive_queue lthread_tx_per_ring cond_wait arrivals
    step-loss (receive rx queueid bufs) es s (lt, some, _) few =
        let len = length-append bufs (arrivals es) in
        let (loss, most) =
          queue-loss ops fifo (k.n_ring rx) some queueid bufs (view ops cond k rx s)
            (omega (arith, few, len)) in
        (omega (arith, loss), omega (arith, most, few, len))
    step-loss (dequeue rx w) es s (lt, lw, _) few =
        elim (Bool-cases (at_dequeue ops cond k rx w s)) [
          | inr off ↦ rw off (omega arith, few)
          | inl on ↦
              let taken = ops.dequeue_burst (s.rings rx w) burst_size in
              let s0 = record s { rings = update_2 s.rings rx w taken.1 } in
              let (_, many, _, loss) = count_taken-freed 0 rx w taken.0 s0 in
              rw (on, loss) (omega (arith, many), few)
        ]
    step-loss (wait rx w) es s h few = elim (Bool-cases (s.emptied rx w)) [
      | inl on ↦ rw on (omega arith, few)
      | inr off ↦ rw off (omega arith, few)
    ]

    -- Whatever the order in which the threads run, every buffer that the NIC delivers is in a ring or
    -- was given back, once for each time that it was delivered; and of the buffers that were given
    -- back, those that were not taken out of a ring are the ones that `ring_loss` counts. The rings are
    -- first in, first out, the threads exist, a receive thread that receives has a ring, the numbers
    -- of queues and counting threads are below RX_RINGS, and fewer than 2 ^ 31 buffers come in, with
    -- those that `ring_loss` has counted before.
    pub run-buffers :
        (a : ℕ) (es : List Event) (s : State R C F)
        → All (Within k) es
        → s.ring_loss + length (arrivals es) < 2 ^ 31
        → let s' = run ops cond k es s in
          (in_all_rings ops k s'.rings a + count a s'.freed
            ≡ in_all_rings ops k s.rings a + count a s.freed + count a (addrs (arrivals es)))
          × (s'.ring_loss + total (batches ops cond k es s) + length s.freed
              ≡ s.ring_loss + length s'.freed)
    unfolding run batches total arrivals
    run-buffers a [] s h few = (omega (arith, count-none a), omega arith)
    run-buffers a (e ∷ es) s h few =
        let s1 = step ops cond k e s in
        let (here, rest) = step-loss e es s h.0 few in
        let (buffers, loss) = run-buffers a es s1 h.1 rest in
        (omega (arith, buffers, step-buffers fifo a e es s h.0), omega (arith, loss, here))
