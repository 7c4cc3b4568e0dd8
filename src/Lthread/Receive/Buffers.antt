-- ===== src/Lthread/Receive/Buffers.antt =====
-- `lthread_rx` of lthread/main.c: where the buffers of the bursts go, and what is counted as lost.
use native.Mathlib.Nat.{mod-lt}
use mathlib.Core.List.{append-nil}
use flo_watcher_dpdk.Common.{
  ℕ, zero, suc, ◌+◌, ◌-◌, ◌%◌, ◌≤◌, ◌<◌, ◌^◌, ◌≡◌, refl, sym, ap, List, [], ◌∷◌, ◌++◌, length,
  length-append, take, drop, take-drop, count, count-append, sum_below, Array, update, ltb, ◌==◌,
  if◌then◌else◌, arith, Bool-cases, inl, inr,
}
use flo_watcher_dpdk.Buckets.{addrs}
use flo_watcher_dpdk.Buckets.Addrs.{count-addrs, count-none, length-addrs}
use flo_watcher_dpdk.Buckets.Partition.{sum_below-step}
use flo_watcher_dpdk.Dpdk.{Mbuf}
use flo_watcher_dpdk.Lthread.Receive.{State, add_int, lthread_rx_queue}
use flo_watcher_dpdk.Ring.{Ring, IsFifo}

-- how often a buffer is in the rings
unfoldable pub in_rings : {R : Type 0} → Ring R → ℕ → Array R → ℕ → ℕ
in_rings ops n_ring rings a = sum_below n_ring (λ w. count a (addrs (ops.contents (rings w))))

drop-all : (n : ℕ) (ms : List Mbuf) → length ms ≤ n → drop n ms ≡ []
drop-all zero [] h = refl
drop-all zero (m ∷ ms) h = absurd (omega arith)
drop-all (suc n) [] h = refl
drop-all (suc n) (m ∷ ms) h = drop-all n ms (omega arith)

length-drop : (n : ℕ) (ms : List Mbuf) → length (drop n ms) ≡ length ms - n
length-drop zero ms = omega arith
length-drop (suc n) [] = omega arith
length-drop (suc n) (m ∷ ms) = omega (arith, length-drop n ms)

addrs-nil : (xs : List ℕ) → xs ++ addrs [] ≡ xs
unfolding addrs
addrs-nil xs = append-nil xs

module _ {R : Type 0} (ops : Ring R) (n_ring : ℕ) where
  queue-none :
      (a queueid : ℕ) (s : State R)
      → let s' = lthread_rx_queue ops n_ring queueid [] s in
        in_rings ops n_ring s'.rings a + count a s'.freed
        ≡ in_rings ops n_ring s.rings a + count a s.freed + count a (addrs [])
  unfolding lthread_rx_queue
  queue-none a queueid s = omega (arith, count-none a)

  queue-same :
      (queueid : ℕ) (s : State R)
      → let s' = lthread_rx_queue ops n_ring queueid [] s in
        (s'.ring_loss ≡ s.ring_loss) × (s'.freed ≡ s.freed)
  unfolding lthread_rx_queue
  queue-same queueid s = (refl, refl)

module _ {R : Type 0} (ops : Ring R) (fifo : IsFifo ops) (n_ring : ℕ) (some : 0 < n_ring) where
  -- what the round frees is what the ring does not take
  queue-freed :
      (queueid : ℕ) (m : Mbuf) (ms : List Mbuf) (s : State R)
      → let k = (ops.enqueue_burst (s.rings ((s.worker_id + 1) % n_ring)) (m ∷ ms)).0 in
        let s' = lthread_rx_queue ops n_ring queueid (m ∷ ms) s in
        s'.freed ≡ s.freed ++ addrs (drop k (m ∷ ms))
  unfolding lthread_rx_queue
  queue-freed queueid m ms s =
      let k = (ops.enqueue_burst (s.rings ((s.worker_id + 1) % n_ring)) (m ∷ ms)).0 in
      elim (Bool-cases (ltb k (length (m ∷ ms)))) [
        | inl lost ↦ rw lost refl
        | inr all ↦
            let none : drop k (m ∷ ms) ≡ [] = drop-all k (m ∷ ms) (ground arith) in
            rw (all, none) (sym (addrs-nil s.freed))
      ]

  -- and is added to the loss counter, which holds it
  queue-lost :
      (queueid : ℕ) (m : Mbuf) (ms : List Mbuf) (s : State R)
      → s.ring_loss + length (m ∷ ms) < 2 ^ 31
      → let k = (ops.enqueue_burst (s.rings ((s.worker_id + 1) % n_ring)) (m ∷ ms)).0 in
        (lthread_rx_queue ops n_ring queueid (m ∷ ms) s).ring_loss
        ≡ s.ring_loss + (length (m ∷ ms) - k)
  unfolding lthread_rx_queue add_int
  queue-lost queueid m ms s few = ground arith

  queue-rings :
      (a queueid : ℕ) (m : Mbuf) (ms : List Mbuf) (s : State R)
      → let k = (ops.enqueue_burst (s.rings ((s.worker_id + 1) % n_ring)) (m ∷ ms)).0 in
        in_rings ops n_ring (lthread_rx_queue ops n_ring queueid (m ∷ ms) s).rings a
        ≡ count a (addrs (take k (m ∷ ms))) + in_rings ops n_ring s.rings a
  unfolding lthread_rx_queue in_rings update
  queue-rings a queueid m ms s =
      let w = (s.worker_id + 1) % n_ring in
      let taken = ops.enqueue_burst (s.rings w) (m ∷ ms) in
      let new = take taken.0 (m ∷ ms) in
      let fits = (fifo.enqueue_takes (s.rings w) (m ∷ ms)).1 in
      sum_below-step n_ring w (count a (addrs new))
        (λ l. count a (addrs (ops.contents (s.rings l))))
        (λ l. count a (addrs (ops.contents (if l == w then taken.1 else s.rings l))))
        (mod-lt (s.worker_id + 1) some)
        (λ l. elim (Bool-cases (l == w)) [
          | inl own ↦
              let e : l ≡ w = ground arith in
              rw (own, fits, e) (omega (arith, count-addrs a (ops.contents (s.rings w)) new))
          | inr other ↦ rw other refl
        ])

  pub queue-buffers :
      (a queueid : ℕ) (bufs : List Mbuf) (s : State R)
      → let s' = lthread_rx_queue ops n_ring queueid bufs s in
        in_rings ops n_ring s'.rings a + count a s'.freed
        ≡ in_rings ops n_ring s.rings a + count a s.freed + count a (addrs bufs)
  queue-buffers a queueid [] s = queue-none ops n_ring a queueid s
  queue-buffers a queueid (m ∷ ms) s =
      let k = (ops.enqueue_burst (s.rings ((s.worker_id + 1) % n_ring)) (m ∷ ms)).0 in
      let bufs = m ∷ ms in
      omega (
        arith,
        queue-rings a queueid m ms s,
        ap (count a) (queue-freed queueid m ms s),
        count-append a s.freed (addrs (drop k bufs)),
        count-addrs a (take k bufs) (drop k bufs),
        ap (λ t. count a (addrs t)) (take-drop k bufs),
      )

  -- The loss counter grows by the number of buffers that are freed, and by no more than came in.
  pub queue-loss :
      (queueid : ℕ) (bufs : List Mbuf) (s : State R)
      → s.ring_loss + length bufs < 2 ^ 31
      → let s' = lthread_rx_queue ops n_ring queueid bufs s in
        (s'.ring_loss + length s.freed ≡ s.ring_loss + length s'.freed)
        × (s'.ring_loss ≤ s.ring_loss + length bufs)
  queue-loss queueid [] s few =
      let (loss, freed) = queue-same ops n_ring queueid s in
      (omega (arith, loss, ap length freed), omega (arith, loss))
  queue-loss queueid (m ∷ ms) s few =
      let k = (ops.enqueue_burst (s.rings ((s.worker_id + 1) % n_ring)) (m ∷ ms)).0 in
      let loss = queue-lost queueid m ms s few in
      (
        omega (
          arith,
          loss,
          ap length (queue-freed queueid m ms s),
          length-append s.freed (addrs (drop k (m ∷ ms))),
          length-addrs (drop k (m ∷ ms)),
          length-drop k (m ∷ ms),
        ),
        omega (arith, loss),
      )
