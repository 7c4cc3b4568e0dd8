-- ===== src/Lthread/Receive/Turns.antt =====
-- `lthread_rx` of lthread/main.c: the rings take turns, and the packets since the last signal.
use native.Mathlib.Nat.{mod-lt, mod-add-mod, mod-eq_of_lt}
use flo_watcher_dpdk.Common.{
  ℕ, suc, ◌+◌, ◌%◌, ◌<◌, ◌≡◌, sym, ap, ◌∙◌, List, [], ◌∷◌, update, leb, ◌==◌, arith, Bool-cases,
  inl, inr,
}
use flo_watcher_dpdk.Dpdk.{Mbuf}
use flo_watcher_dpdk.Lthread.{burst_size}
use flo_watcher_dpdk.Lthread.Receive.{State, lthread_rx_queue, lthread_rx}
use flo_watcher_dpdk.Ring.{Ring}

-- the number of bursts that bring a packet
unfoldable pub turns : List (ℕ × List Mbuf) → ℕ
turns [] = 0
turns ((queueid, []) ∷ rest) = turns rest
turns ((queueid, m ∷ ms) ∷ rest) = suc (turns rest)

module _ {R : Type 0} (ops : Ring R) (n_ring : ℕ) (some : 0 < n_ring) where
  queue-len :
      (queueid : ℕ) (bufs : List Mbuf) (s : State R)
      → ((w : ℕ) → s.len w < burst_size)
      → (w : ℕ) → (lthread_rx_queue ops n_ring queueid bufs s).len w < burst_size
  unfolding lthread_rx_queue update
  queue-len queueid [] s h w = h w
  queue-len queueid (m ∷ ms) s h w =
      let worker = (s.worker_id + 1) % n_ring in
      let new_len = s.len worker + (ops.enqueue_burst (s.rings worker) (m ∷ ms)).0 in
      elim (Bool-cases (w == worker)) [
        | inl own ↦ elim (Bool-cases (leb burst_size new_len)) [
          | inl full ↦ rw (own, full) (omega arith)
          | inr room ↦ rw (own, room) (ground arith)
        ]
        | inr other ↦ rw other (h w)
      ]

  turn-none : (a : ℕ) → a < n_ring → a ≡ (a + 0) % n_ring
  turn-none a small =
      let same : a ≡ a + 0 = omega arith in sym (mod-eq_of_lt small) ∙ ap (λ n. n % n_ring) same

  turn-suc : (a k : ℕ) → ((a + 1) % n_ring + k) % n_ring ≡ (a + suc k) % n_ring
  turn-suc a k =
      let regroup : (a + 1) + k ≡ a + suc k = omega arith in
      mod-add-mod (a + 1) n_ring k ∙ ap (λ n. n % n_ring) regroup

  -- The rings take turns: where the worker of the last burst is a ring and no count of packets since
  -- a signal has reached BURST_SIZE, the worker after any bursts is found by as many steps round the
  -- rings as there were bursts with a packet, and every count is still below BURST_SIZE.
  rx-turns :
      (bursts : List (ℕ × List Mbuf)) (s : State R)
      → s.worker_id < n_ring
      → ((w : ℕ) → s.len w < burst_size)
      → let s' = lthread_rx ops n_ring bursts s in
        (s'.worker_id ≡ (s.worker_id + turns bursts) % n_ring) × ((w : ℕ) → s'.len w < burst_size)
  unfolding lthread_rx lthread_rx_queue turns
  rx-turns [] s small h = (turn-none s.worker_id small, h)
  rx-turns ((queueid, []) ∷ rest) s small h = rx-turns rest s small h
  rx-turns ((queueid, m ∷ ms) ∷ rest) s small h =
      let s1 = lthread_rx_queue ops n_ring queueid (m ∷ ms) s in
      let (worker, len) =
        rx-turns rest s1 (mod-lt (s.worker_id + 1) some) (queue-len queueid (m ∷ ms) s h) in
      (worker ∙ turn-suc s.worker_id (turns rest), len)
