-- ===== src/Lthread/Spawn/Completion.antt =====
-- The start of the threads of lthread/main.c comes to its end.
use flo_watcher_dpdk.Common.{ℕ, zero, suc, ◌+◌, ◌*◌, ◌≤◌, ◌≡◌, inl, inr, arith, Bool-cases, ltb}
use flo_watcher_dpdk.Lthread.Spawn.{Threads, Step, Reach, later}
use flo_watcher_dpdk.Lthread.Spawn.Ready.{progress, progress-le, spawn-progress}

-- any number of steps
pub data Steps (n_rx_thread n_tx_thread : ℕ) : Threads → Threads → Type 0 where
  done : {s : Threads} → Steps n_rx_thread n_tx_thread s s
  next :
      {s t u : Threads}
      → Step n_rx_thread n_tx_thread s t
      → Steps n_rx_thread n_tx_thread t u
      → Steps n_rx_thread n_tx_thread s u

module _ {n_rx_thread n_tx_thread : ℕ} where
  complete_within :
      (fuel : ℕ) {s : Threads}
      → Reach n_rx_thread n_tx_thread s
      → 3 * n_rx_thread + 1 + n_tx_thread ≤ fuel + progress n_rx_thread s
      → (t : Threads) × Steps n_rx_thread n_tx_thread s t × (t.created_tx ≡ n_tx_thread)
  complete_within zero {s} r h = elim (Bool-cases (ltb s.created_tx n_tx_thread)) [
    | inr all ↦ (s, done, ground (arith, (progress-le r).1))
    | inl more ↦
        let (t, st, gain) = spawn-progress r (ground arith) in
        absurd (omega (arith, (progress-le (later r st)).0))
  ]
  complete_within (suc fuel) {s} r h = elim (Bool-cases (ltb s.created_tx n_tx_thread)) [
    | inr all ↦ (s, done, ground (arith, (progress-le r).1))
    | inl more ↦
        let (t, st, gain) = spawn-progress r (ground arith) in
        let (u, steps, end) = complete_within fuel (later r st) (omega arith) in
        (u, next st steps, end)
  ]

  -- The start can always be completed: from every reachable state some steps lead to one in which all
  -- counting threads are created.
  pub spawn-completes :
      {s : Threads}
      → Reach n_rx_thread n_tx_thread s
      → (t : Threads) × Steps n_rx_thread n_tx_thread s t × (t.created_tx ≡ n_tx_thread)
  spawn-completes r = complete_within (3 * n_rx_thread + 1 + n_tx_thread) r (omega arith)
