-- ===== src/Pthread/Startup/Roles.antt =====
-- `pthread_run`: which lcore runs which thread.
use flo_watcher_dpdk.Common.{
  ℕ, zero, suc, ◌+◌, ◌≤◌, ◌<◌, ◌≡◌, refl, ap, ◌≢◌, false, none, some, arith, ◌==◌, Bool-cases, inl,
  inr,
}
use flo_watcher_dpdk.Pthread.Startup.{Setup, receives, counts, find_thread, pthread_run}

find_thread-found :
    (lcores : ℕ → ℕ) (lcore rounds i j : ℕ)
    → i ≤ j
    → j < i + rounds
    → lcores j ≡ lcore
    → ((m : ℕ) → m < j → lcores m ≢ lcore)
    → find_thread lcores lcore rounds i ≡ some j
unfolding find_thread
find_thread-found lcores lcore zero i j h k e first = absurd (omega arith)
find_thread-found lcores lcore (suc rounds) i j h k e first =
    elim (Bool-cases (lcores i == lcore)) [
      | inl here ↦ let same : i ≡ j = ground (arith, first i) in rw here (ap some same)
      | inr later ↦
          let beyond : i ≢ j = ground arith in
          rw later
            (find_thread-found lcores lcore rounds (i + 1) j (omega arith) (omega arith) e first)
    ]

find_thread-none :
    (lcores : ℕ → ℕ) (lcore rounds i : ℕ)
    → ((m : ℕ) → m < i + rounds → lcores m ≢ lcore)
    → find_thread lcores lcore rounds i ≡ none
unfolding find_thread
find_thread-none lcores lcore zero i h = refl
find_thread-none lcores lcore (suc rounds) i h =
    let other : (lcores i == lcore) ≡ false = ground (arith, h i) in
    rw other (find_thread-none lcores lcore rounds (i + 1) (λ m lt. h m (omega arith)))

-- An lcore runs the first receive thread that is configured for it.
pthread_run-receives :
    (s : Setup) (j : ℕ)
    → j < s.n_rx_thread
    → ((m : ℕ) → m < j → (s.rx_thread m).lcore_id ≢ (s.rx_thread j).lcore_id)
    → pthread_run s (s.rx_thread j).lcore_id ≡ receives j
unfolding pthread_run
pthread_run-receives s j lt first =
    rw
      (
        pthread_run,
        find_thread-found (λ i. (s.rx_thread i).lcore_id) (s.rx_thread j).lcore_id s.n_rx_thread 0 j
            (omega arith) (omega arith) refl first,
      )
      refl

-- An lcore for which no receive thread is configured runs the first counting thread that is: where
-- the lcores of the configuration differ, all its threads run.
pthread_run-counts :
    (s : Setup) (j : ℕ)
    → j < s.n_tx_thread
    → ((m : ℕ) → m < s.n_rx_thread → (s.rx_thread m).lcore_id ≢ (s.tx_thread j).lcore_id)
    → ((m : ℕ) → m < j → (s.tx_thread m).lcore_id ≢ (s.tx_thread j).lcore_id)
    → pthread_run s (s.tx_thread j).lcore_id ≡ counts j
unfolding pthread_run
pthread_run-counts s j lt other first =
    rw
      (
        pthread_run,
        find_thread-none (λ i. (s.rx_thread i).lcore_id) (s.tx_thread j).lcore_id s.n_rx_thread 0
            (λ m lt. other m (omega arith)),
        find_thread-found (λ i. (s.tx_thread i).lcore_id) (s.tx_thread j).lcore_id s.n_tx_thread 0 j
            (omega arith) (omega arith) refl first,
      )
      refl
