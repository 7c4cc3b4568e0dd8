-- ===== src/Lthread/Spawn.antt =====
-- `lthread_spawner` of lthread/main.c with the threads that it creates: the receive threads
-- initialise their condition variables and count themselves in `rx_counter`, the spawner waits for all
-- of them, and a counting thread reads its condition variable when it starts. The increments of
-- `rx_counter` are atomic; it has 16 bits, more than the receive threads.
pub mod Completion
pub mod Ready
use flo_watcher_dpdk.Common.{ℕ, ◌+◌, ◌≤◌, ◌<◌, ◌≡◌, Bool, true, false, Array, update}

-- how far the spawner is, the counter, the receive threads that have initialised their condition
-- variables, those that have counted themselves, and the counting threads that have read theirs
pub record Threads : Type 0 where
  pub created_rx : ℕ
  pub awaited : Bool
  pub created_tx : ℕ
  pub rx_counter : ℕ
  pub initialised : Array Bool
  pub counted : Array Bool
  pub reading : Array Bool

abbrev pub none_yet : Threads
none_yet = record {
  created_rx = 0;
  awaited = false;
  created_tx = 0;
  rx_counter = 0;
  initialised = λ i. false;
  counted = λ i. false;
  reading = λ j. false;
}

-- the steps of the spawner, of the start of a receive thread, which initialises and then counts, and of
-- the start of a counting thread
pub data Step (n_rx_thread n_tx_thread : ℕ) (s : Threads) : Threads → Type 0 where
  create_rx :
      s.created_rx < n_rx_thread
      → Step n_rx_thread n_tx_thread s (record s { created_rx = s.created_rx + 1 })
  start_rx :
      (i : ℕ)
      → i < s.created_rx
      → s.initialised i ≡ false
      → Step n_rx_thread n_tx_thread s (record s { initialised = update s.initialised i true })
  count_rx :
      (i : ℕ)
      → s.initialised i ≡ true
      → s.counted i ≡ false
      → Step n_rx_thread n_tx_thread s
          (record s { counted = update s.counted i true; rx_counter = s.rx_counter + 1 })
  stop_waiting :
      s.created_rx ≡ n_rx_thread
      → n_rx_thread ≤ s.rx_counter
      → Step n_rx_thread n_tx_thread s (record s { awaited = true })
  create_tx :
      s.awaited ≡ true
      → s.created_tx < n_tx_thread
      → Step n_rx_thread n_tx_thread s (record s { created_tx = s.created_tx + 1 })
  start_tx :
      (j : ℕ)
      → j < s.created_tx
      → Step n_rx_thread n_tx_thread s (record s { reading = update s.reading j true })

pub data Reach (n_rx_thread n_tx_thread : ℕ) : Threads → Type 0 where
  start : Reach n_rx_thread n_tx_thread none_yet
  later :
      {s t : Threads}
      → Reach n_rx_thread n_tx_thread s
      → Step n_rx_thread n_tx_thread s t
      → Reach n_rx_thread n_tx_thread t
