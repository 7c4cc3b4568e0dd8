-- ===== src/Pthread/System/Rates.antt =====
-- The lines that `timer_cb` of pthread/main.c prints when all threads run.
use flo_watcher_dpdk.Common.{ℕ, ◌<◌, List, [], ◌∷◌, length, sum_below, ◌≤◌, ◌^◌}
use flo_watcher_dpdk.Double.{Arithmetic}
use flo_watcher_dpdk.Outcome.{Outcome}
use flo_watcher_dpdk.Pthread.Startup.Wired.{Wired}
use flo_watcher_dpdk.Pthread.System.{State, Program, Turn, took, trace, run, following}
use flo_watcher_dpdk.Pthread.System.Quiet.{Quiet}
use flo_watcher_dpdk.Ring.{Ring, IsFifo}
use flo_watcher_dpdk.Statistics.{EthStats, first_enabled}
use flo_watcher_dpdk.Statistics.Rates.{IsExact}

module _ {R F : Type 0} ⦃fp : Arithmetic F⦄ (ops : Ring R) (k : Program) where
  -- for each second the packets that the counting threads take, and those that the first enabled
  -- port has dropped so far
  unfoldable pub seconds_of : List (List Turn × (ℕ → EthStats)) → State R F → List (ℕ × ℕ)
  seconds_of [] s = []
  seconds_of ((ts, stats) ∷ seconds) s =
      let port = first_enabled k.setup.config.enabled_port_mask k.dev_count 0 in
      (length (trace ops k (took ops k) ts s), (stats port).imissed)
      ∷ following (run ops k ts s) (seconds_of seconds)

  module _ (fifo : IsFifo ops) (w : Wired k.setup) (Is : F → ℕ → Type 0) (laws : IsExact fp Is)
      (room : k.setup.n_rx_thread ≤ k.room) (ends : k.setup.n_rx_thread < 2 ^ 8) where
    -- the counters of the receive threads in use
    abbrev pub counted : State R F → ℕ
    counted s = sum_below k.setup.n_rx_thread s.g_ctr
