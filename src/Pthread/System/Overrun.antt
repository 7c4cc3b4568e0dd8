-- ===== src/Pthread/System/Overrun.antt =====
-- pthread/main.c with the array of counters that `main` allocates.
use flo_watcher_dpdk.Common.{◌≡◌, ◌⊎◌, List, []}
use flo_watcher_dpdk.Double.{Arithmetic}
use flo_watcher_dpdk.Dpdk.{Mbuf}
use flo_watcher_dpdk.Outcome.{ok, fault}
use flo_watcher_dpdk.Pthread.Startup.{Role}
use flo_watcher_dpdk.Pthread.System.{State, Program, act, took}
use flo_watcher_dpdk.Pthread.Threads.{LcoreRxQueue}
use flo_watcher_dpdk.Ring.{Ring}

module _ {R F : Type 0} ⦃fp : Arithmetic F⦄ (ops : Ring R) (k : Program) where
  -- a round takes no packet and goes on, or it faults
  abbrev Stops : Role → (LcoreRxQueue → List Mbuf) → State R F → Type 0
  Stops role deliver s =
      ((took ops k role deliver s ≡ []) × (s' : State R F) × (act ops k role deliver s ≡ ok s'))
      ⊎ (act ops k role deliver s ≡ fault)
