-- ===== src/Hardware.antt =====
-- hardware/main.c: a lcore receives packets and measures how long the access to their headers takes.
-- Its `port_init` and `main` are those of run_to_completion less the tables, with one queue.
pub mod Totals
use flo_watcher_dpdk.Common.{ℕ, ◌+◌, List, [], ◌∷◌, ◌++◌, add64, sub64}
use flo_watcher_dpdk.Double.{Arithmetic}
use flo_watcher_dpdk.Dpdk.{Mbuf}
use flo_watcher_dpdk.Outcome.{Outcome, ok}
use flo_watcher_dpdk.RunToCompletion.Startup
use flo_watcher_dpdk.RunToCompletion.Startup.{Device}

-- a packet, with what `rte_timespec_to_ns` gives for `start` and `stop`
pub record Timed : Type 0 where
  pub mbuf : Mbuf
  pub start : ℕ
  pub stop : ℕ

-- `diff`, `diff_t` and the log of freed buffers; the counter `i` is never read
pub record State : Type 0 where
  pub diff : ℕ
  pub diff_t : ℕ
  pub freed : List ℕ

-- the per-packet loop of `lcore_main`
unfoldable pub measure : List Timed → State → State
measure [] s = s
measure (t ∷ ts) s = measure ts (record {
  diff = add64 s.diff (sub64 t.stop t.start);
  diff_t = add64 s.diff_t 1;
  freed = s.freed ++ t.mbuf.addr ∷ [];
})

-- the endless loop, on the bursts that arrive
unfoldable pub lcore_main : List (List Timed) → State → State
lcore_main [] s = s
lcore_main (bufs ∷ rest) s = lcore_main rest (measure bufs s)

-- the average that `handler` prints
unfoldable pub average : {F : Type 0} ⦃fp : Arithmetic F⦄ → State → F
average ⦃fp⦄ s = fp.div (fp.of_u64 s.diff) (fp.of_u64 s.diff_t)

-- `main` up to the launch, with `PORT_ID` 0: which lcore polls which queue
unfoldable pub start_up : Device → List ℕ → Outcome (Unit {0} × List (ℕ × ℕ))
start_up dev lcores = Startup.start_up dev 0 lcores (ok tt)
