-- ===== src/Lthread/Report.antt =====
-- What lthread/main.c reports, compiled without NC: `timer_cb` once a second, and `handler` on SIGINT.
use flo_watcher_dpdk.Common.{
  ℕ, zero, suc, ◌+◌, Bool, Option, none, some, List, [], ◌∷◌, ◌++◌, Array, if◌then◌else◌, leb,
}
use flo_watcher_dpdk.Common.Int.{pos}
use flo_watcher_dpdk.Double.{Arithmetic}
use flo_watcher_dpdk.Lthread.{rx_rings}
use flo_watcher_dpdk.Lthread.DoubleHash.{report}
use flo_watcher_dpdk.Lthread.Pipeline.{State, Event, Setting, run}
use flo_watcher_dpdk.Lthread.Pipeline
use flo_watcher_dpdk.RunToCompletion.{flow_num}
use flo_watcher_dpdk.Ring.{Ring}
use flo_watcher_dpdk.Statistics.{EthStats, received, first_enabled, Line, line}
pub mod Totals

-- what the reports are made from: the options, the number of receive threads, and what DPDK knows of
-- its ports
pub record Source : Type 0 where
  pub enabled_port_mask : ℕ
  pub write : Bool
  pub n_rx_thread : ℕ
  pub nb_ports : ℕ
  pub stats : ℕ → EthStats

pub record Report (F : Type 0) : Type 0 where
  pub port : ℕ
  pub received_pkts : ℕ
  pub dropped : ℕ
  pub erroneous : ℕ
  pub queues : List (ℕ × F)
  pub flows : ℕ
  pub packets : ℕ
  pub ring_loss : ℕ
  pub written : Option (List ℕ)

-- the counters from `i` on in the rounds that are left
unfoldable pub counters : Array ℕ → ℕ → ℕ → List ℕ
counters re zero i = []
counters re (suc rounds) i = re i ∷ counters re rounds (i + 1)

module _ {F : Type 0} ⦃fp : Arithmetic F⦄ where
  -- re[i] and 1.0 * re[i] / batch_n[i], from `i` on in the rounds that are left
  unfoldable pub batch_sizes : Array ℕ → Array ℕ → ℕ → ℕ → List (ℕ × F)
  batch_sizes re batch_n zero i = []
  batch_sizes re batch_n (suc rounds) i =
      let size =
        fp.div (fp.mul (fp.of_int (pos 1)) (fp.of_u64 (re i))) (fp.of_int (pos (batch_n i))) in
      (re i, size) ∷ batch_sizes re batch_n rounds (i + 1)

module _ {R C F : Type 0} ⦃fp : Arithmetic F⦄ where
  unfoldable pub handler : Source → State R C F → Report F
  handler k s =
      let port = first_enabled k.enabled_port_mask k.nb_ports 0 in
      let eth_stats = k.stats port in
      let (flows, sum) = report flow_num s.pkt_ctr in
      let file =
        received eth_stats ∷ eth_stats.imissed ∷ (counters s.re k.n_rx_thread 0 ++ flows ∷ []) in
      record {
        port = port;
        received_pkts = received eth_stats;
        dropped = eth_stats.imissed;
        erroneous = eth_stats.ierrors;
        queues = batch_sizes s.re s.batch_n k.n_rx_thread 0;
        flows = flows;
        packets = sum;
        ring_loss = s.ring_loss;
        written = if k.write then some file else none;
      }

  -- `timer_cb` with what `old` is from its last call
  unfoldable pub timer_cb : Bool → Source → State R C F → F → Line F × F
  timer_cb ipg k s =
      let c = s.pkt_ctr 65246 in
      line s.re k.n_rx_thread (k.stats (first_enabled k.enabled_port_mask k.nb_ports 0)).imissed
        (if ipg then some c.avg0 else none) (if ipg then some c.std_dev0 else none)

  -- the lines that `timer_cb` prints in a run: the events of each second, and what DPDK knows then. With
  -- more than RX_RINGS receive threads the call reads `re` behind its end, and from 256 on its loop
  -- does not end: no line is defined
  unfoldable pub watch :
      Ring R
      → Pipeline.Cond C
      → Setting
      → Source
      → List (List Event × (ℕ → EthStats))
      → State R C F
      → F
      → List (Line F)
  watch ops cond k known [] s old = []
  watch ops cond k known ((es, stats) ∷ seconds) s old =
      let s' = run ops cond k es s in
      let printed = timer_cb k.macros.ipg (record known { stats = stats }) s' old in
      let further = watch ops cond k known seconds s' printed.1 in
      if leb known.n_rx_thread rx_rings then printed.0 ∷ further else []
