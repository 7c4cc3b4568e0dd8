-- ===== src/Pthread/Report.antt =====
-- What pthread/main.c reports in the DOUBLE_HASH build: `timer_cb` once a second, and `handler` on
-- SIGINT.
use flo_watcher_dpdk.Common.{
  ℕ, zero, suc, ◌+◌, Bool, Option, none, some, List, [], ◌∷◌, Array, if◌then◌else◌, add64,
}
use flo_watcher_dpdk.Double.{Arithmetic}
use flo_watcher_dpdk.Pthread.{flow_num}
use flo_watcher_dpdk.Pthread.DoubleHash.{PktCount, count_flows}
use flo_watcher_dpdk.Statistics.{EthStats, received, first_enabled, Line, line}

-- for (i = 0; i < n_rx_thread; i++) sum += gCtr[i], from `i` on in the rounds that are left
unfoldable pub global_counter : Array ℕ → ℕ → ℕ → ℕ → ℕ
global_counter g_ctr zero i sum = sum
global_counter g_ctr (suc rounds) i sum = global_counter g_ctr rounds (i + 1) (add64 sum (g_ctr i))

-- the counters that this loop prints
unfoldable pub queue_counters : Array ℕ → ℕ → ℕ → List ℕ
queue_counters g_ctr zero i = []
queue_counters g_ctr (suc rounds) i = g_ctr i ∷ queue_counters g_ctr rounds (i + 1)

-- what `handler` prints, and what it writes to the file if it is to
pub record Report : Type 0 where
  pub port : ℕ
  pub received_pkts : ℕ
  pub dropped : ℕ
  pub erroneous : ℕ
  pub queues : List ℕ
  pub global : ℕ
  pub flows : ℕ
  pub written : Option (List ℕ)

-- what the reports are made from: the configuration, and what DPDK knows of its ports
pub record Source : Type 0 where
  pub enabled_port_mask : ℕ
  pub write_on : Bool
  pub n_rx_thread : ℕ
  pub dev_count : ℕ
  pub stats : ℕ → EthStats

-- `handler`; `gCtr[1]` is written whether there is a second receive thread or not
unfoldable pub handler : {F : Type 0} → Source → Array ℕ → Array (PktCount F) → Report
handler k g_ctr pkt_ctr =
    let port = first_enabled k.enabled_port_mask k.dev_count 0 in
    let eth_stats = k.stats port in
    let sum = count_flows flow_num pkt_ctr in
    let file = received eth_stats ∷ eth_stats.imissed ∷ g_ctr 0 ∷ g_ctr 1 ∷ sum ∷ [] in
    record {
      port = port;
      received_pkts = received eth_stats;
      dropped = eth_stats.imissed;
      erroneous = eth_stats.ierrors;
      queues = queue_counters g_ctr k.n_rx_thread 0;
      global = global_counter g_ctr k.n_rx_thread 0 0;
      flows = sum;
      written = if k.write_on then some file else none;
    }

module _ {F : Type 0} ⦃fp : Arithmetic F⦄ where
  -- `timer_cb` with what `old` is from its last call
  unfoldable pub timer_cb : Bool → Source → Array ℕ → Array (PktCount F) → F → Line F × F
  timer_cb ipg k g_ctr pkt_ctr =
      let c = pkt_ctr 65246 in
      line g_ctr k.n_rx_thread (k.stats (first_enabled k.enabled_port_mask k.dev_count 0)).imissed
        (if ipg then some c.avg0 else none) (if ipg then some c.std_dev0 else none)
