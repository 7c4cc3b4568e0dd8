-- ===== src/RunToCompletion/Report.antt =====
-- `handler` of run_to_completion/main.c in the three builds: what it prints, and what it writes to the
-- file under WRITE_FILE.
use flo_watcher_dpdk.Common.{
  ℕ, zero, suc, ◌+◌, Bool, Option, none, some, List, [], ◌∷◌, Array, if◌then◌else◌,
}
use flo_watcher_dpdk.RunToCompletion.{flow_num, rx_rings}
use flo_watcher_dpdk.RunToCompletion.DoubleHash
use flo_watcher_dpdk.RunToCompletion.HashList
use flo_watcher_dpdk.RunToCompletion.LinkedList
use flo_watcher_dpdk.Statistics.{EthStats, received}
pub mod Balance
pub mod Sessions

-- what is said of the table: the miscounted packets, or the flows and their packets
pub data Shown : Type 0 where
  miscounts : ℕ → Shown
  totals : (flows packets : ℕ) → Shown

pub record Report : Type 0 where
  pub table : Shown
  pub received_pkts : ℕ
  pub dropped : ℕ
  pub erroneous : ℕ
  pub queues : List ℕ
  pub written : Option (List ℕ)

-- for (i = 0; i < RX_RINGS; i++), from `i` on in the rounds that are left
unfoldable pub queue_counters : Array ℕ → ℕ → ℕ → List ℕ
queue_counters re zero i = []
queue_counters re (suc rounds) i = re i ∷ queue_counters re rounds (i + 1)

-- the part that the builds share; `re[1]`, which is written, is out of bounds
unfoldable pub finish : Bool → EthStats → Array ℕ → Shown → Report
finish write_file eth_stats re table =
    let file = received eth_stats ∷ eth_stats.imissed ∷ re 0 ∷ re 1 ∷ [] in
    record {
      table = table;
      received_pkts = received eth_stats;
      dropped = eth_stats.imissed;
      erroneous = eth_stats.ierrors;
      queues = queue_counters re rx_rings 0;
      written = if write_file then some file else none;
    }

module _ {F : Type 0} (write_file : Bool) (eth_stats : EthStats) where
  unfoldable pub handler : DoubleHash.State F → Report
  handler s =
      finish write_file eth_stats s.re (miscounts (DoubleHash.miscounted flow_num s.pkt_ctr))

  unfoldable pub handler_linked_list : LinkedList.State F → Report
  handler_linked_list s =
      let (fls, sum) = LinkedList.report flow_num s.flows in
      finish write_file eth_stats s.re (totals fls sum)

  unfoldable pub handler_hash_list : HashList.State F → Report
  handler_hash_list s =
      let (flows, sum) = HashList.report flow_num s.pkt_ctr in
      finish write_file eth_stats s.re (totals flows sum)
