-- ===== src/Tests/PthreadChains.antt =====
-- The theorems about the LINKED_LIST and HASH_LIST builds of pthread/main.c at two receive and three
-- counting threads, with rings that hold one packet, and memory that is never refused.
use flo_watcher_dpdk.Common.{◌≡◌, List, [], ◌∷◌, ◌++◌, Array}
use flo_watcher_dpdk.Buckets.{addrs}
use flo_watcher_dpdk.Common.Int.{ℤ, pos}
use flo_watcher_dpdk.Dpdk.{Mbuf}
use flo_watcher_dpdk.Outcome.{Ensures}
use flo_watcher_dpdk.Pthread.Chains.System.{State, served, run}
use flo_watcher_dpdk.Pthread.Chains.System.Totals.{run-freed_system}
use flo_watcher_dpdk.Pthread.HashList
use flo_watcher_dpdk.Pthread.HashList.Exact as HashExact
use flo_watcher_dpdk.Pthread.LinkedList
use flo_watcher_dpdk.Pthread.LinkedList.Flows.{rss}
use flo_watcher_dpdk.Tests.{integers, plenty}
use flo_watcher_dpdk.Tests.Pthread.{single}
use flo_watcher_dpdk.Tests.System.{program, turns}

-- one packet of each of two queues, of the same flow
abbrev packets : List Mbuf
packets = record { addr = 0; rss = 0x10007 } ∷ record { addr = 1; rss = 0x10007 } ∷ []

abbrev empty_rings : Array (List Mbuf)
empty_rings n = []

abbrev taken : List Mbuf
taken = served single program turns empty_rings

abbrev list_start : State (List Mbuf) (LinkedList.Table ℤ)
list_start = record {
  rings = empty_rings;
  table =
      (λ l. record { rss_high = 0; ctr = 0; ipg = 0; avg = pos 0; std_dev = pos 0 } ∷ [], 65536);
  g_ctr = λ q. 0;
  freed = [];
}

run-freed_system_example :
    Ensures
      (λ s'. s'.freed ≡ list_start.freed ++ addrs taken)
      (run single program (LinkedList.count_packet plenty) turns list_start)
run-freed_system_example =
    run-freed_system single program (LinkedList.count_packet plenty) turns list_start

abbrev bucket : HashList.PktCount ℤ
bucket = record {
  hi_f1 = 0;
  hi_f2 = 0;
  ctr0 = 0;
  ctr1 = 0;
  ipg0 = 0;
  ipg1 = 0;
  avg0 = pos 0;
  avg1 = pos 0;
  std_dev0 = pos 0;
  std_dev1 = pos 0;
  flows = record { rss_high = 0; ctr = 0; ipg = 0; avg = pos 0; std_dev = pos 0 } ∷ [];
}

abbrev hash_start : State (List Mbuf) (HashList.Table ℤ)
hash_start = record {
  rings = empty_rings;
  table = (λ l. bucket, 65536);
  g_ctr = λ q. 0;
  freed = [];
}
