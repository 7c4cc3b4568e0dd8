-- ===== src/Tests/RunToCompletion.antt =====
-- The theorems about run_to_completion/main.c at a few packets of four flows.
use flo_watcher_dpdk.Common.{
  ℕ, true, ◌+◌, ◌%◌, ◌<◌, ◌^◌, ◌≡◌, refl, ◌≢◌, [], ◌∷◌, arith, All, count, sum_below, u32_mod,
}
use flo_watcher_dpdk.Common.Int.{ℤ, pos}
use flo_watcher_dpdk.Buckets.{after, after_all, total}
use flo_watcher_dpdk.Outcome.{ok, Ends}
use flo_watcher_dpdk.Tally.{tally, distinct, zeros}
use flo_watcher_dpdk.RunToCompletion.{flow_num, index_high}
use flo_watcher_dpdk.RunToCompletion.Arrivals.{highs, MarkedBurst}
use flo_watcher_dpdk.RunToCompletion.DoubleHash
use flo_watcher_dpdk.RunToCompletion.DoubleHash.Counting.{Counted}
use flo_watcher_dpdk.RunToCompletion.DoubleHash.Runs.{double_hash-Counted}
use flo_watcher_dpdk.RunToCompletion.HashList
use flo_watcher_dpdk.RunToCompletion.HashList.Totals.{hash_list-tally}
use flo_watcher_dpdk.RunToCompletion.LinkedList
use flo_watcher_dpdk.RunToCompletion.LinkedList.Totals.{linked_list-tally}
use flo_watcher_dpdk.RunToCompletion.Quantile.{Quantile}
use flo_watcher_dpdk.RunToCompletion.Report.{
  totals, miscounts, handler, handler_linked_list, handler_hash_list,
}
use flo_watcher_dpdk.RunToCompletion.Report.Balance.{handler-balance}
use flo_watcher_dpdk.RunToCompletion.Report.Sessions.{session-handler_linked, session-handler_hash}
use flo_watcher_dpdk.Statistics.{EthStats}
use flo_watcher_dpdk.Tests.{integers, plenty, everything, packets}

abbrev pub zero_count : DoubleHash.PktCount ℤ
zero_count = record {
  hi_f1 = 0;
  hi_f2 = 0;
  ctr0 = 0;
  ctr1 = 0;
  ctr2 = 0;
  ipg0 = 0;
  ipg1 = 0;
  avg0 = pos 0;
  avg1 = pos 0;
}

abbrev pub double_start : DoubleHash.State ℤ
double_start = record {
  pkt_ctr = DoubleHash.init_table everything flow_num (λ l. zero_count);
  re = λ q. 0;
  global = 0;
  freed = [];
}

abbrev list_start : LinkedList.State ℤ
list_start = record { flows = λ l. []; calls = 0; re = λ q. 0; global = 0; freed = [] }

abbrev no_marks : Quantile ℤ
no_marks = record { q = λ i. pos 0; l = 0; n = λ i. pos 0; n1 = λ i. pos 0 }

abbrev bucket : HashList.PktCount ℤ
bucket = record {
  hi_f1 = 0;
  hi_f2 = 0;
  ctr0 = 0;
  ctr1 = 0;
  ipg0 = 0;
  ipg1 = 0;
  avg0 = pos 0;
  avg1 = pos 0;
  std_dev0 = pos 0;
  std_dev1 = pos 0;
  qt0 = no_marks;
  qt1 = no_marks;
  flows = record { rss_high = 0; ctr = 0; ipg = 0; avg = pos 0; std_dev = pos 0 } ∷ [];
}

abbrev hash_start : HashList.State ℤ
hash_start = record { pkt_ctr = λ l. bucket; calls = 0; re = λ q. 0; global = 0; freed = [] }

pub marked : All MarkedBurst packets
unfolding index_high
marked = ground arith

words : All (All (λ m. m.rss < 2 ^ 32)) packets
words = ground arith

double_hash-Counted_example :
    Counted
      (highs 7 (after_all packets []))
      ((DoubleHash.double_hash everything 0 packets double_start).pkt_ctr 7)
double_hash-Counted_example =
    double_hash-Counted everything refl 0 packets double_start (λ l. zero_count) 7 marked refl
      (omega arith)

linked_list-tally_example :
    Ends plenty
      (λ s'.
        (l k : ℕ)
        → l < flow_num
        → k ≢ 0
        → tally k (LinkedList.Exact.view (s'.flows l))
          ≡ count k (highs l (after_all packets [])) % u32_mod)
      (LinkedList.linked_list plenty everything 0 packets
        (record list_start { flows = λ l. LinkedList.fresh plenty ∷ [] }))
unfolding LinkedList.Exact.view LinkedList.fresh zeros
linked_list-tally_example = linked_list-tally plenty everything 0 1 packets _ (λ l h. refl) marked

hash_list-tally_example :
    Ends plenty
      (λ s'.
        (l k : ℕ)
        → l < flow_num
        → k ≢ 0
        → tally k (HashList.Exact.view (s'.pkt_ctr l))
          ≡ count k (highs l (after_all packets [])) % u32_mod)
      (HashList.hash_list plenty everything 0 packets hash_start)
unfolding HashList.Exact.view HashList.Exact.view_chain zeros
hash_list-tally_example =
    hash_list-tally plenty everything 0 packets hash_start (λ l h. refl) marked

abbrev stats : EthStats
stats = record { ipackets = 5; imissed = 1; ierrors = 0 }

session-handler_linked_example :
    (s' : LinkedList.State ℤ) × (LinkedList.session plenty everything 0 packets list_start ≡ ok s')
    × ((handler_linked_list true stats s').table ≡ totals 4 5)
    × ((handler_linked_list true stats s').queues ≡ 5 ∷ [])
unfolding total after_all after distinct count
session-handler_linked_example =
    session-handler_linked plenty everything (λ n. refl) true stats packets list_start words marked
      (omega arith) refl

session-handler_hash_example :
    (s' : HashList.State ℤ) × (HashList.session plenty everything 0 packets hash_start ≡ ok s')
    × ((handler_hash_list true stats s').table ≡ totals 4 5)
    × ((handler_hash_list true stats s').queues ≡ 5 ∷ [])
unfolding total after_all after distinct count
session-handler_hash_example =
    session-handler_hash plenty everything (λ n. refl) true stats packets hash_start words marked
      (omega arith) refl

handler-balance_example :
    let s' = DoubleHash.double_hash everything 0 packets double_start in
    let report = handler true stats s' in
    (report.queues ≡ 5 ∷ [])
    × ((missed : ℕ) × (report.table ≡ miscounts missed)
        × (missed + sum_below flow_num (λ l. (s'.pkt_ctr l).ctr0 + (s'.pkt_ctr l).ctr1) ≡ 5))
unfolding total
handler-balance_example =
    handler-balance everything refl true stats packets double_start (λ l. zero_count) marked
      (omega arith) refl refl
