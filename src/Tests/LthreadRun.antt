-- ===== src/Tests/LthreadRun.antt =====
-- The theorems about the threads of lthread/main.c at work, with two rings that hold any number of
-- packets and condition variables that tell whether their thread sleeps.
use Prim.Native.Nat.{min}
use flo_watcher_dpdk.Common.{
  ℕ, zero, suc, ◌+◌, ◌^◌, ◌<◌, ◌≡◌, refl, ap, sym, Bool, true, false, List, [], ◌∷◌, ◌++◌, arith,
  All, take, drop, take-drop, length, count, sum_below, update,
}
use flo_watcher_dpdk.Buckets.{addrs, after_all, total}
use flo_watcher_dpdk.Common.Int.{ℤ, pos}
use flo_watcher_dpdk.Dpdk.{Mbuf}
use flo_watcher_dpdk.Lthread.{burst_size}
use flo_watcher_dpdk.Lthread.DoubleHash
use flo_watcher_dpdk.Lthread.DoubleHash.{PktCount, report}
use flo_watcher_dpdk.Lthread.DoubleHash.Same.{counting, counts_of}
use flo_watcher_dpdk.Lthread.Pipeline.{
  Cond, IsCond, State, Event, receive, dequeue, wait, Setting, arrivals, run, step, batches, batch,
  view, receive_queue, lthread_tx_per_ring, count_taken, signal_all, cond_wait,
}
use flo_watcher_dpdk.Lthread.Pipeline.Buffers.{Within, in_all_rings, run-buffers}
use flo_watcher_dpdk.Lthread.Pipeline.Counting.{run-double_hash, run-Counted_lthread}
use flo_watcher_dpdk.Lthread.Pipeline.Report.{run-report}
use flo_watcher_dpdk.Lthread.Pipeline.Signals.{rounds, signal-lost, rounds-drain}
use flo_watcher_dpdk.Lthread.Pipeline.Wakeups.{Turn, receives, serves, events, asleep-few}
use flo_watcher_dpdk.Lthread.Receive.{lthread_rx_queue}
use flo_watcher_dpdk.Ring.{Ring, IsFifo, Greedy}
use flo_watcher_dpdk.RunToCompletion.{flow_num, index_high}
use flo_watcher_dpdk.RunToCompletion.Arrivals.{highs, MarkedBurst}
use flo_watcher_dpdk.RunToCompletion.DoubleHash as Rtc
use flo_watcher_dpdk.RunToCompletion.DoubleHash.Counting.{Counted}
use flo_watcher_dpdk.RunToCompletion.Quantile.{Quantile}
use flo_watcher_dpdk.Tally.{distinct}
use flo_watcher_dpdk.Lthread.Report.{Source, watch}
use flo_watcher_dpdk.Lthread.Report.Totals.{Placed, seconds_of, shown_packets, watch-Shown_lthread}
use flo_watcher_dpdk.Statistics.{EthStats}
use flo_watcher_dpdk.Statistics.Rates.{packets_of, exact, Shown}
use flo_watcher_dpdk.Tests.Reports.{Is, integers-IsExact}
use flo_watcher_dpdk.Tests.{integers}

-- a ring that takes everything
abbrev pub endless : Ring (List Mbuf)
endless = record {
  enqueue_burst = λ r ms. (length ms, r ++ ms);
  dequeue_burst = λ r n. (take n r, drop n r);
  contents = λ r. r;
}

take-length : (ms : List Mbuf) → take (length ms) ms ≡ ms
take-length [] = refl
take-length (m ∷ ms) = ap (λ t. m ∷ t) (take-length ms)

endless-Greedy : Greedy endless
endless-Greedy [] zero = omega arith
endless-Greedy [] (suc n) = omega arith
endless-Greedy (m ∷ r) zero = omega arith
endless-Greedy (m ∷ r) (suc n) = omega (arith, endless-Greedy r n)

endless-IsFifo : IsFifo endless
endless-IsFifo = record {
  enqueue_takes = λ r ms. (omega arith, ap (λ t. r ++ t) (sym (take-length ms)));
  dequeue_gives = λ r n. (omega (arith, endless-Greedy r n), sym (take-drop n r));
}

abbrev pub flag : Cond Bool
flag = record { wait = λ c. true; signal = λ c. false; blocked = λ c. c }

flag-IsCond : IsCond flag
flag-IsCond = record { wait_blocks = λ c. refl; signal_wakes = λ c. refl }

abbrev pub setting : Setting
setting = record {
  macros = record { ipg = true; quantile = false };
  n_rx_thread = 1;
  n_ring = λ rx. 2;
  thread_id = λ rx w. w;
}

abbrev blank : PktCount ℤ
blank =
    let no_marks : Quantile ℤ = record { q = λ i. pos 0; l = 0; n = λ i. pos 0; n1 = λ i. pos 0 } in
    record {
      hi_f1 = 5;
      hi_f2 = 5;
      ctr0 = 5;
      ctr1 = 5;
      ctr2 = 5;
      ipg0 = 5;
      ipg1 = 5;
      avg0 = pos 5;
      avg1 = pos 5;
      std_dev0 = pos 0;
      std_dev1 = pos 0;
      qt0 = no_marks;
      qt1 = no_marks;
    }

-- 255 packets came since the last signal of each thread, and were counted
abbrev pub begin : State (List Mbuf) Bool ℤ
begin = record {
  worker_id = λ rx. 0;
  len = λ rx w. 255;
  rings = λ rx w. [];
  ready = λ rx w. false;
  emptied = λ rx w. false;
  batch_n = λ q. 0;
  ring_loss = 0;
  re = λ q. 0;
  pkt_ctr = DoubleHash.init_table (record { ipg = true; quantile = false }) flow_num (λ l. blank);
  freed = [];
}

abbrev two : List Mbuf
two = record { addr = 1; rss = 0x10007 } ∷ record { addr = 2; rss = 0x20007 } ∷ []

-- two packets arrive, are counted, and the thread goes to sleep
abbrev es : List Event
es = receive 0 0 two ∷ dequeue 0 1 ∷ dequeue 0 1 ∷ wait 0 1 ∷ []

two_taken : batches endless flag setting es begin ≡ [] ∷ two ∷ [] ∷ [] ∷ []
unfolding batches batch step receive_queue lthread_rx_queue lthread_tx_per_ring count_taken update
    signal_all
two_taken = refl

marked : All MarkedBurst (batches endless flag setting es begin)
unfolding index_high
marked = rw two_taken (ground arith)

abbrev reset_counts : Rtc.State ℤ
reset_counts = record {
  pkt_ctr = λ l. counts_of (begin.pkt_ctr l);
  re = λ q. 0;
  global = 0;
  freed = [];
}

run-double_hash_example :
    counts_of ((run endless flag setting es begin).pkt_ctr 7)
    ≡ (Rtc.double_hash counting 0 (batches endless flag setting es begin) reset_counts).pkt_ctr 7
run-double_hash_example = run-double_hash endless flag setting 0 es begin reset_counts (λ l. refl) 7

run-Counted_lthread_example :
    Counted
      (highs 7 (after_all (batches endless flag setting es begin) []))
      (counts_of ((run endless flag setting es begin).pkt_ctr 7))
run-Counted_lthread_example =
    run-Counted_lthread endless flag setting es begin (λ l. blank) 7 marked refl (omega arith)

run-report_example :
    let rs = after_all (batches endless flag setting es begin) [] in
    let table = (run endless flag setting es begin).pkt_ctr in
    ((report flow_num table).0 ≡ sum_below flow_num (λ l. min 2 (distinct (highs l rs))))
    × ((report flow_num table).1 + sum_below flow_num (λ l. (table l).ctr2)
        ≡ total (batches endless flag setting es begin))
unfolding total
run-report_example =
    run-report endless flag setting es begin (λ l. blank) marked refl (rw two_taken (omega arith))

within : All (Within setting) es
within = ground arith

few_buffers : begin.ring_loss + length (arrivals es) < 2 ^ 31
unfolding arrivals
few_buffers = omega arith

run-buffers_example :
    let s' = run endless flag setting es begin in
    (in_all_rings endless setting s'.rings 2 + count 2 s'.freed
      ≡ in_all_rings endless setting begin.rings 2
        + count 2 begin.freed
        + count 2 (addrs (arrivals es)))
    × (s'.ring_loss + total (batches endless flag setting es begin) + length begin.freed
        ≡ begin.ring_loss + length s'.freed)
run-buffers_example = run-buffers endless flag setting endless-IsFifo 2 es begin within few_buffers

-- the threads of both rings go to sleep, and a packet arrives for each
abbrev calm : State (List Mbuf) Bool ℤ
calm = record begin { len = λ rx w. 0 }

abbrev ts : List Turn
ts =
    serves 0 0
    ∷ serves 0 1
    ∷ receives 0 0 (record { addr = 1; rss = 0x10007 } ∷ [])
    ∷ receives 0 0 (record { addr = 2; rss = 0x20007 } ∷ [])
    ∷ []

asleep : (run endless flag setting (events ts) calm).ready 0 0 ≡ true
unfolding events run step receive_queue lthread_rx_queue lthread_tx_per_ring count_taken cond_wait
    update signal_all
asleep = refl

asleep-few_example : length ((run endless flag setting (events ts) calm).rings 0 0) < burst_size
asleep-few_example =
    asleep-few endless flag setting endless-IsFifo endless-Greedy flag-IsCond ts calm 0 0
      (λ rx w. (refl, (omega arith, λ b. absurd (ground arith)))) asleep

-- the thread of ring 1 is about to wait
abbrev about : State (List Mbuf) Bool ℤ
about = record begin { emptied = λ rx w. true }

signal-lost_example :
    let s' =
      run endless flag setting
        (receive 0 0 (record { addr = 1; rss = 0x10007 } ∷ record { addr = 2; rss = 0x20007 } ∷ [])
          ∷ wait 0 1
          ∷ [])
        about in
    ((lthread_rx_queue endless 2 0
        (record { addr = 1; rss = 0x10007 } ∷ record { addr = 2; rss = 0x20007 } ∷ [])
        (view endless flag setting 0 about)).signals
      ≡ 1 ∷ [])
    × (s'.ready 0 1 ≡ true)
    × (length (s'.rings 0 1) ≡ 2)
signal-lost_example =
    signal-lost endless flag setting endless-IsFifo flag-IsCond 0 0
      (record { addr = 1; rss = 0x10007 }) (record { addr = 2; rss = 0x20007 } ∷ []) about refl
      (omega arith)

-- two packets wait in each ring
abbrev waiting : State (List Mbuf) Bool ℤ
waiting = record begin { rings = λ rx w. two }

rounds-drain_example :
    let s' = run endless flag setting (events (rounds 2 0 1)) waiting in
    (s'.ready 0 1 ≡ true) × (s'.emptied 0 1 ≡ false) × (length (s'.rings 0 1) ≡ 0)
rounds-drain_example =
    rounds-drain endless flag setting endless-IsFifo flag-IsCond endless-Greedy 0 1 1 waiting
      (refl, refl) (omega arith)

-- thread 1 takes two packets, but its counter is not among those that are shown
abbrev lthread_second : List (List Event × (ℕ → EthStats))
lthread_second = (es, λ port. record { ipackets = 9; imissed = 2; ierrors = 0 }) ∷ []

abbrev known : Source
known = record {
  enabled_port_mask = 0x8;
  write = false;
  n_rx_thread = 1;
  nb_ports = 4;
  stats = λ port. record { ipackets = 0; imissed = 0; ierrors = 0 };
}

none_shown : seconds_of endless flag setting known lthread_second begin ≡ (0, 2) ∷ []
unfolding seconds_of shown_packets batch run step receive_queue lthread_rx_queue lthread_tx_per_ring
    count_taken update signal_all cond_wait
none_shown = refl

few_shown :
    sum_below 1 begin.re + packets_of (seconds_of endless flag setting known lthread_second begin)
    < exact
unfolding sum_below packets_of
few_shown = rw none_shown (omega arith)

placed : All (λ second. All (Placed setting) second.0) lthread_second
placed = ground arith

watch-Shown_lthread_example :
    Shown Is 0 ((0, 2) ∷ []) (watch endless flag setting known lthread_second begin (pos 0))
unfolding sum_below
watch-Shown_lthread_example = rw none_shown at (
    watch-Shown_lthread endless flag setting known Is integers-IsExact lthread_second begin (pos 0)
      refl (omega arith) placed (λ j. omega arith) refl few_shown)
