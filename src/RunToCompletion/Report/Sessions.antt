-- ===== src/RunToCompletion/Report/Sessions.antt =====
-- The reports of the LINKED_LIST and HASH_LIST builds of run_to_completion/main.c, from start to the
-- signal.
use flo_watcher_dpdk.Common.{
  ℕ, ◌+◌, ◌%◌, ◌<◌, ◌^◌, ◌≡◌, ap, true, Bool, List, [], ◌∷◌, arith, All, length, update, add64,
  u32_mod, u64_mod, if◌then◌else◌,
}
use flo_watcher_dpdk.Buckets.{after_all, total}
use flo_watcher_dpdk.Double.{Arithmetic}
use flo_watcher_dpdk.Dpdk.{Mbuf}
use flo_watcher_dpdk.Outcome.{
  ok, Calloc, or_exit, Ensures, Ensures-ok, bind-Ensures, bind_any-Ensures, mono-Ensures,
}
use flo_watcher_dpdk.Tally.{distinct}
use flo_watcher_dpdk.RunToCompletion.{Build, flow_num, rx_rings, global_loop}
use flo_watcher_dpdk.RunToCompletion.DoubleHash.{free_all}
use flo_watcher_dpdk.RunToCompletion.Arrivals.{MarkedBurst}
use flo_watcher_dpdk.RunToCompletion.HashList
use flo_watcher_dpdk.RunToCompletion.HashList.Session.{session-flows}
use flo_watcher_dpdk.RunToCompletion.LinkedList
use flo_watcher_dpdk.RunToCompletion.LinkedList.Session.{session-report}
use flo_watcher_dpdk.RunToCompletion.Report.{
  totals, finish, queue_counters, handler_linked_list, handler_hash_list,
}
use flo_watcher_dpdk.Statistics.{EthStats}

module _ {F : Type 0} ⦃fp : Arithmetic F⦄ (calloc : Calloc) (b : Build) where
  burst-re_linked :
      (ms : List Mbuf) (s : LinkedList.State F)
      → s.re 0 < u64_mod
      → Ensures
          (λ (s' : LinkedList.State F). s'.re 0 ≡ (s.re 0 + length ms) % u64_mod)
          (LinkedList.burst calloc b 0 ms s)
  unfolding LinkedList.burst update
  burst-re_linked [] s small = omega arith
  burst-re_linked (m ∷ ms) s small =
      let re = update s.re 0 (add64 (s.re 0) (length (m ∷ ms))) in
      let global = if b.ipg then global_loop re rx_rings 0 else s.global in
      bind_any-Ensures (λ (s' : LinkedList.State F). s'.re 0 ≡ (s.re 0 + length (m ∷ ms)) % u64_mod)
        (LinkedList.count_loop calloc b global (m ∷ ms) (s.flows, s.calls))
        (λ r. ok (record {
          flows = r.0;
          calls = r.1;
          re = re;
          global = global;
          freed = free_all (m ∷ ms) s.freed;
        }))
        (λ r. omega arith)

  linked_list-re :
      (bursts : List (List Mbuf)) (s : LinkedList.State F)
      → s.re 0 < u64_mod
      → Ensures
          (λ (s' : LinkedList.State F). s'.re 0 ≡ (s.re 0 + total bursts) % u64_mod)
          (LinkedList.linked_list calloc b 0 bursts s)
  unfolding LinkedList.linked_list total
  linked_list-re [] s small = omega arith
  linked_list-re (ms ∷ rest) s small =
      bind-Ensures (λ (s1 : LinkedList.State F). s1.re 0 ≡ (s.re 0 + length ms) % u64_mod)
        (λ (s' : LinkedList.State F). s'.re 0 ≡ (s.re 0 + (length ms + total rest)) % u64_mod)
        (LinkedList.burst calloc b 0 ms s) (λ s1. LinkedList.linked_list calloc b 0 rest s1)
        (burst-re_linked ms s small)
        (λ s1 e.
          mono-Ensures (λ (s' : LinkedList.State F). s'.re 0 ≡ (s1.re 0 + total rest) % u64_mod) _
            (LinkedList.linked_list calloc b 0 rest s1) (linked_list-re rest s1 (omega (arith, e)))
            (λ s' e'. omega (arith, e, e')))

  burst-re_hash :
      (ms : List Mbuf) (s : HashList.State F)
      → s.re 0 < u64_mod
      → Ensures
          (λ (s' : HashList.State F). s'.re 0 ≡ (s.re 0 + length ms) % u64_mod)
          (HashList.burst calloc b 0 ms s)
  unfolding HashList.burst update
  burst-re_hash [] s small = omega arith
  burst-re_hash (m ∷ ms) s small =
      let global = if b.ipg then global_loop s.re rx_rings 0 else s.global in
      bind_any-Ensures (λ (s' : HashList.State F). s'.re 0 ≡ (s.re 0 + length (m ∷ ms)) % u64_mod)
        (HashList.count_loop calloc b global (m ∷ ms) (s.pkt_ctr, s.calls, s.freed))
        (λ r. ok (record {
          pkt_ctr = r.0;
          calls = r.1;
          re = update s.re 0 (add64 (s.re 0) (length (m ∷ ms)));
          global = global;
          freed = r.2;
        }))
        (λ r. omega arith)

  hash_list-re :
      (bursts : List (List Mbuf)) (s : HashList.State F)
      → s.re 0 < u64_mod
      → Ensures
          (λ (s' : HashList.State F). s'.re 0 ≡ (s.re 0 + total bursts) % u64_mod)
          (HashList.hash_list calloc b 0 bursts s)
  unfolding HashList.hash_list total
  hash_list-re [] s small = omega arith
  hash_list-re (ms ∷ rest) s small =
      bind-Ensures (λ (s1 : HashList.State F). s1.re 0 ≡ (s.re 0 + length ms) % u64_mod)
        (λ (s' : HashList.State F). s'.re 0 ≡ (s.re 0 + (length ms + total rest)) % u64_mod)
        (HashList.burst calloc b 0 ms s) (λ s1. HashList.hash_list calloc b 0 rest s1)
        (burst-re_hash ms s small)
        (λ s1 e.
          mono-Ensures (λ (s' : HashList.State F). s'.re 0 ≡ (s1.re 0 + total rest) % u64_mod) _
            (HashList.hash_list calloc b 0 rest s1) (hash_list-re rest s1 (omega (arith, e)))
            (λ s' e'. omega (arith, e, e')))

  -- The report of the LINKED_LIST build is right: where memory is never refused and a run has fewer
  -- than 2 ^ 32 packets, all with an upper hash half other than 0, the program initialises its chains,
  -- counts without a fault, and `handler` prints the number of different hashes, the number of packets,
  -- and this number again for the queue, whose counter starts at 0.
  pub session-handler_linked :
      ((n : ℕ) → calloc n ≡ true)
      → (write_file : Bool) (eth_stats : EthStats) (bursts : List (List Mbuf))
        (s : LinkedList.State F)
      → All (All (λ m. m.rss < 2 ^ 32)) bursts
      → All MarkedBurst bursts
      → total bursts < u32_mod
      → s.re 0 ≡ 0
      → (s' : LinkedList.State F) × (LinkedList.session calloc b 0 bursts s ≡ ok s')
        × ((handler_linked_list write_file eth_stats s').table
            ≡ totals (distinct (after_all bursts [])) (total bursts))
        × ((handler_linked_list write_file eth_stats s').queues ≡ total bursts ∷ [])
  unfolding handler_linked_list finish queue_counters LinkedList.session
  session-handler_linked given write_file eth_stats bursts s words marked few start =
      let (s', ran, said) = session-report calloc given b 0 bursts s words marked few in
      let counter =
        Ensures-ok (λ (s' : LinkedList.State F). s'.re 0 ≡ total bursts) _ s' ran
          (bind_any-Ensures (λ (s' : LinkedList.State F). s'.re 0 ≡ total bursts)
            (or_exit (
              LinkedList.flow_struct_init calloc flow_num LinkedList.entry_per_flow
                (s.flows, s.calls)))
            (λ r. LinkedList.linked_list calloc b 0 bursts (record s { flows = r.0; calls = r.1 }))
            (λ r.
              let s1 : LinkedList.State F = record s { flows = r.0; calls = r.1 } in
              mono-Ensures (λ s'. s'.re 0 ≡ (s1.re 0 + total bursts) % u64_mod)
                (λ (s' : LinkedList.State F). s'.re 0 ≡ total bursts)
                (LinkedList.linked_list calloc b 0 bursts s1)
                (linked_list-re bursts s1 (omega (arith, start)))
                (λ s' e. omega (arith, e, start)))) in
      (s', ran, ap (λ p. totals p.0 p.1) said, ap (λ n. n ∷ []) counter)

  -- The report of the HASH_LIST build is right: where memory is never refused and a run has fewer than
  -- 2 ^ 32 packets, all with an upper hash half other than 0, the program initialises its table,
  -- counts without a fault, and `handler` prints the number of different hashes, the number of packets,
  -- and this number again for the queue, whose counter starts at 0.
  pub session-handler_hash :
      ((n : ℕ) → calloc n ≡ true)
      → (write_file : Bool) (eth_stats : EthStats) (bursts : List (List Mbuf))
        (s : HashList.State F)
      → All (All (λ m. m.rss < 2 ^ 32)) bursts
      → All MarkedBurst bursts
      → total bursts < u32_mod
      → s.re 0 ≡ 0
      → (s' : HashList.State F) × (HashList.session calloc b 0 bursts s ≡ ok s')
        × ((handler_hash_list write_file eth_stats s').table
            ≡ totals (distinct (after_all bursts [])) (total bursts))
        × ((handler_hash_list write_file eth_stats s').queues ≡ total bursts ∷ [])
  unfolding handler_hash_list finish queue_counters HashList.session
  session-handler_hash given write_file eth_stats bursts s words marked few start =
      let (s', ran, said) = session-flows calloc given b 0 bursts s words marked few in
      let counter =
        Ensures-ok (λ (s' : HashList.State F). s'.re 0 ≡ total bursts) _ s' ran
          (bind_any-Ensures (λ (s' : HashList.State F). s'.re 0 ≡ total bursts)
            (or_exit (HashList.init_table calloc b flow_num (s.pkt_ctr, s.calls)))
            (λ r. HashList.hash_list calloc b 0 bursts (record s { pkt_ctr = r.0; calls = r.1 }))
            (λ r.
              let s1 : HashList.State F = record s { pkt_ctr = r.0; calls = r.1 } in
              mono-Ensures (λ s'. s'.re 0 ≡ (s1.re 0 + total bursts) % u64_mod)
                (λ (s' : HashList.State F). s'.re 0 ≡ total bursts)
                (HashList.hash_list calloc b 0 bursts s1)
                (hash_list-re bursts s1 (omega (arith, start)))
                (λ s' e. omega (arith, e, start)))) in
      (s', ran, ap (λ p. totals p.0 p.1) said, ap (λ n. n ∷ []) counter)
