-- ===== src/Pthread/Chains/System/Totals.antt =====
-- The buffers that the LINKED_LIST and HASH_LIST builds of pthread/main.c give back when all threads
-- run, and the global counter that `handler` reports.
use mathlib.Core.List.{append_assoc, append-nil}
use flo_watcher_dpdk.Common.{
  ℕ, ◌+◌, ◌<◌, ◌≡◌, refl, sym, ap, ◌∙◌, ◌⊎◌, inl, inr, List, [], ◌∷◌, ◌++◌, Array, length,
  length-append, arith, update, u64_mod, sum_below-zero,
}
use flo_watcher_dpdk.Buckets.{addrs}
use flo_watcher_dpdk.Buckets.Addrs.{addrs-append}
use flo_watcher_dpdk.Dpdk.{Mbuf}
use flo_watcher_dpdk.Outcome.{Outcome, ok, Ensures, bind-Ensures, mono-Ensures}
use flo_watcher_dpdk.Pthread.Chains
use flo_watcher_dpdk.Pthread.Chains.{enqueue, step}
use flo_watcher_dpdk.Pthread.Chains.Freed.{count_burst-Adds}
use flo_watcher_dpdk.Pthread.Chains.System.{
  State, local, merge, fill, deal, served, round, pass_on, act, run,
}
use flo_watcher_dpdk.Pthread.Chains.System.Silent.{Silent, deal-Silent, fed_or_nothing}
use flo_watcher_dpdk.Pthread.Pipeline.{serve, Setting}
use flo_watcher_dpdk.Pthread.Report.{global_counter}
use flo_watcher_dpdk.Pthread.Startup.{Role, receives, counts, idle, pthread_run}
use flo_watcher_dpdk.Pthread.Startup.Wired.{Wired}
use flo_watcher_dpdk.Pthread.System.{Program, Turn, setting, first_queue, within}
use flo_watcher_dpdk.Pthread.System.Adds.{
  Adds, Small, Sums, Adds-Small, Adds-Sums, global_counter-sum,
}
use flo_watcher_dpdk.Pthread.System.Invariants.{accessing-Ensures, Employed, pthread_run-Employed}
use flo_watcher_dpdk.Pthread.Threads.{LcoreRxQueue}
use flo_watcher_dpdk.Ring.{Ring, IsFifo}

-- the counter that a thread adds to, if it does
abbrev adder : Program → Role → ℕ
adder k (receives i) = 0
adder k (counts i) = (k.setup.tx_thread i).thread_id
adder k idle = 0

Adds-none : (q : ℕ) (g : Array ℕ) → Adds q 0 g g
Adds-none q g j small = ground arith

module _ {R T : Type 0} (ops : Ring R) (k : Program)
    (count_packet : Setting → ℕ → Mbuf → T → Outcome T) where
  -- what a round does to the rings, the counters and the freed buffers
  abbrev Dealt : Role → (LcoreRxQueue → List Mbuf) → State R T → State R T → Type 0
  Dealt role deliver s s' =
      let dealt = deal ops k role deliver s.rings in
      (s'.rings ≡ dealt.1)
      × Adds (adder k role) (length dealt.0) s.g_ctr s'.g_ctr
      × (s'.freed ≡ s.freed ++ addrs dealt.0)

  pass_on-Dealt :
      (i : ℕ) (qs : List ℕ) (bufs : List Mbuf) (s : State R T)
      → Ensures
          (λ s'.
            (s'.rings ≡ fill ops k qs bufs s.rings) × (s'.g_ctr ≡ s.g_ctr) × (s'.freed ≡ s.freed))
          (pass_on ops k count_packet i qs bufs s)
  unfolding pass_on round fill step
  pass_on-Dealt i qs [] s = (refl, refl, refl)
  pass_on-Dealt i [] (m ∷ bufs) s = tt
  pass_on-Dealt i (n ∷ qs) (m ∷ bufs) s = (refl, refl, refl)

  act-Dealt :
      (role : Role) (deliver : LcoreRxQueue → List Mbuf) (s : State R T)
      → Ensures (Dealt role deliver s) (act ops k count_packet role deliver s)
  unfolding act round deal step addrs
  act-Dealt (receives i) deliver s =
      let conf = k.setup.rx_thread i in
      mono-Ensures _ (Dealt (receives i) deliver s) _
        (pass_on-Dealt i conf.rings (deliver (first_queue conf.rx_queue_list)) s)
        (λ s' (rings, g_ctr, freed).
          (rings, rw g_ctr (Adds-none 0 s.g_ctr), freed ∙ sym (append-nil s.freed)))
  act-Dealt (counts i) deliver s =
      accessing-Ensures (Dealt (counts i) deliver s) (within k i) _
        (round ops k count_packet i (k.setup.tx_thread i).ring serve s)
        (let n = (k.setup.tx_thread i).ring in
          let taken = ops.dequeue_burst (s.rings n) k.setup.config.burst_size in
          let v : Chains.State R T = record {
            ring = taken.1;
            table = s.table;
            g_ctr = s.g_ctr;
            freed = s.freed;
          } in
          bind-Ensures {A = Chains.State R T} {B = State R T}
            (λ v'.
              (v'.freed ≡ s.freed ++ addrs taken.0)
              × Adds (k.setup.tx_thread i).thread_id (length taken.0) s.g_ctr v'.g_ctr
              × (v'.ring ≡ taken.1))
            (Dealt (counts i) deliver s)
            (step ops (setting k i) (count_packet (setting k i)) serve (local n s))
            (λ v'. ok (merge n s v'))
            (count_burst-Adds ops (setting k i) (count_packet (setting k i)) taken.0 v)
            (λ v' (freed, adds, ring). (ap (update s.rings n) ring, adds, freed)))
  act-Dealt idle deliver s = (refl, Adds-none 0 s.g_ctr, sym (append-nil s.freed))

  -- Whatever the two builds do with a packet, and whatever the order in which all threads run, a run
  -- that does not end the program has given the buffers that it took out of the rings back, each once
  -- and in their order.
  pub run-freed_system :
      (ts : List Turn) (s : State R T)
      → Ensures
          (λ s'. s'.freed ≡ s.freed ++ addrs (served ops k ts s.rings))
          (run ops k count_packet ts s)
  unfolding run served addrs
  run-freed_system [] s = sym (append-nil s.freed)
  run-freed_system (t ∷ ts) s =
      let role = pthread_run k.setup t.lcore in
      let dealt = deal ops k role t.deliver s.rings in
      let rest = served ops k ts dealt.1 in
      bind-Ensures {A = State R T} {B = State R T} (Dealt role t.deliver s) _
        (act ops k count_packet role t.deliver s) (run ops k count_packet ts)
        (act-Dealt role t.deliver s)
        (λ s' (rings, adds, freed).
          mono-Ensures {A = State R T} _ _ (run ops k count_packet ts s') (run-freed_system ts s')
            (λ s'' freed'.
              freed'
              ∙ ap (λ rs. s'.freed ++ addrs (served ops k ts rs)) rings
              ∙ ap (λ xs. xs ++ addrs rest) freed
              ∙ append_assoc s.freed (addrs dealt.0) (addrs rest)
              ∙ ap (λ xs. s.freed ++ xs) (sym (addrs-append dealt.0 rest))))

  module _ (fifo : IsFifo ops) (w : Wired k.setup) where
    -- what is taken out is counted in a counter that `handler` adds up
    deal-counted :
        (role : Role) (deliver : LcoreRxQueue → List Mbuf) (rings : Array R)
        → Employed k.setup role
        → Silent ops k fifo w rings
        → ((adder k role < k.setup.n_rx_thread) ⊎ (length (deal ops k role deliver rings).0 ≡ 0))
    unfolding deal
    deal-counted (receives i) deliver rings used silent = inr refl
    deal-counted (counts i) deliver rings used silent =
        elim (fed_or_nothing ops k fifo w i rings used silent) [
          | inl below ↦ inl below
          | inr none ↦ inr (ap length none)
        ]
    deal-counted idle deliver rings used silent = inr refl

    run-Sums :
        (ts : List Turn) (base seen : ℕ) (s : State R T)
        → Silent ops k fifo w s.rings
        → Small s.g_ctr
        → Sums k.setup.n_rx_thread base seen s.g_ctr
        → Ensures
            (λ s'. Sums k.setup.n_rx_thread base (seen + length (served ops k ts s.rings)) s'.g_ctr)
            (run ops k count_packet ts s)
    unfolding run served
    run-Sums [] base seen s silent small sums =
        let e : seen ≡ seen + 0 = omega arith in rw (← e) sums
    run-Sums (t ∷ ts) base seen s silent small sums =
        let role = pthread_run k.setup t.lcore in
        let used = pthread_run-Employed k.setup t.lcore in
        let dealt = deal ops k role t.deliver s.rings in
        let n = length dealt.0 in
        let rest = served ops k ts dealt.1 in
        bind-Ensures {A = State R T} {B = State R T} (Dealt role t.deliver s) _
          (act ops k count_packet role t.deliver s) (run ops k count_packet ts)
          (act-Dealt role t.deliver s)
          (λ s' (rings, adds, freed).
            let e : seen + n + length (served ops k ts s'.rings) ≡ seen + length (dealt.0 ++ rest) =
              omega
                (arith, ap (λ rs. length (served ops k ts rs)) rings, length-append dealt.0 rest) in
            mono-Ensures {A = State R T} _ _ (run ops k count_packet ts s')
              (run-Sums ts base (seen + n) s'
                (rw rings (deal-Silent ops k fifo w role t.deliver s.rings used silent))
                (Adds-Small (adder k role) n s.g_ctr s'.g_ctr small adds)
                (Adds-Sums k.setup.n_rx_thread (adder k role) base seen n s.g_ctr s'.g_ctr small
                  adds (deal-counted role t.deliver s.rings used silent) sums))
              (λ s'' h. rw (sym e) h))

    -- from counters of 0, the number of packets that `handler` adds up is that of the packets taken
    pub run-total :
        (ts : List Turn) (s : State R T)
        → Silent ops k fifo w s.rings
        → ((j : ℕ) → s.g_ctr j ≡ 0)
        → length (served ops k ts s.rings) < u64_mod
        → Ensures
            (λ s'.
              global_counter s'.g_ctr k.setup.n_rx_thread 0 0 ≡ length (served ops k ts s.rings))
            (run ops k count_packet ts s)
    run-total ts s silent zeros few =
        let n = k.setup.n_rx_thread in
        mono-Ensures {A = State R T} _ _ (run ops k count_packet ts s)
          (run-Sums ts 0 0 s silent (λ j. omega (arith, zeros j))
            (λ lt. sum_below-zero n s.g_ctr zeros))
          (λ s' sums. omega (arith, global_counter-sum s'.g_ctr n, sums (omega arith)))
