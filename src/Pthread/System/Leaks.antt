-- ===== src/Pthread/System/Leaks.antt =====
-- The buffers that come into pthread/main.c, and those that `lcore_main_rx` loses: it does not look at
-- how many of a burst `rte_ring_enqueue_burst` took.
use flo_watcher_dpdk.Common.{ℕ, ◌+◌, ◌≡◌, ap, List, [], ◌∷◌, take, drop, take-drop, count, arith}
use flo_watcher_dpdk.Buckets.{addrs}
use flo_watcher_dpdk.Buckets.Addrs.{count-addrs, count-none}
use flo_watcher_dpdk.Double.{Arithmetic}
use flo_watcher_dpdk.Dpdk.{Mbuf}
use flo_watcher_dpdk.Outcome.{Outcome, ok, failed, exit, fault, Ensures, mono-Ensures}
use flo_watcher_dpdk.Pthread.Startup.{Role, receives, counts, idle, pthread_run}
use flo_watcher_dpdk.Pthread.Startup.Wired.{Wired}
use flo_watcher_dpdk.Pthread.System.{
  State, Program, Turn, first_queue, following, stored, put, turn, trace, run,
}
use flo_watcher_dpdk.Pthread.System.Buffers.{queued, run-Kept}
use flo_watcher_dpdk.Pthread.Threads.{LcoreRxQueue}
use flo_watcher_dpdk.Ring.{Ring, IsFifo}

abbrev often : ℕ → List Mbuf → ℕ
often a ms = count a (addrs ms)

module _ {R F : Type 0} ⦃fp : Arithmetic F⦄ (ops : Ring R) (k : Program) where
  -- what the NIC delivers in a round
  unfoldable pub came : Role → (LcoreRxQueue → List Mbuf) → State R F → List Mbuf
  came (receives i) deliver s = deliver (first_queue (k.setup.rx_thread i).rx_queue_list)
  came (counts i) deliver s = []
  came idle deliver s = []

  -- what of a burst the first ring does not take
  unfoldable pub refused : List ℕ → List Mbuf → State R F → List Mbuf
  refused rings [] s = []
  refused [] (m ∷ ms) s = m ∷ ms
  refused (n ∷ rings) (m ∷ ms) s = drop (ops.enqueue_burst (s.rings n) (m ∷ ms)).0 (m ∷ ms)

  unfoldable pub leaked : Role → (LcoreRxQueue → List Mbuf) → State R F → List Mbuf
  leaked (receives i) deliver s =
      let conf = k.setup.rx_thread i in
      refused conf.rings (deliver (first_queue conf.rx_queue_list)) s
  leaked (counts i) deliver s = []
  leaked idle deliver s = []

  module _ (a : ℕ) where
    stored-refused :
        (rings : List ℕ) (bufs : List Mbuf) (s : State R F)
        → often a (stored ops k rings bufs s) + often a (refused rings bufs s) ≡ often a bufs
    unfolding stored refused
    stored-refused rings [] s = omega (arith, count-none a)
    stored-refused [] (m ∷ ms) s = omega (arith, count-none a)
    stored-refused (n ∷ rings) (m ∷ ms) s =
        let taken = (ops.enqueue_burst (s.rings n) (m ∷ ms)).0 in
        omega (
          arith,
          count-addrs a (take taken (m ∷ ms)) (drop taken (m ∷ ms)),
          ap (often a) (take-drop taken (m ∷ ms)),
        )

    round-leaks :
        (role : Role) (deliver : LcoreRxQueue → List Mbuf) (s : State R F)
        → often a (put ops k role deliver s) + often a (leaked role deliver s)
          ≡ often a (came role deliver s)
    unfolding put leaked came
    round-leaks (receives i) deliver s =
        let conf = k.setup.rx_thread i in
        stored-refused conf.rings (deliver (first_queue conf.rx_queue_list)) s
    round-leaks (counts i) deliver s = omega (arith, count-none a)
    round-leaks idle deliver s = omega (arith, count-none a)

    later-leaks :
        (o : Outcome (State R F)) (f g h : State R F → List Mbuf)
        → ((s : State R F) → often a (f s) + often a (g s) ≡ often a (h s))
        → often a (following o f) + often a (following o g) ≡ often a (following o h)
    unfolding following
    later-leaks (ok s) f g h e = e s
    later-leaks failed f g h e = omega (arith, count-none a)
    later-leaks exit f g h e = omega (arith, count-none a)
    later-leaks fault f g h e = omega (arith, count-none a)

    trace-leaks :
        (ts : List Turn) (s : State R F)
        → often a (trace ops k (put ops k) ts s) + often a (trace ops k leaked ts s)
          ≡ often a (trace ops k came ts s)
    unfolding trace
    trace-leaks [] s = omega (arith, count-none a)
    trace-leaks (t ∷ ts) s =
        let role = pthread_run k.setup t.lcore in
        let o = turn ops k t s in
        omega (
          arith,
          round-leaks role t.deliver s,
          later-leaks o (trace ops k (put ops k) ts) (trace ops k leaked ts) (trace ops k came ts)
              (trace-leaks ts),
          count-addrs a (put ops k role t.deliver s) (following o (trace ops k (put ops k) ts)),
          count-addrs a (leaked role t.deliver s) (following o (trace ops k leaked ts)),
          count-addrs a (came role t.deliver s) (following o (trace ops k came ts)),
        )

    -- What a full ring does not take is lost, and nothing else: whatever the order in which all
    -- threads of the program run, a buffer is in a ring of a counting thread, freed or was refused by
    -- a ring as often as it was in a ring or freed before and as the NIC delivered it. A refused
    -- buffer is never freed. The threads are wired as `main` does it, and the rings are first in,
    -- first out.
    pub run-leaks :
        (fifo : IsFifo ops) (w : Wired k.setup) (ts : List Turn) (s : State R F)
        → Ensures
            (λ s'.
              queued ops k a s' + count a s'.freed + count a (addrs (trace ops k leaked ts s))
              ≡ queued ops k a s + count a s.freed + count a (addrs (trace ops k came ts s)))
            (run ops k ts s)
    run-leaks fifo w ts s =
        mono-Ensures {A = State R F} _ _ (run ops k ts s) (run-Kept ops k a fifo w ts s)
          (λ s' kept. omega (arith, kept, trace-leaks ts s))
