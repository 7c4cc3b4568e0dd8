-- ===== src/Pthread/Threads/Queues.antt =====
-- `init_rx_queues` of pthread/main.c: the queues of each receive thread.
use mathlib.Core.List.{append_assoc, append-nil}
use flo_watcher_dpdk.Common.{
  ℕ, ◌+◌, ◌≤◌, ◌<◌, ◌≡◌, refl, sym, ap, ◌∙◌, true, false, List, [], ◌∷◌, ◌++◌, length,
  length-append, Array, update, arith, leb, ◌==◌, if◌then◌else◌, Bool-cases, inl, inr,
}
use flo_watcher_dpdk.Outcome.{ok, failed}
use flo_watcher_dpdk.Pthread.{max_rx_queue_per_lcore, RxThreadParams}
use flo_watcher_dpdk.Pthread.Threads.{
  LcoreRxQueue, ThreadRxConf, RxThreads, init_rx_queue, init_rx_queues_loop, init_rx_queues,
}

abbrev pub queue_of : RxThreadParams → LcoreRxQueue
queue_of p = record { port_id = p.port_id; queue_id = p.queue_id }

-- the queues that the configuration names for thread `t`, in its order
unfoldable pub queues_of : ℕ → List RxThreadParams → List LcoreRxQueue
queues_of t [] = []
queues_of t (p ∷ ps) = if p.thread_id == t then queue_of p ∷ queues_of t ps else queues_of t ps

-- one more than the largest thread number, `n` at least
unfoldable pub threads_of : ℕ → List RxThreadParams → ℕ
threads_of n [] = n
threads_of n (p ∷ ps) = threads_of (if leb n p.thread_id then p.thread_id + 1 else n) ps

-- the queues of a thread and those that it still gets
abbrev planned : RxThreads → List RxThreadParams → ℕ → List LcoreRxQueue
planned s ps t = (s.0 t).rx_queue_list ++ queues_of t ps

-- a round that succeeds takes over the queue from what is planned
init_rx_queue-planned :
    (p : RxThreadParams) (ps : List RxThreadParams) (s : RxThreads)
    → length (s.0 p.thread_id).rx_queue_list < max_rx_queue_per_lcore
    → (s' : RxThreads) × (init_rx_queue p s ≡ ok s')
      × (s'.1 ≡ (if leb s.1 p.thread_id then p.thread_id + 1 else s.1))
      × ((t : ℕ) → planned s' ps t ≡ planned s (p ∷ ps) t)
      × ((t : ℕ)
          → length (s.0 t).rx_queue_list ≤ max_rx_queue_per_lcore
          → length (s'.0 t).rx_queue_list ≤ max_rx_queue_per_lcore)
unfolding init_rx_queue queues_of update
init_rx_queue-planned p ps s room =
    let thread = p.thread_id in
    let old = s.0 thread in
    let conf : ThreadRxConf = record old {
      thread_id = thread;
      lcore_id = p.lcore_id;
      rx_queue_list = old.rx_queue_list ++ queue_of p ∷ [];
    } in
    let free : leb max_rx_queue_per_lcore (length old.rx_queue_list) ≡ false = ground arith in
    (
      (update s.0 thread conf, if leb s.1 thread then thread + 1 else s.1),
      rw free refl,
      refl,
      λ t. elim (Bool-cases (t == thread)) [
        | inl own ↦
            let e : t ≡ thread = ground arith in
            let flip : (thread == t) ≡ true = ground arith in
            rw (own, flip)
              (append_assoc old.rx_queue_list (queue_of p ∷ []) (queues_of t ps)
                ∙ ap (λ i. (s.0 i).rx_queue_list ++ (queue_of p ∷ queues_of t ps)) (sym e))
        | inr other ↦ let flip : (thread == t) ≡ false = ground arith in rw (other, flip) refl
      ],
      λ t fits. elim (Bool-cases (t == thread)) [
        | inl own ↦ rw own (omega (arith, length-append old.rx_queue_list (queue_of p ∷ [])))
        | inr other ↦ rw other fits
      ],
    )

-- where what is planned fits, there is room for the next queue
room :
    (p : RxThreadParams) (ps : List RxThreadParams) (s : RxThreads)
    → length (planned s (p ∷ ps) p.thread_id) ≤ max_rx_queue_per_lcore
    → length (s.0 p.thread_id).rx_queue_list < max_rx_queue_per_lcore
unfolding queues_of
room p ps s h =
    let own : (p.thread_id == p.thread_id) ≡ true = ground arith in
    let h' = rw own at h in
    omega
      (arith, length-append (s.0 p.thread_id).rx_queue_list (queue_of p ∷ queues_of p.thread_id ps))

init_rx_queues_loop-planned :
    (ps : List RxThreadParams) (s : RxThreads)
    → ((t : ℕ) → length (planned s ps t) ≤ max_rx_queue_per_lcore)
    → (r : RxThreads) × (init_rx_queues_loop ps s ≡ ok r)
      × (r.1 ≡ threads_of s.1 ps)
      × ((t : ℕ) → (r.0 t).rx_queue_list ≡ planned s ps t)
unfolding init_rx_queues_loop queues_of threads_of
init_rx_queues_loop-planned [] s fit = (s, refl, refl, λ t. sym (append-nil (s.0 t).rx_queue_list))
init_rx_queues_loop-planned (p ∷ ps) s fit =
    let (s', run, top, plan, _) = init_rx_queue-planned p ps s (room p ps s (fit p.thread_id)) in
    let (r, rest, threads, queues) = init_rx_queues_loop-planned ps s' (λ t. rw (plan t) (fit t)) in
    (r, rw run rest, threads ∙ ap (λ n. threads_of n ps) top, λ t. queues t ∙ plan t)

init_rx_queue-full :
    (p : RxThreadParams) (s : RxThreads)
    → leb max_rx_queue_per_lcore (length (s.0 p.thread_id).rx_queue_list) ≡ true
    → init_rx_queue p s ≡ failed
unfolding init_rx_queue
init_rx_queue-full p s full = rw full refl

-- a thread for which more queues are planned than fit makes the loop fail
init_rx_queues_loop-failed :
    (ps : List RxThreadParams) (s : RxThreads) (t : ℕ)
    → length (s.0 t).rx_queue_list ≤ max_rx_queue_per_lcore
    → max_rx_queue_per_lcore < length (planned s ps t)
    → init_rx_queues_loop ps s ≡ failed
unfolding init_rx_queues_loop queues_of
init_rx_queues_loop-failed [] s t fits many =
    let many' = rw (append-nil (s.0 t).rx_queue_list) at many in absurd (omega (arith, fits, many'))
init_rx_queues_loop-failed (p ∷ ps) s t fits many =
    elim (Bool-cases (leb max_rx_queue_per_lcore (length (s.0 p.thread_id).rx_queue_list))) [
      | inl full ↦ rw (init_rx_queue-full p s full) refl
      | inr free ↦
          let (s', run, _, plan, bound) = init_rx_queue-planned p ps s (ground arith) in
          rw run (init_rx_queues_loop-failed ps s' t (bound t fits) (rw (plan t) many))
    ]

-- Each receive thread gets the queues that the configuration names for it, in that order, and the
-- number of threads is one more than the largest thread number, where no thread has more than 16
-- and the thread table starts without queues.
pub init_rx_queues-queues :
    (params : List RxThreadParams) (rx_thread : Array ThreadRxConf)
    → ((t : ℕ) → (rx_thread t).rx_queue_list ≡ [])
    → ((t : ℕ) → length (queues_of t params) ≤ max_rx_queue_per_lcore)
    → (r : RxThreads) × (init_rx_queues params rx_thread ≡ ok r)
      × (r.1 ≡ threads_of 0 params)
      × ((t : ℕ) → (r.0 t).rx_queue_list ≡ queues_of t params)
unfolding init_rx_queues
init_rx_queues-queues params rx_thread empty fit =
    let (r, run, threads, queues) =
      init_rx_queues_loop-planned params (rx_thread, 0) (λ t. rw (empty t) (fit t)) in
    (r, run, threads, λ t. queues t ∙ ap (λ qs. qs ++ queues_of t params) (empty t))

-- If the configuration names more than 16 queues for a thread, the program stops with an error. The
-- thread table starts without queues.
init_rx_queues-failed :
    (params : List RxThreadParams) (rx_thread : Array ThreadRxConf) (t : ℕ)
    → (rx_thread t).rx_queue_list ≡ []
    → max_rx_queue_per_lcore < length (queues_of t params)
    → init_rx_queues params rx_thread ≡ failed
unfolding init_rx_queues
init_rx_queues-failed params rx_thread t empty many =
    init_rx_queues_loop-failed params (rx_thread, 0) t (rw empty (omega arith)) (rw empty many)
