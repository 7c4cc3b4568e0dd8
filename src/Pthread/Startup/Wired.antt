-- ===== src/Pthread/Startup/Wired.antt =====
-- What `main` of pthread/main.c has set up when it starts the threads: the rings between them.
use flo_watcher_dpdk.Common.{
  ℕ, ◌<◌, ◌≡◌, refl, sym, ◌∙◌, ap, List, [], ◌∷◌, ◌++◌, length, Array, update, arith, leb, ◌==◌,
  Bool-cases, inl, inr,
}
use flo_watcher_dpdk.Common.Int.{pos, ltb_ℤ}
use flo_watcher_dpdk.Outcome.{
  Outcome, ok, failed, exit, fault, or_exit, Ensures, bind-Ensures, bind_any-Ensures,
}
use flo_watcher_dpdk.Pthread.{max_rx_queue_per_lcore, RxThreadParams}
use flo_watcher_dpdk.Pthread.Options.{Opt, Config, Strsplit, parse_args}
use flo_watcher_dpdk.Pthread.Startup.{Device, Setup, init_ports, start_up}
use flo_watcher_dpdk.Pthread.Threads.{
  ThreadRxConf, ThreadTxConf, RxThreads, init_rx_queue, init_rx_queues_loop, init_rx_queues,
  init_tx_threads, init_rx_rings,
}
use flo_watcher_dpdk.Pthread.Threads.Links.{rings_of, rings_of-some, Links, init_rx_rings-Links}

-- each receive thread has the rings of the counting threads that name it, in their order, and each
-- counting thread has a ring of its own
pub record Wired (s : Setup) : Type 0 where
  pub rings :
      (rx : ℕ)
      → (s.rx_thread rx).rings ≡ rings_of (λ i. (s.tx_thread i).thread_id) rx s.n_tx_thread 0
  pub reads : (i : ℕ) → i < s.n_tx_thread → (s.tx_thread i).ring ≡ i

-- no receive thread has a ring yet
abbrev pub Ringless : Array ThreadRxConf → Type 0
Ringless rx_thread = (t : ℕ) → (rx_thread t).rings ≡ []

-- a counting thread names each receive thread in use
abbrev pub Named : Setup → Type 0
Named s =
    (rx : ℕ) → rx < s.n_rx_thread → (i : ℕ) × (i < s.n_tx_thread) × ((s.tx_thread i).thread_id ≡ rx)

-- then each receive thread in use has a ring
pub Named-ring :
    (s : Setup)
    → Wired s
    → Named s
    → (i : ℕ) → i < s.n_rx_thread
    → (n : ℕ) × (rest : List ℕ) × ((s.rx_thread i).rings ≡ n ∷ rest)
Named-ring s w named i used =
    let (j, lt, names) = named i used in
    let (n, rest, e) =
      rings_of-some (λ j. (s.tx_thread j).thread_id) i s.n_tx_thread 0 j (omega arith) (omega arith)
        names in
    (n, rest, w.rings i ∙ e)

init_rx_queue-Ringless :
    (p : RxThreadParams) (s : RxThreads)
    → Ringless s.0
    → Ensures (λ r. Ringless r.0) (init_rx_queue p s)
unfolding init_rx_queue update
init_rx_queue-Ringless p s h =
    elim (Bool-cases (leb max_rx_queue_per_lcore (length (s.0 p.thread_id).rx_queue_list))) [
      | inl full ↦ rw full tt
      | inr free ↦ rw free (λ t. elim (Bool-cases (t == p.thread_id)) [
        | inl own ↦ rw own (h p.thread_id)
        | inr other ↦ rw other (h t)
      ])
    ]

init_rx_queues_loop-Ringless :
    (ps : List RxThreadParams) (s : RxThreads)
    → Ringless s.0
    → Ensures (λ r. Ringless r.0) (init_rx_queues_loop ps s)
unfolding init_rx_queues_loop
init_rx_queues_loop-Ringless [] s h = h
init_rx_queues_loop-Ringless (p ∷ ps) s h =
    bind-Ensures (λ r. Ringless r.0) (λ r. Ringless r.0) (init_rx_queue p s)
      (λ s'. init_rx_queues_loop ps s') (init_rx_queue-Ringless p s h)
      (init_rx_queues_loop-Ringless ps)

or_exit-Ensures :
    {A : Type 0} (P : A → Type 0) (m : Outcome A) → Ensures P m → Ensures P (or_exit m)
or_exit-Ensures P (ok a) h = h
or_exit-Ensures P failed h = tt
or_exit-Ensures P exit h = tt
or_exit-Ensures P fault h = tt

-- the links that `init_rx_rings` leaves, where no thread had a ring before
Links-Wired :
    (rx : RxThreads) (tx : Array ThreadTxConf × ℕ) (r : Array ThreadRxConf × Array ThreadTxConf)
    (cfg : Config)
    → Ringless rx.0
    → Links (λ i. (tx.0 i).thread_id) tx.1 0 (rx.0, tx.0) r
    → Wired (record {
      config = cfg;
      rx_thread = r.0;
      n_rx_thread = rx.1;
      tx_thread = r.1;
      n_tx_thread = tx.1;
    })
Links-Wired rx tx r cfg empty h = record {
  rings = λ t.
      h.rings t
      ∙ ap (λ qs. qs ++ rings_of (λ i. (tx.0 i).thread_id) t tx.1 0) (empty t)
      ∙ sym (rings_of_congr (λ i. (r.1 i).thread_id) (λ i. (tx.0 i).thread_id) t tx.1 0 h.names);
  reads = λ i lt. ground (arith, h.reads i);
}
  where
    rings_of_congr :
        (f g : ℕ → ℕ) (rx rounds n : ℕ)
        → ((i : ℕ) → f i ≡ g i)
        → rings_of f rx rounds n ≡ rings_of g rx rounds n
    rings_of_congr f g rx rounds n e = ap (λ k. rings_of k rx rounds n) (λ j i. e i j)

-- When `main` starts the threads, the rings are where they belong: each receive thread has the rings
-- of the counting threads that name it, in their order, and each counting thread has one of its own.
-- The thread table starts without rings.
pub start_up-Wired :
    (dev : Device) (strsplit : Strsplit) (opts : List Opt) (config : Config)
    (rx_thread : Array ThreadRxConf) (tx_thread : Array ThreadTxConf)
    → Ringless rx_thread
    → Ensures Wired (start_up dev strsplit opts config rx_thread tx_thread)
unfolding start_up init_rx_queues
start_up-Wired dev strsplit opts config rx_thread tx_thread empty =
    elim (Bool-cases (ltb_ℤ dev.eal_init (pos 0))) [
      | inl bad ↦ rw bad tt
      | inr good ↦ rw good (
          bind_any-Ensures Wired (or_exit (parse_args strsplit opts config)) _ λ cfg.
            bind-Ensures (λ rx. Ringless rx.0) Wired
              (or_exit (init_rx_queues cfg.rx_thread_params rx_thread)) _
              (or_exit-Ensures (λ rx. Ringless rx.0) _
                (init_rx_queues_loop-Ringless cfg.rx_thread_params (rx_thread, 0) empty))
              λ rx rings.
                let tx = init_tx_threads cfg.tx_thread_params (tx_thread, 0) in
                let links = Links (λ i. (tx.0 i).thread_id) tx.1 0 (rx.0, tx.0) in
                bind-Ensures links Wired
                  (or_exit (init_rx_rings dev.ring_create dev.max_lcore tx.1 tx.1 0 (rx.0, tx.0))) _
                  (or_exit-Ensures links _ (
                    init_rx_rings-Links dev.ring_create dev.max_lcore tx.1 (λ i. (tx.0 i).thread_id)
                      tx.1 0 (rx.0, tx.0) (λ i. refl)))
                  λ linked h.
                    bind_any-Ensures Wired
                      (init_ports dev cfg.enabled_port_mask rx.1 dev.dev_count 0) _
                      λ u. Links-Wired rx tx linked cfg rings h)
    ]
