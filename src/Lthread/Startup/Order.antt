-- ===== src/Lthread/Startup/Order.antt =====
-- `main` of lthread/main.c as a whole: which options it ignores, and what it hands to the threads.
use flo_watcher_dpdk.Common.{
  ℕ, ◌+◌, ◌≤◌, ◌<◌, ◌≡◌, refl, ap, ◌∙◌, ◌⊎◌, Bool, true, false, List, [], ◌∷◌, ◌++◌, length, arith,
  All, Array, update, leb, ◌==◌, ==_refl, ne→==-false, Bool-cases, inl, inr,
}
use native.Mathlib.Decide.{ℕ_discrete}
use flo_watcher_dpdk.Common.Int.{ℤ, pos, ltb_ℤ}
use flo_watcher_dpdk.Lthread.{max_rx_queue_per_port, check_lcore_params}
use flo_watcher_dpdk.Lthread.Options.{
  Opt, unknown, Config, Round, continues, returns, apply_option, parse_args,
}
use flo_watcher_dpdk.Lthread.Startup.{Device, nb_sockets, Setup, bring_up, start_up}
use flo_watcher_dpdk.Lthread.Startup.Ports.{
  Works, Pooled, init_ports-ok_lthread, setup_threads-ok, start_ports-ok,
}
use flo_watcher_dpdk.Lthread.Threads.{ThreadTxConf, init_rx_queues, init_tx_threads}
use flo_watcher_dpdk.Lthread.Threads.Links.{Linked, init_rx_rings-Linked}
use flo_watcher_dpdk.Lthread.Threads.Queues.{init_rx_queues-or_exit, add_rx_queues-rings}
use flo_watcher_dpdk.Outcome.{ok, or_exit}
use flo_watcher_dpdk.Pthread.{max_rx_queue_per_lcore, RxThreadParams, TxThreadParams}
use flo_watcher_dpdk.Pthread.Options.{Strsplit}
use flo_watcher_dpdk.Pthread.Threads.{ThreadRxConf}
use flo_watcher_dpdk.Pthread.Threads.Queues.{queues_of, threads_of, init_rx_queues-queues}

-- what `parse_args` leaves, where it does not return an error below 0
abbrev Accepts : ℤ × Config → ℤ × Config → Type 0
Accepts a b = (ltb_ℤ a.0 (pos 0) ≡ ltb_ℤ b.0 (pos 0)) × (a.1 ≡ b.1)

Round-cases :
    (r : Round)
    → ((cfg : Config) × (r ≡ continues cfg)) ⊎ ((ret : ℤ) × (cfg : Config) × (r ≡ returns ret cfg))
Round-cases (continues cfg) = inl (cfg, refl)
Round-cases (returns ret cfg) = inr (ret, cfg, refl)

parse_args-unknown :
    (strsplit : Strsplit) (consumed consumed' : ℕ) (opts ignored : List Opt) (cfg : Config)
    → Accepts
        (parse_args strsplit consumed (opts ++ unknown ∷ ignored) cfg)
        (parse_args strsplit consumed' opts cfg)
unfolding parse_args apply_option
parse_args-unknown strsplit consumed consumed' [] ignored cfg = (ground arith, refl)
parse_args-unknown strsplit consumed consumed' (opt ∷ opts) ignored cfg =
    elim (Round-cases (apply_option strsplit opt cfg)) [
      | inl (cfg', e) ↦
          rw (e, parse_args) (parse_args-unknown strsplit consumed consumed' opts ignored cfg')
      | inr (ret, cfg', e) ↦ rw (e, parse_args) (refl, refl)
    ]

-- An option that lthread does not know does not end the program: `main` goes on as if this option
-- and all behind it had not been given.
pub start_up-unknown :
    (dev : Device) (strsplit : Strsplit) (consumed consumed' : ℕ) (opts ignored : List Opt)
    (cfg : Config) (rx_thread : Array ThreadRxConf) (tx_thread : Array ThreadTxConf)
    → start_up dev strsplit consumed (opts ++ unknown ∷ ignored) cfg rx_thread tx_thread
      ≡ start_up dev strsplit consumed' opts cfg rx_thread tx_thread
unfolding start_up
start_up-unknown dev strsplit consumed consumed' opts ignored cfg rx_thread tx_thread =
    let (ret, left) = parse_args-unknown strsplit consumed consumed' opts ignored cfg in
    rw (ret, left) refl

-- the queues of the parameters have pools
abbrev pub PooledParams : List RxThreadParams → Type 0
PooledParams = All (λ p. p.queue_id < nb_sockets)

queues_of-Pooled : (t : ℕ) (ps : List RxThreadParams) → PooledParams ps → Pooled (queues_of t ps)
unfolding queues_of
queues_of-Pooled t [] h = tt
queues_of-Pooled t (p ∷ ps) h = elim (Bool-cases (p.thread_id == t)) [
  | inl own ↦ rw own (h.0, queues_of-Pooled t ps h.1)
  | inr other ↦ rw other (queues_of-Pooled t ps h.1)
]

check_lcore_params-ok :
    (is_enabled : ℕ → Bool) (ps : List RxThreadParams)
    → ((l : ℕ) → is_enabled l ≡ true)
    → PooledParams ps
    → check_lcore_params is_enabled ps ≡ ok tt
unfolding check_lcore_params
check_lcore_params-ok is_enabled [] on h = refl
check_lcore_params-ok is_enabled (p ∷ ps) on h =
    let known : leb max_rx_queue_per_port p.queue_id ≡ false = ground arith in
    rw (known, on p.lcore_id) (check_lcore_params-ok is_enabled ps on h.1)

-- the receive threads that the counting threads name are at most `bound`
abbrev pub Named : ℕ → Array ThreadTxConf → Type 0
Named bound t = (i : ℕ) → (t i).thread_id ≤ bound

init_tx_threads-Named :
    (ps : List TxThreadParams) (bound : ℕ) (s : Array ThreadTxConf × ℕ)
    → All (λ p. p.thread_id ≤ bound) ps
    → Named bound s.0
    → Named bound (init_tx_threads ps s).0 × ((init_tx_threads ps s).1 ≡ s.1 + length ps)
unfolding init_tx_threads update
init_tx_threads-Named [] bound s h k = (k, omega arith)
init_tx_threads-Named (p ∷ ps) bound (t, n) h k =
    let conf = record (t n) { thread_id = p.thread_id; lcore_id = p.lcore_id } in
    let (named, many) =
      init_tx_threads-Named ps bound (update t n conf, n + 1) h.1
        (λ i. elim (ℕ_discrete i n) [
          | yes own ↦ rw (own, ==_refl n) h.0
          | no other ↦ rw (ne→==-false i n other) (k i)
        ]) in
    (named, omega (arith, many))

module _ (dev : Device) (cfg : Config) (works : Works dev cfg.enabled_port_mask) where
  -- Where the DPDK calls succeed, at most 4 receive threads have queues below 4, at most 16 each, at
  -- most RTE_MAX_LCORE counting threads name receive threads up to their own number, and the thread
  -- tables start empty, `main` reaches the start of the threads: each receive thread has the queues
  -- that the configuration names for it, and each counting thread its ring and the condition variable
  -- that the receive thread which it names has for this ring.
  pub bring_up-ready :
      (rx_thread : Array ThreadRxConf) (tx_thread : Array ThreadTxConf)
      → ((t : ℕ) → (rx_thread t).rx_queue_list ≡ [])
      → ((t : ℕ) → (rx_thread t).rings ≡ [])
      → ((t : ℕ) → length (queues_of t cfg.rx_thread_params) ≤ max_rx_queue_per_lcore)
      → PooledParams cfg.rx_thread_params
      → threads_of 0 cfg.rx_thread_params ≤ nb_sockets
      → length cfg.tx_thread_params ≤ dev.max_lcore
      → All (λ p. p.thread_id ≤ length cfg.tx_thread_params) cfg.tx_thread_params
      → Named (length cfg.tx_thread_params) tx_thread
      → (r : Setup) × (bring_up dev rx_thread tx_thread cfg ≡ ok r)
        × (r.n_rx_thread ≡ threads_of 0 cfg.rx_thread_params)
        × ((t : ℕ) → (r.rx_thread t).rx_queue_list ≡ queues_of t cfg.rx_thread_params)
        × (r.n_tx_thread ≡ length cfg.tx_thread_params)
        × ((i : ℕ) → i < r.n_tx_thread → Linked (r.rx_thread, r.tx_thread) i)
  unfolding bring_up init_rx_queues
  bring_up-ready rx_thread tx_thread no_queues no_rings fit pooled few some names named =
      let params = cfg.rx_thread_params in
      let checked = check_lcore_params-ok dev.lcore_enabled params works.lcores pooled in
      let (rx, run, n_rx, queues) = init_rx_queues-queues params rx_thread no_queues fit in
      let started : init_rx_queues params rx_thread ≡ ok rx =
        init_rx_queues-or_exit params rx_thread ∙ ap or_exit run in
      let kept = rw started at (add_rx_queues-rings params (rx_thread, 0)) in
      let tx = init_tx_threads cfg.tx_thread_params (tx_thread, 0) in
      let (tx_names, n_tx) =
        init_tx_threads-Named cfg.tx_thread_params (length cfg.tx_thread_params) (tx_thread, 0)
          names named in
      let count : tx.1 ≡ length cfg.tx_thread_params = omega (arith, n_tx) in
      let (linked, rings, all, same) =
        init_rx_rings-Linked dev.ring_create dev.max_lcore tx.1 works.rings (rx.0, tx.0)
          (λ i. omega (arith, count, tx_names i)) (omega arith) (λ t. kept t ∙ no_rings t) in
      let lists = λ (t : ℕ). same t ∙ queues t in
      (
        record {
          config = cfg;
          rx_thread = linked.0;
          n_rx_thread = rx.1;
          tx_thread = linked.1;
          n_tx_thread = tx.1;
        },
        rw
            (
              checked,
              started,
              rings,
              init_ports-ok_lthread dev cfg works rx.1 dev.dev_count 0 (omega arith),
              setup_threads-ok dev cfg works linked.0 rx.1 0
                  (λ t. rw (lists t) (queues_of-Pooled t params pooled)),
              start_ports-ok dev cfg works dev.dev_count 0,
            )
            refl,
        n_rx,
        lists,
        count,
        all,
      )
