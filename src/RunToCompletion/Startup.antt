-- ===== src/RunToCompletion/Startup.antt =====
-- The start of run_to_completion/main.c: the device part of `port_init`, and `main` up to the launch
-- of the receive loops. What DPDK returns is a parameter; what the calls configure is not modelled.
use flo_watcher_dpdk.Common.{
  ℕ, zero, suc, ◌+◌, ◌-◌, ◌≡◌, refl, ap, Bool, true, false, not, ◌&&◌, List, [], ◌∷◌, map, take,
  leb, ltb, ◌==◌, if◌then◌else◌, arith, length,
}
use flo_watcher_dpdk.Common.Int.{ℤ, pos, ltb_ℤ, is_zero}
use flo_watcher_dpdk.Outcome.{Outcome, ok, failed, exit, ◌>>=◌, or_exit}
use flo_watcher_dpdk.RunToCompletion.{rx_rings}

-- the results of the DPDK calls: `rte_eal_init`, `rte_pktmbuf_pool_create` for each queue,
-- `rte_eth_dev_count`, `rte_eth_dev_configure`, `rte_eth_rx_queue_setup` for each queue,
-- `rte_eth_dev_start`
pub record Device : Type 0 where
  pub eal_init : ℤ
  pub pool_create : ℕ → Bool
  pub dev_count : ℕ
  pub dev_configure : ℤ
  pub queue_setup : ℕ → ℤ
  pub dev_start : ℤ

-- for (q = 0; q < rx_rings; q++) with its early return, from queue `q` on
unfoldable pub setup_queues : Device → ℕ → ℕ → Outcome {0} Unit
setup_queues dev zero q = ok tt
setup_queues dev (suc rounds) q =
    let further = setup_queues dev rounds (q + 1) in
    if ltb_ℤ (dev.queue_setup q) (pos 0) then failed else further

-- the device part of `port_init`
unfoldable pub port_init : Device → ℕ → Outcome {0} Unit
port_init dev port =
    if leb dev.dev_count port
    then failed
    else if not (is_zero dev.dev_configure)
    then failed
    else setup_queues dev rx_rings 0
      >>= (λ u. if ltb_ℤ dev.dev_start (pos 0) then failed else ok tt)

-- the loop of `main` over the packet pools
unfoldable pub create_pools : Device → ℕ → ℕ → Outcome {0} Unit
create_pools dev zero q = ok tt
create_pools dev (suc rounds) q =
    let further = create_pools dev rounds (q + 1) in if dev.pool_create q then further else exit

-- RTE_LCORE_FOREACH_SLAVE (lcore_id): which lcore polls which queue; the loop ends with the
-- lcores or behind the launch for queue RX_RINGS - 1
unfoldable pub launch : ℕ → ℕ → List ℕ → List (ℕ × ℕ)
launch rings queue_id [] = []
launch rings queue_id (lcore ∷ lcores) =
    let further = launch rings (queue_id + 1) lcores in
    (lcore, queue_id) ∷ (if queue_id == rings - 1 then [] else further)

-- `main` with the table initialisation `table` of the build; the receive loops that it launches
unfoldable pub start_up {ℓ} :
    {T : Type ℓ} → Device → ℕ → List ℕ → Outcome T → Outcome (T × List (ℕ × ℕ))
start_up dev port lcores table =
    if ltb_ℤ dev.eal_init (pos 0)
    then exit
    else create_pools dev rx_rings 0 >>= (λ u.
      or_exit (table >>= (λ t. port_init dev port >>= (λ u. ok t)))
      >>= (λ t. ok (t, launch rx_rings 0 lcores)))

-- every call of the start succeeds
unfoldable pub works : Device → ℕ → Bool
works dev port =
    not (ltb_ℤ dev.eal_init (pos 0))
    && dev.pool_create 0
    && ltb port dev.dev_count
    && is_zero dev.dev_configure
    && not (ltb_ℤ (dev.queue_setup 0) (pos 0))
    && not (ltb_ℤ dev.dev_start (pos 0))

-- Where the table initialisation succeeds, the program reaches its receive loops if the EAL and the
-- packet pool initialise, the port exists, its configuration returns 0, and the queue setup and the
-- start return no error. In all other cases it ends by `rte_exit`.
start_up-works :
    {T : Type 0} (dev : Device) (port : ℕ) (lcores : List ℕ) (t : T)
    → start_up dev port lcores (ok t)
      ≡ (if works dev port then ok (t, launch rx_rings 0 lcores) else exit)
unfolding works start_up create_pools port_init setup_queues
start_up-works dev port lcores t = ground arith

-- k, k + 1, …, n numbers in all
unfoldable pub range : ℕ → ℕ → List ℕ
range zero k = []
range (suc n) k = k ∷ range n (k + 1)

launch_from :
    (n rings k : ℕ) (lcores : List ℕ)
    → rings ≡ k + suc n
    → let served = take (suc n) lcores in
      (map (λ e. e.0) (launch rings k lcores) ≡ served)
      × (map (λ e. e.1) (launch rings k lcores) ≡ range (length served) k)
unfolding launch range
launch_from n rings k [] h = (refl, refl)
launch_from zero rings k (c ∷ cs) h =
    let last : (k == rings - 1) ≡ true = ground arith in rw last (refl, refl)
launch_from (suc n) rings k (c ∷ cs) h =
    let more : (k == rings - 1) ≡ false = ground arith in
    let (lcores, queues) = launch_from n rings (k + 1) cs (omega arith) in
    rw more (ap (λ t. c ∷ t) lcores, ap (λ t. k ∷ t) queues)

-- Each queue is polled by one lcore, in the order of both, until the queues or the lcores run out.
launch-queues :
    (n : ℕ) (lcores : List ℕ)
    → let served = take (suc n) lcores in
      (map (λ e. e.0) (launch (suc n) 0 lcores) ≡ served)
      × (map (λ e. e.1) (launch (suc n) 0 lcores) ≡ range (length served) 0)
launch-queues n lcores = launch_from n (suc n) 0 lcores (omega arith)
