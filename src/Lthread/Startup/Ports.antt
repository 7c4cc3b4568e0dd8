-- ===== src/Lthread/Startup/Ports.antt =====
-- The device part of `main` in lthread/main.c: its outcomes.
use flo_watcher_dpdk.Common.{
  ℕ, zero, suc, ◌+◌, ◌≤◌, ◌<◌, ◌≡◌, refl, true, false, List, [], ◌∷◌, arith, All, leb, Bool-cases,
  inl, inr, Array,
}
use native.Mathlib.Decide.{ℕ_discrete}
use flo_watcher_dpdk.Common.Int.{pos, ltb_ℤ}
use flo_watcher_dpdk.Lthread.{get_port_n_rx_queues}
use flo_watcher_dpdk.Lthread.Options.{Config}
use flo_watcher_dpdk.Lthread.Startup.{
  Device, nb_sockets, init_mem1, init_port, init_ports, setup_queues, setup_threads, start_ports,
}
use flo_watcher_dpdk.Outcome.{Outcome, ok, failed, exit, fault, ◌>>=◌}
use flo_watcher_dpdk.Pthread.{RxThreadParams}
use flo_watcher_dpdk.Pthread.Startup.{enabled}
use flo_watcher_dpdk.Pthread.Threads.{LcoreRxQueue, ThreadRxConf}

init_mem1-fault :
    (dev : Device) (port rounds q : ℕ)
    → ((p : ℕ) → dev.pool_create port p ≡ true)
    → q ≤ nb_sockets
    → nb_sockets < q + rounds
    → init_mem1 dev port rounds q ≡ fault
unfolding init_mem1
init_mem1-fault dev port zero q pools h k = absurd (omega arith)
init_mem1-fault dev port (suc rounds) q pools h k = elim (Bool-cases (leb nb_sockets q)) [
  | inl beyond ↦ rw beyond refl
  | inr inside ↦
      rw (inside, pools q)
        (init_mem1-fault dev port rounds (q + 1) pools (ground arith) (omega arith))
]

-- With more than 4 receive threads, the initialisation of a port that can be configured and whose
-- pools can all be created writes behind the end of `pktmbuf_pool`.
init_port-fault_lthread :
    (dev : Device) (params : List RxThreadParams) (n_rx_thread port : ℕ)
    → ltb_ℤ (dev.dev_configure port (get_port_n_rx_queues port params)) (pos 0) ≡ false
    → ((p : ℕ) → dev.pool_create port p ≡ true)
    → nb_sockets < n_rx_thread
    → init_port dev params n_rx_thread port ≡ fault
unfolding init_port
init_port-fault_lthread dev params n port configured pools many =
    rw (configured, init_mem1-fault dev port n 0 pools (omega arith) (omega arith)) refl

-- DPDK gives a pool name once: where a pool has it, a later call with this name fails
abbrev pub OnceOnly : Device → Type 0
OnceOnly dev =
    (p p' name : ℕ) → p < p' → dev.pool_create p name ≡ true → dev.pool_create p' name ≡ false

-- the outcome is not a value
abbrev pub Stops {ℓ} : {A : Type ℓ} → Outcome A → Type 0
Stops (ok a) = ⊥
Stops failed = Unit
Stops exit = Unit
Stops fault = Unit

bind-Stops {ℓ κ} :
    {A : Type ℓ} {B : Type κ} (m : Outcome A) (f : A → Outcome B)
    → ((a : A) → m ≡ ok a → Stops (f a))
    → Stops (m >>= f)
bind-Stops (ok a) f h = h a refl
bind-Stops failed f h = tt
bind-Stops exit f h = tt
bind-Stops fault f h = tt

-- an initialisation that succeeds has created the first pool
first_pool :
    (dev : Device) (params : List RxThreadParams) (n port : ℕ)
    → 0 < n
    → dev.pool_create port 0 ≡ false
    → Stops (init_port dev params n port)
unfolding init_port init_mem1
first_pool dev params zero port some e = absurd (omega arith)
first_pool dev params (suc n) port some e =
    elim (Bool-cases (ltb_ℤ (dev.dev_configure port (get_port_n_rx_queues port params)) (pos 0))) [
      | inl bad ↦ rw bad tt
      | inr good ↦ rw (good, e) tt
    ]

-- an enabled port that stops the initialisation stops it wherever it stands
init_ports-Stops :
    (dev : Device) (cfg : Config) (n rounds start port : ℕ)
    → start ≤ port
    → port < start + rounds
    → enabled cfg.enabled_port_mask port ≡ true
    → Stops (init_port dev cfg.rx_thread_params n port)
    → Stops (init_ports dev cfg n rounds start)
unfolding init_ports
init_ports-Stops dev cfg n zero start port le lt on h = absurd (omega arith)
init_ports-Stops dev cfg n (suc rounds) start port le lt on h = elim (ℕ_discrete start port) [
  | yes here ↦
      rw (here, on)
        (bind-Stops (init_port dev cfg.rx_thread_params n port) _ (λ u e. absurd (rw e at h)))
  | no later ↦
      let further =
        init_ports-Stops dev cfg n rounds (start + 1) port (omega arith) (omega arith) on h in
      elim (Bool-cases (enabled cfg.enabled_port_mask start)) [
        | inl also ↦
            rw also (bind-Stops (init_port dev cfg.rx_thread_params n start) _ (λ u e. further))
        | inr off ↦ rw off further
      ]
]

-- With two enabled ports the initialisation of the ports does not succeed: `init_mem1` creates the
-- pools of each port under the same names, and DPDK gives a name once. There is a receive thread at
-- least.
pub second_port-Stops :
    (dev : Device) (cfg : Config) (n rounds port port' : ℕ)
    → OnceOnly dev
    → 0 < n
    → port < port'
    → port' < rounds
    → enabled cfg.enabled_port_mask port ≡ true
    → enabled cfg.enabled_port_mask port' ≡ true
    → Stops (init_ports dev cfg n rounds 0)
second_port-Stops dev cfg n rounds port port' once some lt within on on' =
    elim (Bool-cases (dev.pool_create port 0)) [
      | inl made ↦
          init_ports-Stops dev cfg n rounds 0 port' (omega arith) (omega arith) on'
            (first_pool dev cfg.rx_thread_params n port' some (once port port' 0 lt made))
      | inr refused ↦
          init_ports-Stops dev cfg n rounds 0 port (omega arith) (omega arith) on
            (first_pool dev cfg.rx_thread_params n port some refused)
    ]

-- the calls for the enabled ports succeed
pub record Works (dev : Device) (mask : ℕ) : Type 0 where
  pub lcores : (l : ℕ) → dev.lcore_enabled l ≡ true
  pub rings : (n : ℕ) → dev.ring_create n ≡ true
  pub configured : (p n : ℕ) → ltb_ℤ (dev.dev_configure p n) (pos 0) ≡ false
  pub pools : (p q : ℕ) → enabled mask p ≡ true → dev.pool_create p q ≡ true
  pub memory : (p : ℕ) → ltb_ℤ (dev.mem_result p) (pos 0) ≡ false
  pub queues : (p q : ℕ) → ltb_ℤ (dev.queue_setup p q) (pos 0) ≡ false
  pub started : (p : ℕ) → ltb_ℤ (dev.dev_start p) (pos 0) ≡ false

-- queues that have a pool
abbrev pub Pooled : List LcoreRxQueue → Type 0
Pooled = All (λ queue. queue.queue_id < nb_sockets)

module _ (dev : Device) (cfg : Config) (works : Works dev cfg.enabled_port_mask) where
  init_mem1-ok :
      (port rounds q : ℕ)
      → enabled cfg.enabled_port_mask port ≡ true
      → q + rounds ≤ nb_sockets
      → init_mem1 dev port rounds q ≡ ok tt
  unfolding init_mem1
  init_mem1-ok port zero q on h = refl
  init_mem1-ok port (suc rounds) q on h =
      let inside : leb nb_sockets q ≡ false = ground arith in
      rw (inside, works.pools port q on) (init_mem1-ok port rounds (q + 1) on (omega arith))

  pub init_ports-ok_lthread :
      (n rounds port : ℕ) → n ≤ nb_sockets → init_ports dev cfg n rounds port ≡ ok tt
  unfolding init_ports init_port
  init_ports-ok_lthread n zero port few = refl
  init_ports-ok_lthread n (suc rounds) port few =
      let further = init_ports-ok_lthread n rounds (port + 1) few in
      elim (Bool-cases (enabled cfg.enabled_port_mask port)) [
        | inr off ↦ rw off further
        | inl on ↦
            rw
              (
                on,
                works.configured port (get_port_n_rx_queues port cfg.rx_thread_params),
                init_mem1-ok port n 0 on (omega arith),
                works.memory port,
              )
              further
      ]

  setup_queues-ok : (queues : List LcoreRxQueue) → Pooled queues → setup_queues dev queues ≡ ok tt
  unfolding setup_queues
  setup_queues-ok [] h = refl
  setup_queues-ok (queue ∷ queues) h =
      let inside : leb nb_sockets queue.queue_id ≡ false = ground arith in
      rw (inside, works.queues queue.port_id queue.queue_id) (setup_queues-ok queues h.1)

  pub setup_threads-ok :
      (rx_thread : Array ThreadRxConf) (rounds i : ℕ)
      → ((t : ℕ) → Pooled (rx_thread t).rx_queue_list)
      → setup_threads dev rx_thread rounds i ≡ ok tt
  unfolding setup_threads
  setup_threads-ok rx_thread zero i h = refl
  setup_threads-ok rx_thread (suc rounds) i h =
      rw (works.lcores (rx_thread i).lcore_id, setup_queues-ok (rx_thread i).rx_queue_list (h i))
        (setup_threads-ok rx_thread rounds (i + 1) h)

  pub start_ports-ok : (rounds port : ℕ) → start_ports dev cfg.enabled_port_mask rounds port ≡ ok tt
  unfolding start_ports
  start_ports-ok zero port = refl
  start_ports-ok (suc rounds) port = elim (Bool-cases (enabled cfg.enabled_port_mask port)) [
    | inl on ↦ rw (on, works.started port) (start_ports-ok rounds (port + 1))
    | inr off ↦ rw off (start_ports-ok rounds (port + 1))
  ]
