-- ===== src/Pthread/Startup/Ports.antt =====
-- The device part of `main` in pthread/main.c: its outcomes.
use flo_watcher_dpdk.Common.{
  ℕ, zero, suc, ◌+◌, ◌≤◌, ◌<◌, ◌≡◌, refl, true, false, arith, leb, Bool-cases, inl, inr,
}
use flo_watcher_dpdk.Common.Int.{pos, ltb_ℤ}
use flo_watcher_dpdk.Outcome.{ok, fault}
use flo_watcher_dpdk.Pthread.Startup.{
  Device, nb_sockets, enabled, setup_queues, init_port, init_ports,
}

-- the calls for a port succeed
pub record Works (dev : Device) (port : ℕ) : Type 0 where
  pub configured : ltb_ℤ (dev.dev_configure port) (pos 0) ≡ false
  pub pools : (q : ℕ) → dev.pool_create port q ≡ true
  pub queues : (q : ℕ) → ltb_ℤ (dev.queue_setup port q) (pos 0) ≡ false
  pub started : ltb_ℤ (dev.dev_start port) (pos 0) ≡ false

setup_queues-ok :
    (dev : Device) (port rounds q : ℕ)
    → Works dev port
    → q + rounds ≤ nb_sockets
    → setup_queues dev port rounds q ≡ ok tt
unfolding setup_queues
setup_queues-ok dev port zero q w h = refl
setup_queues-ok dev port (suc rounds) q w h =
    let inside : leb nb_sockets q ≡ false = ground arith in
    rw (inside, w.pools q, w.queues q) (setup_queues-ok dev port rounds (q + 1) w (omega arith))

setup_queues-fault :
    (dev : Device) (port rounds q : ℕ)
    → Works dev port
    → q ≤ nb_sockets
    → nb_sockets < q + rounds
    → setup_queues dev port rounds q ≡ fault
unfolding setup_queues
setup_queues-fault dev port zero q w h k = absurd (omega arith)
setup_queues-fault dev port (suc rounds) q w h k = elim (Bool-cases (leb nb_sockets q)) [
  | inl beyond ↦ rw beyond refl
  | inr inside ↦
      rw (inside, w.pools q, w.queues q)
        (setup_queues-fault dev port rounds (q + 1) w (ground arith) (omega arith))
]

-- Where the calls for every enabled port succeed and there are at most 4 receive threads, the
-- initialisation of the ports ends.
init_ports-ok :
    (dev : Device) (mask n_rx_thread rounds port : ℕ)
    → ((p : ℕ) → enabled mask p ≡ true → Works dev p)
    → n_rx_thread ≤ nb_sockets
    → init_ports dev mask n_rx_thread rounds port ≡ ok tt
unfolding init_ports init_port
init_ports-ok dev mask n zero port works few = refl
init_ports-ok dev mask n (suc rounds) port works few =
    let further = init_ports-ok dev mask n rounds (port + 1) works few in
    elim (Bool-cases (enabled mask port)) [
      | inr off ↦ rw off further
      | inl on ↦
          let w = works port on in
          rw (on, w.configured, setup_queues-ok dev port n 0 w (omega arith), w.started) further
    ]

-- With more than 4 receive threads, the first enabled port whose calls succeed writes behind the end
-- of `pktmbuf_pool`, which is as long as NB_SOCKETS but indexed by the queue.
init_port-fault :
    (dev : Device) (n_rx_thread port : ℕ)
    → Works dev port
    → nb_sockets < n_rx_thread
    → init_port dev n_rx_thread port ≡ fault
unfolding init_port
init_port-fault dev n port w many =
    rw (w.configured, setup_queues-fault dev port n 0 w (omega arith) (omega arith)) refl
