-- ===== src/Lthread/Pipeline/Wakeups.antt =====
-- When a counting thread of lthread/main.c sleeps, and what then waits in its ring.
use native.Mathlib.Decide.{ℕ_discrete}
use flo_watcher_dpdk.Common.{
  ℕ, zero, suc, ◌+◌, ◌%◌, ◌≤◌, ◌<◌, ◌≡◌, refl, ap, ◌∙◌, Bool, true, false, List, [], ◌∷◌, length,
  length-append, take, arith, Array, update, leb, ==_refl, ne→==-false, Bool-cases, inl, inr,
}
use flo_watcher_dpdk.Double.{Arithmetic}
use flo_watcher_dpdk.Dpdk.{Mbuf}
use flo_watcher_dpdk.Lthread.{burst_size}
use flo_watcher_dpdk.Lthread.Pipeline.{
  Cond, IsCond, State, Event, receive, dequeue, wait, Setting, update_2, view, signal_all,
  receive_queue, count_taken, at_dequeue, lthread_tx_per_ring, cond_wait, step, run,
}
use flo_watcher_dpdk.Lthread.Receive
use flo_watcher_dpdk.Lthread.Receive.{lthread_rx_queue}
use flo_watcher_dpdk.Ring.{Ring, IsFifo, Greedy}

-- The turns of the threads where nothing comes between the moment at which a counting thread finds
-- its ring empty and its wait.
pub data Turn : Type 0 where
  receives : (rx queueid : ℕ) → List Mbuf → Turn
  serves : (rx w : ℕ) → Turn

unfoldable pub events : List Turn → List Event
events [] = []
events (receives rx queueid bufs ∷ ts) = receive rx queueid bufs ∷ events ts
events (serves rx w ∷ ts) = dequeue rx w ∷ wait rx w ∷ events ts

clash : (b : Bool) → b ≡ false → b ≡ true → ⊥
clash b p q = cc

pub update_2_self : {A : Type 0} (a : Array (Array A)) (i j : ℕ) (v : A) → update_2 a i j v i j ≡ v
unfolding update
update_2_self a i j v = rw (==_refl i, ==_refl j) refl

length-take : (n : ℕ) (ms : List Mbuf) → n ≤ length ms → length (take n ms) ≡ n
length-take zero ms h = refl
length-take (suc n) [] h = absurd (omega arith)
length-take (suc n) (m ∷ ms) h = omega (arith, length-take n ms (omega arith))

module _ {R C : Type 0} (ops : Ring R) (cond : Cond C) where
  -- no more packets wait in the ring of a thread that sleeps than came in since its last signal
  abbrev pub Calm : Array ℕ → Array R → Array C → ℕ → Type 0
  Calm len rings ready w =
      (len w < burst_size)
      × (cond.blocked (ready w) ≡ true → length (ops.contents (rings w)) ≤ len w)

  module _ (fifo : IsFifo ops) (laws : IsCond cond) where
    pub waiting-taken :
        (r : R) (bufs : List Mbuf)
        → let e = ops.enqueue_burst r bufs in
          length (ops.contents e.1) ≡ length (ops.contents r) + e.0
    waiting-taken r bufs =
        let e = ops.enqueue_burst r bufs in
        let (fits, new) = fifo.enqueue_takes r bufs in
        omega (
          arith,
          ap (λ t. length t) new,
          length-append (ops.contents r) (take e.0 bufs),
          length-take e.0 bufs fits,
        )

    queue-Calm :
        (n_ring queueid : ℕ) (bufs : List Mbuf) (v : Receive.State R) (ready : Array C)
        → v.signals ≡ []
        → ((w : ℕ) → Calm v.len v.rings ready w)
        → let v' = lthread_rx_queue ops n_ring queueid bufs v in
          (w : ℕ) → Calm v'.len v'.rings (signal_all cond v'.signals ready) w
    unfolding lthread_rx_queue update signal_all
    queue-Calm n_ring queueid [] v ready none h w = rw none (h w)
    queue-Calm n_ring queueid (m ∷ ms) v ready none h w =
        let own = (v.worker_id + 1) % n_ring in
        let e = ops.enqueue_burst (v.rings own) (m ∷ ms) in
        let grown = waiting-taken (v.rings own) (m ∷ ms) in
        let before = h own in
        elim (Bool-cases (leb burst_size (v.len own + e.0))) [
          | inl full ↦ elim (ℕ_discrete w own) [
            | yes here ↦
                rw (none, full, here, ==_refl own)
                  (
                    omega arith,
                    λ b. absurd (
                        clash (cond.blocked (cond.signal (ready own)))
                          (laws.signal_wakes (ready own)) b),
                  )
            | no there ↦ rw (none, full, ne→==-false w own there) (h w)
          ]
          | inr room ↦ elim (ℕ_discrete w own) [
            | yes here ↦
                rw (none, room, here, ==_refl own)
                  (ground arith, λ b. omega (arith, grown, before.1 b))
            | no there ↦ rw (none, room, ne→==-false w own there) (h w)
          ]
        ]

module _ {R C F : Type 0} ⦃fp : Arithmetic F⦄ (ops : Ring R) (cond : Cond C) (k : Setting) where
  -- between turns
  abbrev pub Settled : State R C F → Type 0
  Settled s =
      (rx w : ℕ) → (s.emptied rx w ≡ false) × Calm ops cond (s.len rx) (s.rings rx) (s.ready rx) w

  module _ (fifo : IsFifo ops) (greedy : Greedy ops) (laws : IsCond cond) where
    receive-Settled :
        (rx queueid : ℕ) (bufs : List Mbuf) (s : State R C F)
        → Settled s
        → Settled (receive_queue ops cond k rx queueid bufs s)
    unfolding receive_queue update
    receive-Settled rx queueid bufs s h i w = elim (ℕ_discrete i rx) [
      | yes own ↦
          rw (own, ==_refl rx)
            (
              (h rx w).0,
              queue-Calm ops cond fifo laws (k.n_ring rx) queueid bufs (view ops cond k rx s)
                  (s.ready rx) refl (λ j. (h rx j).1) w,
            )
      | no other ↦ rw (ne→==-false i rx other) (h i w)
    ]

    -- a ring with no more packets than before
    drawn :
        (rx w : ℕ) (r : R) (s : State R C F)
        → Settled s
        → length (ops.contents r) ≤ length (ops.contents (s.rings rx w))
        → Settled (record s { rings = update_2 s.rings rx w r })
    unfolding update
    drawn rx w r s h fewer i j = elim (ℕ_discrete i rx) [
      | no other ↦ rw (ne→==-false i rx other) (h i j)
      | yes own ↦ elim (ℕ_discrete j w) [
        | no apart ↦ rw (own, ==_refl rx, ne→==-false j w apart) (h rx j)
        | yes here ↦
            let (resolved, small_few) = h rx w in
            rw (own, here, ==_refl rx, ==_refl w)
              (resolved, (small_few.0, λ b. omega (arith, small_few.1 b)))
      ]
    ]

    -- a thread with an empty ring goes to sleep
    slept :
        (rx w : ℕ) (s : State R C F)
        → Settled s
        → length (ops.contents (s.rings rx w)) ≡ 0
        → Settled (record s {
          ready = update_2 s.ready rx w (cond.wait (s.ready rx w));
          emptied = update_2 (update_2 s.emptied rx w true) rx w false;
        })
    unfolding update
    slept rx w s h none i j = elim (ℕ_discrete i rx) [
      | no other ↦ rw (ne→==-false i rx other) (h i j)
      | yes own ↦ elim (ℕ_discrete j w) [
        | no apart ↦ rw (own, ==_refl rx, ne→==-false j w apart) (h rx j)
        | yes here ↦
            rw (own, here, ==_refl rx, ==_refl w) (refl, ((h rx w).1.0, λ b. omega (arith, none)))
      ]
    ]

    rested :
        (rx w : ℕ) (s : State R C F)
        → Settled s
        → length (ops.contents (s.rings rx w)) ≡ 0
        → Settled (cond_wait ops cond k rx w (record s { emptied = update_2 s.emptied rx w true }))
    unfolding cond_wait
    rested rx w s h none = rw (update_2_self s.emptied rx w true) (slept rx w s h none)

    counted-Settled :
        (rx w : ℕ) (bufs : List Mbuf) (s : State R C F)
        → Settled s
        → (bufs ≡ [] → length (ops.contents (s.rings rx w)) ≡ 0)
        → Settled (cond_wait ops cond k rx w (count_taken ops cond k rx w bufs s))
    unfolding count_taken
    counted-Settled rx w [] s h none = rested rx w s h (none refl)
    counted-Settled rx w (m ∷ ms) s h none = unfold cond_wait in rw (h rx w).0 h

    serve-Settled :
        (rx w : ℕ) (s : State R C F)
        → Settled s
        → Settled (step ops cond k (wait rx w) (step ops cond k (dequeue rx w) s))
    unfolding step lthread_tx_per_ring
    serve-Settled rx w s h = elim (Bool-cases (at_dequeue ops cond k rx w s)) [
      | inr off ↦ rw off (unfold cond_wait in rw (h rx w).0 h)
      | inl on ↦
          let taken = ops.dequeue_burst (s.rings rx w) burst_size in
          let split = ap (λ t. length t) (fifo.dequeue_gives (s.rings rx w) burst_size).1 in
          let parts = length-append taken.0 (ops.contents taken.1) in
          let many = greedy (s.rings rx w) burst_size in
          rw on (
            counted-Settled rx w taken.0 (record s { rings = update_2 s.rings rx w taken.1 })
              (drawn rx w taken.1 s h (omega (arith, split, parts)))
              (λ nil.
                ap (λ r. length (ops.contents r)) (update_2_self s.rings rx w taken.1)
                ∙ omega (arith, split, parts, many, ap (λ t. length t) nil)))
    ]

    run-Settled :
        (ts : List Turn) (s : State R C F) → Settled s → Settled (run ops cond k (events ts) s)
    unfolding run events
    run-Settled [] s h = h
    run-Settled (receives rx queueid bufs ∷ ts) s h =
        run-Settled ts (step ops cond k (receive rx queueid bufs) s)
          (unfold step in receive-Settled rx queueid bufs s h)
    run-Settled (serves rx w ∷ ts) s h =
        run-Settled ts (step ops cond k (wait rx w) (step ops cond k (dequeue rx w) s))
          (serve-Settled rx w s h)

    -- Whatever the order of the turns, where nothing comes between the moment at which a counting
    -- thread finds its ring empty and its wait, fewer than BURST_SIZE packets wait in the ring of a
    -- thread that sleeps. At the start no thread is about to wait and this holds with no more packets
    -- than came in since the last signal; rings and condition variables do what is documented.
    pub asleep-few :
        (ts : List Turn) (s : State R C F) (rx w : ℕ)
        → Settled s
        → let s' = run ops cond k (events ts) s in
          cond.blocked (s'.ready rx w) ≡ true → length (ops.contents (s'.rings rx w)) < burst_size
    asleep-few ts s rx w h =
        let (small, few) = (run-Settled ts s h rx w).1 in λ b. omega (arith, small, few b)
