-- ===== src/Lthread/Pipeline/Signals.antt =====
-- The signals of lthread/main.c: one that is lost, and the work of a thread that is awake.
use Prim.Native.Nat.{min}
use flo_watcher_dpdk.Common.{
  ℕ, zero, suc, ◌+◌, ◌*◌, ◌%◌, ◌≤◌, ◌<◌, ◌≡◌, refl, ap, ◌∙◌, ◌⊎◌, true, false, List, [], ◌∷◌,
  length, length-append, arith, leb, inl, inr,
}
use flo_watcher_dpdk.Double.{Arithmetic}
use flo_watcher_dpdk.Dpdk.{Mbuf}
use flo_watcher_dpdk.Lthread.{burst_size}
use flo_watcher_dpdk.Lthread.Pipeline.{
  Cond, IsCond, State, receive, dequeue, wait, Setting, update_2, view, receive_queue, count_taken,
  at_dequeue, lthread_tx_per_ring, cond_wait, step, run,
}
use flo_watcher_dpdk.Lthread.Pipeline.Wakeups.{Turn, serves, events, update_2_self, waiting-taken}
use flo_watcher_dpdk.Lthread.Receive.{lthread_rx_queue}
use flo_watcher_dpdk.Ring.{Ring, IsFifo, Greedy}

-- `n` turns of one counting thread
unfoldable pub rounds : ℕ → ℕ → ℕ → List Turn
rounds zero rx w = []
rounds (suc n) rx w = serves rx w ∷ rounds n rx w

module _ {R C F : Type 0} ⦃fp : Arithmetic F⦄ (ops : Ring R) (cond : Cond C) (k : Setting)
    (fifo : IsFifo ops) (laws : IsCond cond) where
  -- A signal that comes between the moment at which a counting thread finds its ring empty and its
  -- wait is lost: BURST_SIZE packets or more came in since the last signal, the thread is signalled,
  -- and goes to sleep with all that the ring took of the burst waiting.
  pub signal-lost :
      (rx queueid : ℕ) (m : Mbuf) (ms : List Mbuf) (s : State R C F)
      → let w = (s.worker_id rx + 1) % k.n_ring rx in
        let taken = (ops.enqueue_burst (s.rings rx w) (m ∷ ms)).0 in
        s.emptied rx w ≡ true
        → burst_size ≤ s.len rx w + taken
        → let s' = run ops cond k (receive rx queueid (m ∷ ms) ∷ wait rx w ∷ []) s in
          ((lthread_rx_queue ops (k.n_ring rx) queueid (m ∷ ms) (view ops cond k rx s)).signals
            ≡ w ∷ [])
          × (cond.blocked (s'.ready rx w) ≡ true)
          × (length (ops.contents (s'.rings rx w)) ≡ length (ops.contents (s.rings rx w)) + taken)
  unfolding run step receive_queue lthread_rx_queue cond_wait
  signal-lost rx queueid m ms s about full =
      let w = (s.worker_id rx + 1) % k.n_ring rx in
      let e = ops.enqueue_burst (s.rings rx w) (m ∷ ms) in
      let sent : leb burst_size (s.len rx w + e.0) ≡ true = ground arith in
      rw (sent, about)
        (
          refl,
          ap (λ c. cond.blocked c) (update_2_self _ rx w _) ∙ laws.wait_blocks _,
          ap (λ r. length (ops.contents r)) (update_2_self s.rings rx w e.1)
              ∙ waiting-taken ops cond fifo laws (s.rings rx w) (m ∷ ms),
        )

  module _ (greedy : Greedy ops) (rx w : ℕ) where
    -- a counting thread that runs, and one that sleeps behind an empty ring
    abbrev Awake : State R C F → Type 0
    Awake s = (cond.blocked (s.ready rx w) ≡ false) × (s.emptied rx w ≡ false)

    abbrev Resting : State R C F → Type 0
    Resting s =
        (cond.blocked (s.ready rx w) ≡ true)
        × (s.emptied rx w ≡ false)
        × (length (ops.contents (s.rings rx w)) ≡ 0)

    -- what a turn comes to with the burst `bufs`
    after_turn :
        (bufs : List Mbuf) (s : State R C F)
        → Awake s
        → (bufs ≡ [] → length (ops.contents (s.rings rx w)) ≡ 0)
        → let s' = cond_wait ops cond k rx w (count_taken ops cond k rx w bufs s) in
          Resting s' ⊎ (Awake s' × (s'.rings ≡ s.rings) × (0 < length bufs))
    unfolding cond_wait count_taken
    after_turn [] s awake none = rw (update_2_self s.emptied rx w true) (
        inl (
          ap (λ c. cond.blocked c) (update_2_self _ rx w _) ∙ laws.wait_blocks _,
          update_2_self _ rx w false,
          none refl,
        ))
    after_turn (m ∷ ms) s awake none = rw awake.1 (inr (awake, refl, omega arith))

    turn :
        (s : State R C F)
        → Awake s
        → let s' = step ops cond k (wait rx w) (step ops cond k (dequeue rx w) s) in
          let left = length (ops.contents (s'.rings rx w)) in
          Resting s'
          ⊎ (Awake s'
              × (left + min burst_size (length (ops.contents (s.rings rx w)))
                  ≡ length (ops.contents (s.rings rx w)))
              × (0 < length (ops.contents (s.rings rx w))))
    unfolding step lthread_tx_per_ring
    turn s awake =
        let taken = ops.dequeue_burst (s.rings rx w) burst_size in
        let s0 = record s { rings = update_2 s.rings rx w taken.1 } in
        let here = ap (λ r. length (ops.contents r)) (update_2_self s.rings rx w taken.1) in
        let split = ap (λ t. length t) (fifo.dequeue_gives (s.rings rx w) burst_size).1 in
        let parts = length-append taken.0 (ops.contents taken.1) in
        let many = greedy (s.rings rx w) burst_size in
        rw (awake.0, awake.1)
          (elim (after_turn taken.0 s0 awake
            (λ nil. omega (arith, here, split, parts, many, ap (λ t. length t) nil))) [
              | inl rest ↦ inl rest
              | inr (up, rings, some) ↦
                  let left = ap (λ r. length (ops.contents (r rx w))) rings in
                  inr (
                    up,
                    omega (arith, left, here, split, parts, many),
                    omega (arith, split, parts, some),
                  )
            ])

    turn-Resting :
        (s : State R C F)
        → Resting s
        → step ops cond k (wait rx w) (step ops cond k (dequeue rx w) s) ≡ s
    unfolding step lthread_tx_per_ring
    turn-Resting s rest =
        let off : at_dequeue ops cond k rx w s ≡ false = rw rest.0 refl in
        rw off (unfold cond_wait in rw rest.1 refl)

    rounds-Resting :
        (n : ℕ) (s : State R C F) → Resting s → run ops cond k (events (rounds n rx w)) s ≡ s
    unfolding run events rounds
    rounds-Resting zero s rest = refl
    rounds-Resting (suc n) s rest =
        ap (λ t. run ops cond k (events (rounds n rx w)) t) (turn-Resting s rest)
        ∙ rounds-Resting n s rest

    -- A counting thread that is awake empties its ring and then sleeps: with at most `n` times
    -- BURST_SIZE packets in the ring, `n + 1` turns of it, with nothing in between, are enough. The ring
    -- and the condition variables do what is documented.
    pub rounds-drain :
        (n : ℕ) (s : State R C F)
        → Awake s
        → length (ops.contents (s.rings rx w)) ≤ n * burst_size
        → Resting (run ops cond k (events (rounds (suc n) rx w)) s)
    unfolding run events rounds
    rounds-drain zero s awake few = elim (turn s awake) [
      | inl rest ↦ rest
      | inr (up, left, some) ↦ absurd (omega arith)
    ]
    rounds-drain (suc n) s awake few =
        let s' = step ops cond k (wait rx w) (step ops cond k (dequeue rx w) s) in
        elim (turn s awake) [
          | inl rest ↦ rw (rounds-Resting (suc n) s' rest) rest
          | inr (up, left, some) ↦ rounds-drain n s' up (omega (arith, left))
        ]
