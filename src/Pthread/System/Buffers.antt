-- ===== src/Pthread/System/Buffers.antt =====
-- The buffers of pthread/main.c when all threads run.
use mathlib.Core.List.{append-nil}
use flo_watcher_dpdk.Common.{
  ℕ, ◌+◌, ◌<◌, ◌≡◌, refl, ap, ◌∙◌, ◌≢◌, List, [], ◌∷◌, ◌++◌, take, count, arith, update,
  update_self, update_ne, sum_below, sum_below-change,
}
use flo_watcher_dpdk.Buckets.{addrs}
use flo_watcher_dpdk.Buckets.Addrs.{count-addrs, count-none}
use flo_watcher_dpdk.Double.{Arithmetic}
use flo_watcher_dpdk.Dpdk.{Mbuf}
use flo_watcher_dpdk.Outcome.{Ensures}
use flo_watcher_dpdk.Pthread.Pipeline
use flo_watcher_dpdk.Pthread.Pipeline.{step, lcore_main_rx, count_burst}
use flo_watcher_dpdk.Pthread.Pipeline.Order.{count_burst-ring, count_burst-freed}
use flo_watcher_dpdk.Pthread.Startup.{Role, receives, counts, idle}
use flo_watcher_dpdk.Pthread.Startup.Wired.{Wired}
use flo_watcher_dpdk.Pthread.System.{
  State, Program, Turn, setting, pass_on, act, stored, put, trace, run,
}
use flo_watcher_dpdk.Pthread.System.Invariants.{counts-Ensures, Employed, run-Keeps}
use flo_watcher_dpdk.Pthread.System.Quiet.{Wired-Fed}
use flo_watcher_dpdk.Pthread.Threads.{LcoreRxQueue}
use flo_watcher_dpdk.Ring.{Ring, IsFifo}

module _ {R F : Type 0} ⦃fp : Arithmetic F⦄ (ops : Ring R) (k : Program) (a : ℕ) where
  -- how often the buffer `a` is in the rings of the counting threads, and in them or freed
  unfoldable pub queued : State R F → ℕ
  queued s = sum_below k.setup.n_tx_thread (λ n. count a (addrs (ops.contents (s.rings n))))

  abbrev pub held : State R F → ℕ
  held s = queued s + count a s.freed

  -- a ring changes
  queued-update :
      (s s' : State R F) (n : ℕ) (r : R)
      → n < k.setup.n_tx_thread
      → s'.rings ≡ update s.rings n r
      → queued s' + count a (addrs (ops.contents (s.rings n)))
        ≡ queued s + count a (addrs (ops.contents r))
  unfolding queued
  queued-update s s' n r lt e =
      let f = λ (i : ℕ). count a (addrs (ops.contents (s.rings i))) in
      let f' = λ (i : ℕ). count a (addrs (ops.contents (s'.rings i))) in
      let at = λ (rs : ℕ → R). count a (addrs (ops.contents (rs n))) in
      let own : f' n ≡ count a (addrs (ops.contents r)) =
        ap at e ∙ ap (λ r. count a (addrs (ops.contents r))) (update_self s.rings n r) in
      let others : (i : ℕ) → i ≢ n → f' i ≡ f i = λ i d.
        ap (λ rs. count a (addrs (ops.contents (rs i)))) e
        ∙ ap (λ r. count a (addrs (ops.contents r))) (update_ne s.rings n r i d) in
      omega (arith, sum_below-change k.setup.n_tx_thread n f f' lt others, own)

  module _ (fifo : IsFifo ops) (w : Wired k.setup) where
    -- what was held and what came in, is held
    abbrev pub Kept : ℕ → List Mbuf → State R F → Type 0
    Kept base ms s = held s ≡ base + count a (addrs ms)

    pass_on-Kept :
        (i base : ℕ) (bufs ms : List Mbuf) (s : State R F)
        → i < k.setup.n_rx_thread
        → (rings : List ℕ) → (k.setup.rx_thread i).rings ≡ rings
        → Kept base ms s
        → Ensures (Kept base (ms ++ stored ops k rings bufs s)) (pass_on ops k rings bufs s)
    unfolding pass_on stored lcore_main_rx
    pass_on-Kept i base [] ms s used rings e h = rw (append-nil ms) h
    pass_on-Kept i base (m ∷ bufs) ms s used [] e h = tt
    pass_on-Kept i base (m ∷ bufs) ms s used (n ∷ rings) e h =
        let (below, _, _) = Wired-Fed k.setup w n (i, rings, used, e) in
        let entered = ops.enqueue_burst (s.rings n) (m ∷ bufs) in
        let new : State R F = record s { rings = update s.rings n entered.1 } in
        let kept = take entered.0 (m ∷ bufs) in
        omega (
          arith,
          h,
          queued-update s new n entered.1 below refl,
          ap (λ t. count a (addrs t)) (fifo.enqueue_takes (s.rings n) (m ∷ bufs)).1,
          count-addrs a (ops.contents (s.rings n)) kept,
          count-addrs a ms kept,
        )

    counts-Kept :
        (i base : ℕ) (deliver : LcoreRxQueue → List Mbuf) (ms : List Mbuf) (s : State R F)
        → i < k.setup.n_tx_thread
        → Kept base ms s
        → Ensures (Kept base ms) (act ops k (counts i) deliver s)
    unfolding act step
    counts-Kept i base deliver ms s used h = counts-Ensures ops k (Kept base ms) i deliver s (
        let n = (k.setup.tx_thread i).ring in
        let taken = ops.dequeue_burst (s.rings n) k.setup.config.burst_size in
        let v : Pipeline.State R F = record {
          ring = taken.1;
          pkt_ctr = s.pkt_ctr;
          g_ctr = s.g_ctr;
          freed = s.freed;
        } in
        let v' = count_burst ops (setting k i) taken.0 v in
        let new : State R F = record {
          rings = update s.rings n v'.ring;
          pkt_ctr = v'.pkt_ctr;
          g_ctr = v'.g_ctr;
          freed = v'.freed;
        } in
        omega (
          arith,
          h,
          used,
          w.reads i used,
          queued-update s new n v'.ring (omega (arith, w.reads i used)) refl,
          ap (λ r. count a (addrs (ops.contents r))) (count_burst-ring ops (setting k i) taken.0 v),
          ap (λ t. count a (addrs t)) (fifo.dequeue_gives (s.rings n) k.setup.config.burst_size).1,
          count-addrs a taken.0 (ops.contents taken.1),
          count_burst-freed ops (setting k i) a taken.0 v,
        ))

    act-Kept :
        (base : ℕ) (role : Role) (deliver : LcoreRxQueue → List Mbuf) (ms : List Mbuf)
        (s : State R F)
        → Employed k.setup role
        → Kept base ms s
        → Ensures (Kept base (ms ++ put ops k role deliver s)) (act ops k role deliver s)
    unfolding act put
    act-Kept base (receives i) deliver ms s used h =
        pass_on-Kept i base _ ms s used (k.setup.rx_thread i).rings refl h
    act-Kept base (counts i) deliver ms s used h =
        rw (append-nil ms) (counts-Kept i base deliver ms s used h)
    act-Kept base idle deliver ms s used h = rw (append-nil ms) h

    -- A buffer that a ring took in is not lost and not freed twice: whatever the order in which all threads
    -- of the program run, a buffer is in a ring of a counting thread or freed as often as it was
    -- before and as the rings took it in. The threads are wired as `main` does it, and the rings are
    -- first in, first out.
    pub run-Kept :
        (ts : List Turn) (s : State R F)
        → Ensures
            (λ s'.
              queued s' + count a s'.freed
              ≡ queued s + count a s.freed + count a (addrs (trace ops k (put ops k) ts s)))
            (run ops k ts s)
    run-Kept ts s =
        run-Keeps ops k (put ops k) (Kept (held s)) (act-Kept (held s)) ts [] s
          (omega (arith, count-none a))
