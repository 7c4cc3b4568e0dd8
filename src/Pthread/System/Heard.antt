-- ===== src/Pthread/System/Heard.antt =====
-- What the threads of pthread/main.c never look at: the further queues of a receive thread, and the
-- rings of its further counting threads.
use mathlib.Core.List.{map}
use flo_watcher_dpdk.Common.{
  ℕ, zero, suc, ◌+◌, ◌≤◌, ◌<◌, ◌≡◌, refl, ap, ◌∙◌, Bool, true, false, ◌&&◌, ◌||◌, List, [], ◌∷◌,
  arith, ◌==◌, Bool-cases, inl, inr, if◌then◌else◌,
}
use flo_watcher_dpdk.Double.{Arithmetic}
use flo_watcher_dpdk.Outcome.{Outcome, ok, failed, exit, fault, ◌>>=◌, Ensures, mono-Ensures}
use flo_watcher_dpdk.Pthread.Startup.{Setup, Role, receives, counts, idle, pthread_run}
use flo_watcher_dpdk.Pthread.Startup.Wired.{Wired}
use flo_watcher_dpdk.Pthread.System.{State, Program, Turn, first_queue, act, turn, took, run}
use flo_watcher_dpdk.Pthread.System.Invariants.{Employed, pthread_run-Employed, run-Keeps}
use flo_watcher_dpdk.Pthread.System.Quiet.{Wired-Fed, Quiet, act-Quiet}
use flo_watcher_dpdk.Pthread.Threads.{LcoreRxQueue}
use flo_watcher_dpdk.Ring.{Ring, IsFifo}

-- the queue is the first of the list, or queue 0 of port 0 if the list is empty
unfoldable pub leads : LcoreRxQueue → List LcoreRxQueue → Bool
leads q [] = (q.port_id == 0) && (q.queue_id == 0)
leads q (p ∷ ps) = (q.port_id == p.port_id) && (q.queue_id == p.queue_id)

-- one of the receive threads from `i` on, `rounds` in all, has the queue as its first
unfoldable pub is_first : Setup → LcoreRxQueue → ℕ → ℕ → Bool
is_first s q zero i = false
is_first s q (suc rounds) i = leads q (s.rx_thread i).rx_queue_list || is_first s q rounds (i + 1)

-- the NIC has nothing but for the first queues of the receive threads
unfoldable pub mute : Setup → Turn → Turn
mute s t = record t { deliver = λ q. if is_first s q s.n_rx_thread 0 then t.deliver q else [] }

first_queue-leads : (qs : List LcoreRxQueue) → leads (first_queue qs) qs ≡ true
unfolding leads first_queue
first_queue-leads [] = refl
first_queue-leads (q ∷ qs) = ground arith

is_first-lem :
    (s : Setup) (q : LcoreRxQueue) (rounds i j : ℕ)
    → i ≤ j
    → j < i + rounds
    → leads q (s.rx_thread j).rx_queue_list ≡ true
    → is_first s q rounds i ≡ true
unfolding is_first
is_first-lem s q zero i j low high h = absurd (omega arith)
is_first-lem s q (suc rounds) i j low high h = elim (Bool-cases (i == j)) [
  | inl here ↦
      let same : i ≡ j = ground arith in
      let first = ap (λ i. leads q (s.rx_thread i).rx_queue_list) same ∙ h in ground arith
  | inr later ↦
      let above : i + 1 ≤ j = ground arith in
      ground (arith, is_first-lem s q rounds (i + 1) j above (omega arith) h)
]

module _ {R F : Type 0} ⦃fp : Arithmetic F⦄ (ops : Ring R) (k : Program) where
  act-mute :
      (role : Role) (t : Turn) (s : State R F)
      → Employed k.setup role
      → act ops k role (mute k.setup t).deliver s ≡ act ops k role t.deliver s
  unfolding act mute
  act-mute (receives i) t s used =
      let conf = k.setup.rx_thread i in
      let q = first_queue conf.rx_queue_list in
      let first =
        is_first-lem k.setup q k.setup.n_rx_thread 0 i (omega arith) (omega arith)
          (first_queue-leads conf.rx_queue_list) in
      rw first refl
  act-mute (counts i) t s used = refl
  act-mute idle t s used = refl

  -- A receive thread polls the first of its queues alone: whatever the order of the rounds, the run
  -- is the one in which the NIC has nothing in the queues that are not the first of a receive thread
  -- in use.
  pub run-mute :
      (ts : List Turn) (s : State R F) → run ops k (map (mute k.setup) ts) s ≡ run ops k ts s
  unfolding run turn mute
  run-mute [] s = refl
  run-mute (t ∷ ts) s =
      ap (λ o. o >>= run ops k (map (mute k.setup) ts))
        (act-mute (pthread_run k.setup t.lcore) t s (pthread_run-Employed k.setup t.lcore))
      ∙ later (act ops k (pthread_run k.setup t.lcore) t.deliver s)
          (run ops k (map (mute k.setup) ts)) (run ops k ts) (run-mute ts)
    where
      later :
          (o : Outcome (State R F)) (f g : State R F → Outcome (State R F))
          → ((s : State R F) → f s ≡ g s)
          → o >>= f ≡ (o >>= g)
      later (ok s) f g e = e s
      later failed f g e = refl
      later exit f g e = refl
      later fault f g e = refl

  -- A receive thread fills the first of its rings alone: whatever the order of the rounds, the ring of
  -- a counting thread stays empty if a counting thread before it names the same receive thread. The
  -- threads are wired as `main` does it, and the rings start empty.
  pub run-starved :
      (ts : List Turn) (s : State R F) (j n : ℕ)
      → IsFifo ops
      → Wired k.setup
      → ((i : ℕ) → ops.contents (s.rings i) ≡ [])
      → j < n
      → (k.setup.tx_thread j).thread_id ≡ (k.setup.tx_thread n).thread_id
      → Ensures (λ s'. ops.contents (s'.rings n) ≡ []) (run ops k ts s)
  run-starved ts s j n fifo w none lt same =
      mono-Ensures (Quiet ops k fifo w) _ (run ops k ts s)
        (run-Keeps ops k (took ops k) (λ ms. Quiet ops k fifo w)
          (λ role deliver ms s used quiet. act-Quiet ops k fifo w role deliver s used quiet) ts [] s
          (λ i unfed. none i))
        (λ s' quiet.
          quiet n (λ fed. let (_, _, first) = Wired-Fed k.setup w n fed in first j lt same))
