-- ===== src/Pthread/Chains/System/Keeps.antt =====
-- Invariants of the LINKED_LIST and HASH_LIST builds of pthread/main.c when all threads run, from what
-- the code does with one packet.
use flo_watcher_dpdk.Common.{
  ℕ, ◌≤◌, ◌≡◌, ◌⊎◌, inl, inr, true, arith, refl, sym, ap, List, [], ◌∷◌, update,
}
use flo_watcher_dpdk.Dpdk.{Mbuf}
use flo_watcher_dpdk.Outcome.{Outcome, ok, Calloc, Ends, bind-Ends}
use flo_watcher_dpdk.Pthread.Chains
use flo_watcher_dpdk.Pthread.Chains.{step}
use flo_watcher_dpdk.Pthread.Chains.Runs.{arrived, arrived-append, count_burst-Inv}
use flo_watcher_dpdk.Pthread.Chains.System.{
  State, local, merge, fill, deal, served, round, pass_on, act, run,
}
use flo_watcher_dpdk.Pthread.Chains.System.Silent.{Silent, deal-Silent, fed_or_nothing}
use flo_watcher_dpdk.Pthread.Pipeline.{serve, Setting}
use flo_watcher_dpdk.Pthread.Startup.{Role, receives, counts, idle, pthread_run}
use flo_watcher_dpdk.Pthread.Startup.Wired.{Wired, Named, Named-ring}
use flo_watcher_dpdk.Pthread.System.{Program, Turn, setting, first_queue, within}
use flo_watcher_dpdk.Pthread.System.Invariants.{accessing-ok, Employed, pthread_run-Employed}
use flo_watcher_dpdk.Pthread.Threads.{LcoreRxQueue}
use flo_watcher_dpdk.Ring.{Ring, IsFifo}

module _ {R T : Type 0} (ops : Ring R) (k : Program)
    (count_packet : Setting → ℕ → Mbuf → T → Outcome T) (calloc : Calloc) (key : Mbuf → ℕ)
    (Inv : List ℕ → T → Type 0)
    (one : (i global : ℕ) (rs : List ℕ) (m : Mbuf) (t : T)
      → Inv rs t
      → Ends calloc (λ t'. Inv (key m ∷ rs) t') (count_packet (setting k i) global m t))
    (fifo : IsFifo ops) (w : Wired k.setup) (named : Named k.setup)
    (room : k.setup.n_rx_thread ≤ k.room) where
  pass_on-Inv :
      (i : ℕ) (bufs : List Mbuf) (rs : List ℕ) (s : State R T) (n : ℕ) (qs : List ℕ)
      → Inv rs s.table
      → Ends calloc
          (λ s'. Inv rs s'.table × (s'.rings ≡ fill ops k (n ∷ qs) bufs s.rings))
          (pass_on ops k count_packet i (n ∷ qs) bufs s)
  unfolding pass_on round fill step
  pass_on-Inv i [] rs s n qs h = (h, refl)
  pass_on-Inv i (m ∷ bufs) rs s n qs h = (h, refl)

  act-Inv :
      (role : Role) (deliver : LcoreRxQueue → List Mbuf) (rs : List ℕ) (s : State R T)
      → Employed k.setup role
      → Silent ops k fifo w s.rings
      → Inv rs s.table
      → Ends calloc
          (λ s'.
            Inv (arrived key (deal ops k role deliver s.rings).0 rs) s'.table
            × (s'.rings ≡ (deal ops k role deliver s.rings).1))
          (act ops k count_packet role deliver s)
  unfolding act round deal step arrived
  act-Inv (receives i) deliver rs s used silent h =
      let conf = k.setup.rx_thread i in
      let (n, qs, e) = Named-ring k.setup w named i used in
      rw e (pass_on-Inv i (deliver (first_queue conf.rx_queue_list)) rs s n qs h)
  act-Inv (counts i) deliver rs s used silent h =
      let n = (k.setup.tx_thread i).ring in
      let taken = ops.dequeue_burst (s.rings n) k.setup.config.burst_size in
      let v : Chains.State R T = record {
        ring = taken.1;
        table = s.table;
        g_ctr = s.g_ctr;
        freed = s.freed;
      } in
      let safe : (within k i ≡ true) ⊎ (taken.0 ≡ []) =
        elim (fed_or_nothing ops k fifo w i s.rings used silent) [
          | inl known ↦ inl (ground (arith, known, room))
          | inr empty ↦ inr empty
        ] in
      rw (accessing-ok (within k i) taken.0 (round ops k count_packet i n serve s) safe) (
        bind-Ends {A = Chains.State R T} {B = State R T} calloc
          (λ v'. Inv (arrived key taken.0 rs) v'.table × (v'.ring ≡ taken.1)) _
          (step ops (setting k i) (count_packet (setting k i)) serve (local n s))
          (λ v'. ok (merge n s v'))
          (count_burst-Inv ops (setting k i) (count_packet (setting k i)) calloc key Inv (one i)
            taken.0 rs v h)
          (λ v' (h', e). (h', ap (update s.rings n) e)))
  act-Inv idle deliver rs s used silent h = (h, refl)

  -- what one packet keeps, every order of the rounds of all threads keeps, or memory is refused
  pub run-Inv_system :
      (ts : List Turn) (rs : List ℕ) (s : State R T)
      → Silent ops k fifo w s.rings
      → Inv rs s.table
      → Ends calloc
          (λ s'. Inv (arrived key (served ops k ts s.rings) rs) s'.table)
          (run ops k count_packet ts s)
  unfolding run served arrived
  run-Inv_system [] rs s silent h = h
  run-Inv_system (t ∷ ts) rs s silent h =
      let role = pthread_run k.setup t.lcore in
      let used = pthread_run-Employed k.setup t.lcore in
      let dealt = deal ops k role t.deliver s.rings in
      bind-Ends {A = State R T} {B = State R T} calloc
        (λ s'. Inv (arrived key dealt.0 rs) s'.table × (s'.rings ≡ dealt.1)) _
        (act ops k count_packet role t.deliver s) (run ops k count_packet ts)
        (act-Inv role t.deliver rs s used silent h)
        (λ s' (h', e).
          rw (arrived-append key dealt.0 (served ops k ts dealt.1) rs, sym e)
            (run-Inv_system ts (arrived key dealt.0 rs) s'
              (rw e (deal-Silent ops k fifo w role t.deliver s.rings used silent)) h'))
