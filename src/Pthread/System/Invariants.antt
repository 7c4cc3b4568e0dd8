-- ===== src/Pthread/System/Invariants.antt =====
-- Proofs about all runs of the threads of pthread/main.c: what every round keeps, a run keeps.
use mathlib.Core.List.{append_assoc, append-nil}
use flo_watcher_dpdk.Common.{
  ℕ, zero, suc, ◌+◌, ◌<◌, ◌≡◌, sym, Option, none, some, List, [], ◌∷◌, ◌++◌, arith, ◌==◌,
  Bool-cases, inl, inr, Bool, true, false, ◌⊎◌, refl,
}
use flo_watcher_dpdk.Double.{Arithmetic}
use flo_watcher_dpdk.Dpdk.{Mbuf}
use flo_watcher_dpdk.Outcome.{Outcome, ok, failed, exit, fault, ◌>>=◌, Ensures}
use flo_watcher_dpdk.Pthread.Pipeline.{step, serve}
use flo_watcher_dpdk.Pthread.Startup.{Setup, Role, receives, counts, idle, find_thread, pthread_run}
use flo_watcher_dpdk.Pthread.System.{
  State, Program, Turn, setting, local, merge, within, accessing, following, act, turn, run, trace,
}
use flo_watcher_dpdk.Pthread.Threads.{LcoreRxQueue}
use flo_watcher_dpdk.Ring.{Ring}

-- a thread that is found is one of the threads
Within : ℕ → Option ℕ → Type 0
Within n none = Unit
Within n (some i) = i < n

find_thread-Within :
    (lcores : ℕ → ℕ) (lcore rounds i n : ℕ)
    → i + rounds ≡ n
    → Within n (find_thread lcores lcore rounds i)
unfolding find_thread Within
find_thread-Within lcores lcore zero i n e = tt
find_thread-Within lcores lcore (suc rounds) i n e = elim (Bool-cases (lcores i == lcore)) [
  | inl here ↦ rw here (omega arith)
  | inr later ↦ rw later (find_thread-Within lcores lcore rounds (i + 1) n (omega arith))
]

-- the thread of a role is one that is in use
abbrev pub Employed : Setup → Role → Type 0
Employed s (receives i) = i < s.n_rx_thread
Employed s (counts i) = i < s.n_tx_thread
Employed s idle = Unit

pub pthread_run-Employed : (s : Setup) (lcore : ℕ) → Employed s (pthread_run s lcore)
unfolding pthread_run Within
pthread_run-Employed s lcore =
    employed (find_thread (λ i. (s.rx_thread i).lcore_id) lcore s.n_rx_thread 0)
      (find_thread (λ i. (s.tx_thread i).lcore_id) lcore s.n_tx_thread 0)
      (find_thread-Within _ lcore s.n_rx_thread 0 _ (omega arith))
      (find_thread-Within _ lcore s.n_tx_thread 0 _ (omega arith))
  where
    employed :
        (rx tx : Option ℕ)
        → Within s.n_rx_thread rx
        → Within s.n_tx_thread tx
        → Employed s
            (elim rx [ some i ↦ receives i | none ↦ elim tx [ some i ↦ counts i | none ↦ idle ] ])
    employed (some i) tx h k = h
    employed none (some i) h k = k
    employed none none h k = tt

pub accessing-Ensures :
    {S : Type 0} (P : S → Type 0) (within : Bool) (ms : List Mbuf) (o : Outcome S)
    → Ensures P o
    → Ensures P (accessing within ms o)
unfolding accessing
accessing-Ensures P within [] o h = h
accessing-Ensures P true (m ∷ ms) o h = h
accessing-Ensures P false (m ∷ ms) o h = tt

-- where a thread that takes packets stays within `gCtr`, nothing is undefined
pub accessing-ok :
    {S : Type 0} (within : Bool) (ms : List Mbuf) (o : Outcome S)
    → ((within ≡ true) ⊎ (ms ≡ []))
    → accessing within ms o ≡ o
unfolding accessing
accessing-ok within ms o (inl e) = rw e (inside ms)
  where
    inside : (ms : List Mbuf) → accessing true ms o ≡ o
    inside [] = refl
    inside (m ∷ ms) = refl
accessing-ok within ms o (inr e) = rw e refl

-- a round of a counting thread that ends without a fault
pub counts-Ensures :
    {R F : Type 0} ⦃fp : Arithmetic F⦄ (ops : Ring R) (k : Program) (P : State R F → Type 0) (i : ℕ)
    (deliver : LcoreRxQueue → List Mbuf) (s : State R F)
    → let n = (k.setup.tx_thread i).ring in
      P (merge n s (step ops (setting k i) serve (local n s)))
      → Ensures P (act ops k (counts i) deliver s)
unfolding act
counts-Ensures ops k P i deliver s h = accessing-Ensures P (within k i) _ (ok _) h

module _ {R F : Type 0} ⦃fp : Arithmetic F⦄ (ops : Ring R) (k : Program)
    (f : Role → (LcoreRxQueue → List Mbuf) → State R F → List Mbuf)
    (I : List Mbuf → State R F → Type 0)
    (keeps : (role : Role) (deliver : LcoreRxQueue → List Mbuf) (ms : List Mbuf) (s : State R F)
      → Employed k.setup role
      → I ms s
      → Ensures (I (ms ++ f role deliver s)) (act ops k role deliver s)) where
  -- a round, and what follows it if it goes on
  goes_on :
      (o : Outcome (State R F)) (ms here : List Mbuf)
      → Ensures (I (ms ++ here)) o
      → (next : State R F → Outcome (State R F)) (rest : State R F → List Mbuf)
      → ((s : State R F) → I (ms ++ here) s → Ensures (I ((ms ++ here) ++ rest s)) (next s))
      → Ensures (I (ms ++ (here ++ following o rest))) (o >>= next)
  unfolding following
  goes_on (ok s) ms here kept next rest more =
      rw (sym (append_assoc ms here (rest s))) (more s kept)
  goes_on failed ms here kept next rest more = tt
  goes_on exit ms here kept next rest more = tt
  goes_on fault ms here kept next rest more = tt

  -- what every round keeps of a log and the state, a run keeps
  pub run-Keeps :
      (ts : List Turn) (ms : List Mbuf) (s : State R F)
      → I ms s
      → Ensures (I (ms ++ trace ops k f ts s)) (run ops k ts s)
  unfolding run trace turn following
  run-Keeps [] ms s h = rw (append-nil ms) h
  run-Keeps (t ∷ ts) ms s h =
      let role = pthread_run k.setup t.lcore in
      let here = f role t.deliver s in
      goes_on (act ops k role t.deliver s) ms here
        (keeps role t.deliver ms s (pthread_run-Employed k.setup t.lcore) h) (run ops k ts)
        (trace ops k f ts) (λ s' kept. run-Keeps ts (ms ++ here) s' kept)
