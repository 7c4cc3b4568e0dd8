-- ===== src/Pthread/Chains/Runs.antt =====
-- Invariants of the counting threads of the LINKED_LIST and HASH_LIST builds of pthread/main.c, from
-- what the code does with one packet.
use flo_watcher_dpdk.Common.{ℕ, ◌+◌, ◌≡◌, refl, sym, List, [], ◌∷◌, ◌++◌, arith, All, length}
use flo_watcher_dpdk.Dpdk.{Mbuf}
use flo_watcher_dpdk.Outcome.{Outcome, Calloc, Ends, bind-Ends}
use flo_watcher_dpdk.Pthread.Chains.{State, served, count_loop, count_burst, step, run}
use flo_watcher_dpdk.Pthread.Pipeline.{Event, receive, serve, Setting}
use flo_watcher_dpdk.Ring.{Ring}

-- the hashes of the packets behind those of a history, most recent first
unfoldable pub arrived : (Mbuf → ℕ) → List Mbuf → List ℕ → List ℕ
arrived key [] rs = rs
arrived key (m ∷ ms) rs = arrived key ms (key m ∷ rs)

pub arrived-append :
    (key : Mbuf → ℕ) (ms ns : List Mbuf) (rs : List ℕ)
    → arrived key (ms ++ ns) rs ≡ arrived key ns (arrived key ms rs)
unfolding arrived
arrived-append key [] ns rs = refl
arrived-append key (m ∷ ms) ns rs = arrived-append key ms ns (key m ∷ rs)

pub arrived-length :
    (key : Mbuf → ℕ) (ms : List Mbuf) (rs : List ℕ)
    → length (arrived key ms rs) ≡ length ms + length rs
unfolding arrived
arrived-length key [] rs = omega arith
arrived-length key (m ∷ ms) rs = omega (arith, arrived-length key ms (key m ∷ rs))

pub arrived-All :
    (P : ℕ → Type 0) (key : Mbuf → ℕ) (ms : List Mbuf) (rs : List ℕ)
    → All (λ m. P (key m)) ms
    → All P rs
    → All P (arrived key ms rs)
unfolding arrived
arrived-All P key [] rs h k = k
arrived-All P key (m ∷ ms) rs h k = arrived-All P key ms (key m ∷ rs) h.1 (h.0, k)

-- the hashes of the packets that a run takes out of the ring
abbrev pub hashes : {R : Type 0} → Ring R → ℕ → (Mbuf → ℕ) → List Event → R → List ℕ
hashes ops burst_size key es r = arrived key (served ops burst_size es r) []

module _ {R T : Type 0} (ops : Ring R) (k : Setting) (count_packet : ℕ → Mbuf → T → Outcome T)
    (calloc : Calloc) (key : Mbuf → ℕ) (Inv : List ℕ → T → Type 0)
    (one : (global : ℕ) (rs : List ℕ) (m : Mbuf) (t : T)
      → Inv rs t
      → Ends calloc (λ t'. Inv (key m ∷ rs) t') (count_packet global m t)) where
  count_loop-Inv :
      (global : ℕ) (ms : List Mbuf) (rs : List ℕ) (s : T × List ℕ)
      → Inv rs s.0
      → Ends calloc (λ r. Inv (arrived key ms rs) r.0) (count_loop ops k count_packet global ms s)
  unfolding count_loop arrived
  count_loop-Inv global [] rs s h = h
  count_loop-Inv global (m ∷ ms) rs s h =
      bind-Ends {A = T} {B = T × List ℕ} calloc (λ t'. Inv (key m ∷ rs) t')
        (λ r. Inv (arrived key ms (key m ∷ rs)) r.0) (count_packet global m s.0)
        (λ t. count_loop ops k count_packet global ms (t, s.1 ++ m.addr ∷ []))
        (one global rs m s.0 h) (λ t h'. count_loop-Inv global ms (key m ∷ rs) _ h')

  -- what one packet keeps, a burst keeps
  pub count_burst-Inv :
      (ms : List Mbuf) (rs : List ℕ) (s : State R T)
      → Inv rs s.table
      → Ends calloc
          (λ s'. Inv (arrived key ms rs) s'.table × (s'.ring ≡ s.ring))
          (count_burst ops k count_packet ms s)
  unfolding count_burst arrived
  count_burst-Inv [] rs s h = (h, refl)
  count_burst-Inv (m ∷ ms) rs s h =
      bind-Ends {A = T × List ℕ} {B = State R T} calloc (λ r. Inv (arrived key (m ∷ ms) rs) r.0) _
        (count_loop ops k count_packet _ (m ∷ ms) (s.table, s.freed)) _
        (count_loop-Inv _ (m ∷ ms) rs (s.table, s.freed) h) (λ r h'. (h', refl))

  -- what one packet keeps, every interleaving of the two threads keeps, or memory is refused
  pub run-Inv :
      (es : List Event) (rs : List ℕ) (s : State R T)
      → Inv rs s.table
      → Ends calloc
          (λ s'. Inv (arrived key (served ops k.burst_size es s.ring) rs) s'.table)
          (run ops k count_packet es s)
  unfolding run step served arrived
  run-Inv [] rs s h = h
  run-Inv (receive bufs ∷ es) rs s h = run-Inv es rs _ h
  run-Inv (serve ∷ es) rs s h =
      let taken = ops.dequeue_burst s.ring k.burst_size in
      let s0 = record s { ring = taken.1 } in
      bind-Ends {A = State R T} {B = State R T} calloc
        (λ s'. Inv (arrived key taken.0 rs) s'.table × (s'.ring ≡ taken.1)) _
        (count_burst ops k count_packet taken.0 s0) (λ s'. run ops k count_packet es s')
        (count_burst-Inv taken.0 rs s0 h)
        (λ s' (h', e).
          rw (arrived-append key taken.0 (served ops k.burst_size es taken.1) rs, sym e)
            (run-Inv es (arrived key taken.0 rs) s' h'))
