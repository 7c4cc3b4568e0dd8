-- ===== src/Lthread/Threads/Queues.antt =====
-- `init_rx_queues` of lthread/main.c against the one of pthread/main.c.
use native.Mathlib.Decide.{ℕ_discrete}
use flo_watcher_dpdk.Common.{
  ℕ, ◌≡◌, refl, ◌∙◌, update, ==_refl, ne→==-false, List, [], ◌∷◌, length, Array, leb, Bool-cases,
  inl, inr,
}
use flo_watcher_dpdk.Lthread.Threads.{
  max_rx_queue_per_lcore, add_rx_queue, add_rx_queues, init_rx_queues,
}
use flo_watcher_dpdk.Outcome.{
  Outcome, ok, failed, exit, fault, ◌>>=◌, or_exit, Ensures, bind-Ensures, mono-Ensures,
}
use flo_watcher_dpdk.Pthread.{RxThreadParams}
use flo_watcher_dpdk.Pthread.Threads
use flo_watcher_dpdk.Pthread.Threads.{ThreadRxConf, RxThreads}

or_exit-bind :
    {A B : Type 0} (m : Outcome A) (f g : A → Outcome B)
    → ((a : A) → f a ≡ or_exit (g a))
    → (or_exit m >>= f) ≡ or_exit (m >>= g)
or_exit-bind (ok a) f g h = h a
or_exit-bind failed f g h = refl
or_exit-bind exit f g h = refl
or_exit-bind fault f g h = refl

add_rx_queue-or_exit :
    (p : RxThreadParams) (s : RxThreads) → add_rx_queue p s ≡ or_exit (Threads.init_rx_queue p s)
unfolding add_rx_queue Threads.init_rx_queue
add_rx_queue-or_exit p s =
    elim (Bool-cases (leb max_rx_queue_per_lcore (length (s.0 p.thread_id).rx_queue_list))) [
      | inl full ↦ rw full refl
      | inr room ↦ rw room refl
    ]

add_rx_queues-or_exit :
    (ps : List RxThreadParams) (s : RxThreads)
    → add_rx_queues ps s ≡ or_exit (Threads.init_rx_queues_loop ps s)
unfolding add_rx_queues Threads.init_rx_queues_loop
add_rx_queues-or_exit [] s = refl
add_rx_queues-or_exit (p ∷ ps) s = rw (add_rx_queue-or_exit p s) (
    or_exit-bind (Threads.init_rx_queue p s) (λ s'. add_rx_queues ps s')
      (λ s'. Threads.init_rx_queues_loop ps s') (λ s'. add_rx_queues-or_exit ps s'))

-- On every configuration and every thread table, `init_rx_queues` of lthread does what the one of
-- pthread does, but ends the program where that one returns an error.
pub init_rx_queues-or_exit :
    (params : List RxThreadParams) (rx_thread : Array ThreadRxConf)
    → init_rx_queues params rx_thread ≡ or_exit (Threads.init_rx_queues params rx_thread)
unfolding init_rx_queues Threads.init_rx_queues
init_rx_queues-or_exit params rx_thread = add_rx_queues-or_exit params (rx_thread, 0)

add_rx_queue-rings :
    (p : RxThreadParams) (s : RxThreads)
    → Ensures (λ r. (t : ℕ) → (r.0 t).rings ≡ (s.0 t).rings) (add_rx_queue p s)
unfolding add_rx_queue update
add_rx_queue-rings p s =
    elim (Bool-cases (leb max_rx_queue_per_lcore (length (s.0 p.thread_id).rx_queue_list))) [
      | inl full ↦ rw full tt
      | inr room ↦ rw room (λ t. elim (ℕ_discrete t p.thread_id) [
        | yes own ↦ rw (own, ==_refl p.thread_id) refl
        | no other ↦ rw (ne→==-false t p.thread_id other) refl
      ])
    ]

-- the rings of the receive threads stay as they are
pub add_rx_queues-rings :
    (ps : List RxThreadParams) (s : RxThreads)
    → Ensures (λ r. (t : ℕ) → (r.0 t).rings ≡ (s.0 t).rings) (add_rx_queues ps s)
unfolding add_rx_queues
add_rx_queues-rings [] s = λ t. refl
add_rx_queues-rings (p ∷ ps) s =
    bind-Ensures {A = RxThreads} {B = RxThreads} (λ r. (t : ℕ) → (r.0 t).rings ≡ (s.0 t).rings)
      (λ r. (t : ℕ) → (r.0 t).rings ≡ (s.0 t).rings) (add_rx_queue p s) (λ s'. add_rx_queues ps s')
      (add_rx_queue-rings p s)
      (λ s' own.
        mono-Ensures {A = RxThreads} (λ r. (t : ℕ) → (r.0 t).rings ≡ (s'.0 t).rings) _
          (add_rx_queues ps s') (add_rx_queues-rings ps s') (λ r h t. h t ∙ own t))
