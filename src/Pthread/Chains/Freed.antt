-- ===== src/Pthread/Chains/Freed.antt =====
-- The buffers that the counting threads of the LINKED_LIST and HASH_LIST builds of pthread/main.c give
-- back, and their packet counter.
use mathlib.Core.List.{append_assoc, append-nil}
use flo_watcher_dpdk.Common.{
  ℕ, ◌+◌, ◌%◌, ◌<◌, ◌≡◌, refl, ◌∙◌, sym, ap, List, [], ◌∷◌, ◌++◌, arith, length, length-append,
  update, u64_mod,
}
use flo_watcher_dpdk.Buckets.{addrs}
use flo_watcher_dpdk.Buckets.Addrs.{addrs-append}
use flo_watcher_dpdk.Dpdk.{Mbuf}
use flo_watcher_dpdk.Outcome.{Outcome, Ensures, bind_any-Ensures, bind-Ensures, mono-Ensures}
use flo_watcher_dpdk.Pthread.Chains.{State, served, count_loop, count_burst, step, run}
use flo_watcher_dpdk.Pthread.Pipeline.{Event, receive, serve, Setting}
use flo_watcher_dpdk.Pthread.System.Adds.{Adds}
use flo_watcher_dpdk.Ring.{Ring}

module _ {R T : Type 0} (ops : Ring R) (k : Setting) (count_packet : ℕ → Mbuf → T → Outcome T) where
  count_loop-freed :
      (global : ℕ) (ms : List Mbuf) (s : T × List ℕ)
      → Ensures (λ r. r.1 ≡ s.1 ++ addrs ms) (count_loop ops k count_packet global ms s)
  unfolding count_loop addrs
  count_loop-freed global [] s = sym (append-nil s.1)
  count_loop-freed global (m ∷ ms) s =
      bind_any-Ensures {A = T} {B = T × List ℕ} _ (count_packet global m s.0) _ (λ t.
        mono-Ensures {A = T × List ℕ} (λ r. r.1 ≡ (s.1 ++ m.addr ∷ []) ++ addrs ms) _
          (count_loop ops k count_packet global ms (t, s.1 ++ m.addr ∷ []))
          (count_loop-freed global ms (t, s.1 ++ m.addr ∷ []))
          (λ r e. e ∙ append_assoc s.1 (m.addr ∷ []) (addrs ms)))

  -- what a burst does: its buffers are given back, the counter of the thread is added to, and the ring
  -- stays as it is
  pub count_burst-Adds :
      (ms : List Mbuf) (s : State R T)
      → Ensures
          (λ s'.
            (s'.freed ≡ s.freed ++ addrs ms)
            × Adds k.q (length ms) s.g_ctr s'.g_ctr
            × (s'.ring ≡ s.ring))
          (count_burst ops k count_packet ms s)
  unfolding count_burst addrs update
  count_burst-Adds [] s = (sym (append-nil s.freed), λ j small. ground arith, refl)
  count_burst-Adds (m ∷ ms) s =
      bind-Ensures {A = T × List ℕ} {B = State R T} (λ r. r.1 ≡ s.freed ++ addrs (m ∷ ms)) _
        (count_loop ops k count_packet _ (m ∷ ms) (s.table, s.freed)) _
        (count_loop-freed _ (m ∷ ms) (s.table, s.freed)) (λ r e. (e, λ j small. ground arith, refl))

  -- Whatever the two builds do with a packet, and whatever the order in which the receive thread and
  -- the counting thread run, a run that does not end the program has given the buffers that it took
  -- out of the ring back, each once and in their order, and the counter of the thread is the number
  -- of them on top of what it was, modulo 2 ^ 64.
  run-freed :
      (es : List Event) (s : State R T)
      → s.g_ctr k.q < u64_mod
      → Ensures
          (λ s'.
            (s'.freed ≡ s.freed ++ addrs (served ops k.burst_size es s.ring))
            × (s'.g_ctr k.q ≡ (s.g_ctr k.q + length (served ops k.burst_size es s.ring)) % u64_mod))
          (run ops k count_packet es s)
  unfolding run step served addrs
  run-freed [] s small = (sym (append-nil s.freed), omega arith)
  run-freed (receive bufs ∷ es) s small = run-freed es _ small
  run-freed (serve ∷ es) s small =
      let taken = ops.dequeue_burst s.ring k.burst_size in
      let rest = served ops k.burst_size es taken.1 in
      let s0 = record s { ring = taken.1 } in
      bind-Ensures {A = State R T} {B = State R T} _ _ (count_burst ops k count_packet taken.0 s0)
        (λ s'. run ops k count_packet es s') (count_burst-Adds taken.0 s0)
        (λ s' (freed, adds, ring).
          let ctr : s'.g_ctr k.q ≡ (s.g_ctr k.q + length taken.0) % u64_mod =
            ground (arith, adds k.q small) in
          mono-Ensures {A = State R T} _ _ (run ops k count_packet es s')
            (run-freed es s' (omega (arith, ctr)))
            (λ s'' (freed', ctr').
              let same : served ops k.burst_size es s'.ring ≡ rest =
                ap (served ops k.burst_size es) ring in
              (
                freed'
                    ∙ ap (λ xs. s'.freed ++ addrs xs) same
                    ∙ ap (λ xs. xs ++ addrs rest) freed
                    ∙ append_assoc s.freed (addrs taken.0) (addrs rest)
                    ∙ ap (λ xs. s.freed ++ xs) (sym (addrs-append taken.0 rest)),
                omega (arith, ctr', ctr, ap length same, length-append taken.0 rest),
              )))
