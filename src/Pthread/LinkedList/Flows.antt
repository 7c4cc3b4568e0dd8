-- ===== src/Pthread/LinkedList/Flows.antt =====
-- The LINKED_LIST build of pthread/main.c from its initialisation to the report of `handler`.
use flo_watcher_dpdk.Common.{
  ℕ, zero, suc, ◌+◌, ◌%◌, ◌<◌, ◌^◌, ◌≡◌, refl, ◌≢◌, ◌∙◌, ap, true, List, [], ◌∷◌, arith, All,
  length, count, Array, sum_below, sum_below_congr_lt, u64_mod, add64,
}
use flo_watcher_dpdk.Buckets.{marks}
use flo_watcher_dpdk.Buckets.Partition.{distinct-le_length}
use flo_watcher_dpdk.Double.{Arithmetic}
use flo_watcher_dpdk.Dpdk.{Mbuf}
use flo_watcher_dpdk.Outcome.{ok, Calloc, Ends, mono-Ends, Ends-total}
use flo_watcher_dpdk.Pthread.{flow_num}
use flo_watcher_dpdk.Pthread.Chains.{State, served, run}
use flo_watcher_dpdk.Pthread.Chains.Runs.{arrived, arrived-length, arrived-All, hashes, run-Inv}
use flo_watcher_dpdk.Pthread.LinkedList.{
  Chain, Table, count_packet, session, count_chain, count_flows,
}
use flo_watcher_dpdk.Pthread.LinkedList.Exact.{
  view, start, start-ne_nil, Tallied, count_packet-Tallied, flow_struct_init-start,
}
use flo_watcher_dpdk.Pthread.Masks.{masks, masked_low-index, masked_high-index}
use flo_watcher_dpdk.Pthread.Pipeline.{Event, Setting}
use flo_watcher_dpdk.Pthread.Pipeline.Counting.{low, high}
use flo_watcher_dpdk.Ring.{Ring}
use flo_watcher_dpdk.RunToCompletion.{index_high}
use flo_watcher_dpdk.RunToCompletion.Arrivals.{
  index_low-lt, highs, highs-Nonzero, highs-le, highs-distinct,
}
use flo_watcher_dpdk.Tally.{bump_all, tally, zeros-Free, distinct, tally-bump_all}
use flo_watcher_dpdk.Tally.Filled.{leading, bump_all-leading}

count_chain-leading :
    {F : Type 0} (c : Chain F) (n : ℕ)
    → n < u64_mod
    → count_chain c n ≡ (n + leading (view c)) % u64_mod
unfolding count_chain view leading
count_chain-leading [] n h = ground arith
count_chain-leading (f ∷ rest) n h = ground (arith, count_chain-leading rest (add64 n 1))

count_flows-leading :
    {F : Type 0} (n : ℕ) (t : Array (Chain F))
    → count_flows n t ≡ sum_below n (λ l. leading (view (t l))) % u64_mod
unfolding count_flows sum_below
count_flows-leading zero t = refl
count_flows-leading (suc i) t =
    omega (arith, count_flows-leading i t, count_chain-leading (t i) (count_flows i t))

-- the lower part of a hash is the number of a bucket
pub inside : (k : Setting) → k.masks ≡ masks 16 → (r : ℕ) → low k r < flow_num
inside k bits r = rw (bits, masked_low-index) (index_low-lt r)

marks-highs :
    (k : Setting)
    → k.masks ≡ masks 16
    → (l : ℕ) (rs : List ℕ) → marks (low k) (high k) l rs ≡ highs l rs
marks-highs k bits l rs = rw (bits, masked_low-index, masked_high-index) refl

abbrev pub rss : Mbuf → ℕ
rss m = m.rss

-- the chains that stand for some packets have as many flows as these have hashes
pub Tallied-flows :
    {F : Type 0} (k : Setting)
    → k.masks ≡ masks 16
    → (taken : List Mbuf) (t : Table F) → All (λ m. m.rss < 2 ^ 32) taken
    → All (λ m. index_high m.rss ≢ 0) taken
    → length taken < u64_mod
    → Tallied k (arrived rss taken []) t
    → count_flows flow_num t.0 ≡ distinct (arrived rss taken [])
Tallied-flows k bits taken t words marked few e =
    let rs = arrived rss taken [] in
    let nonzero = arrived-All (λ r. index_high r ≢ 0) rss taken [] marked tt in
    let size = arrived-length rss taken [] in
    let bucket : (l : ℕ) → l < flow_num → leading (view (t.0 l)) ≡ distinct (highs l rs) = λ l lt.
      ap leading ((e l lt).0 ∙ ap (λ hs. bump_all u64_mod hs start) (marks-highs k bits l rs))
      ∙ bump_all-leading u64_mod (highs l rs) start (highs-Nonzero l rs nonzero) (zeros-Free 1)
          (omega (arith, highs-le l rs)) in
    omega (
      arith,
      count_flows-leading flow_num t.0,
      sum_below_congr_lt flow_num (λ l. leading (view (t.0 l))) (λ l. distinct (highs l rs)) bucket,
      highs-distinct rs (arrived-All (λ r. r < 2 ^ 32) rss taken [] words tt),
      distinct-le_length rs,
    )

module _ {R F : Type 0} ⦃fp : Arithmetic F⦄ (ops : Ring R) (calloc : Calloc) (k : Setting)
    (bits : k.masks ≡ masks 16) where
  run-Tallied :
      (es : List Event) (s : State R (Table F))
      → ((l : ℕ) → l < flow_num → view (s.table.0 l) ≡ start)
      → Ends calloc
          (λ s'. Tallied k (hashes ops k.burst_size rss es s.ring) s'.table)
          (run ops k (count_packet calloc k) es s)
  unfolding marks bump_all
  run-Tallied es s fresh =
      run-Inv ops k (count_packet calloc k) calloc rss (Tallied k)
        (count_packet-Tallied calloc k (inside k bits)) es [] s
        (λ l lt. (fresh l lt, rw (fresh l lt) start-ne_nil))

  -- Exact counters, and a loop that does not fault: whatever the order in which the receive thread
  -- and the counting thread run, on chains of one free entry the counter of each flow of each bucket
  -- is the number of its packets that were taken out of the ring, modulo 2 ^ 64, unless the program
  -- has ended because memory was refused. The masks have 16 bits, and no packet that is taken out has
  -- an upper hash half of 0.
  run-tally_linked :
      (es : List Event) (s : State R (Table F))
      → ((l : ℕ) → l < flow_num → view (s.table.0 l) ≡ start)
      → All (λ m. index_high m.rss ≢ 0) (served ops k.burst_size es s.ring)
      → Ends calloc
          (λ s'.
            (l h : ℕ)
            → l < flow_num
            → h ≢ 0
            → tally h (view (s'.table.0 l))
              ≡ count h (highs l (hashes ops k.burst_size rss es s.ring)) % u64_mod)
          (run ops k (count_packet calloc k) es s)
  run-tally_linked es s fresh marked =
      let rs = hashes ops k.burst_size rss es s.ring in
      mono-Ends calloc (λ s'. Tallied k rs s'.table) _ (run ops k (count_packet calloc k) es s)
        (run-Tallied es s fresh)
        (λ s' e l h lt nz.
          ap (tally h) ((e l lt).0 ∙ ap (λ hs. bump_all u64_mod hs start) (marks-highs k bits l rs))
          ∙ tally-bump_all u64_mod h (highs l rs) start nz (omega arith)
              (highs-Nonzero l rs (arrived-All (λ r. index_high r ≢ 0) rss _ [] marked tt))
              (zeros-Free 1))

  -- The count of flows is right: where memory is never refused, with masks of 16 bits, `main`
  -- initialises the chains and reaches the counting, and whatever the order in which the two threads
  -- run, `handler` reports the number of different hashes of the packets that were taken out of the
  -- ring. These are 32-bit hashes with an upper half other than 0, and fewer than 2 ^ 64.
  session-flows_linked :
      ((n : ℕ) → calloc n ≡ true)
      → (es : List Event) (s : State R (Table F))
      → let taken = served ops k.burst_size es s.ring in
        All (λ m. m.rss < 2 ^ 32) taken
        → All (λ m. index_high m.rss ≢ 0) taken
        → length taken < u64_mod
        → (s' : State R (Table F)) × (session calloc ops k es s ≡ ok s')
          × (count_flows flow_num s'.table.0 ≡ distinct (hashes ops k.burst_size rss es s.ring))
  unfolding session
  session-flows_linked given es s words marked few =
      let taken = served ops k.burst_size es s.ring in
      let rs = hashes ops k.burst_size rss es s.ring in
      let (t, made, fresh) = flow_struct_init-start calloc given flow_num s.table in
      let s1 = record s { table = t } in
      let (s', run, e) =
        Ends-total calloc (λ s'. Tallied k rs s'.table) (run ops k (count_packet calloc k) es s1)
          given (run-Tallied es s1 fresh) in
      (s', rw made run, Tallied-flows k bits taken s'.table words marked few e)
