-- ===== src/Pthread/HashList/Flows.antt =====
-- The HASH_LIST build of pthread/main.c from its initialisation to the report of `handler`.
use flo_watcher_dpdk.Common.{
  ℕ, zero, suc, ◌+◌, ◌%◌, ◌<◌, ◌^◌, ◌≡◌, refl, ◌≢◌, ◌∙◌, ap, true, List, [], ◌∷◌, arith, All,
  length, count, Array, sum_below, sum_below_congr_lt, if◌then◌else◌, ltb, u64_mod, add64,
}
use flo_watcher_dpdk.Buckets.{marks}
use flo_watcher_dpdk.Double.{Arithmetic}
use flo_watcher_dpdk.Dpdk.{Mbuf}
use flo_watcher_dpdk.Outcome.{ok, Calloc, Ends, mono-Ends, Ends-total}
use flo_watcher_dpdk.Pthread.{flow_num}
use flo_watcher_dpdk.Pthread.Chains.{State, served, run}
use flo_watcher_dpdk.Pthread.Chains.Runs.{arrived, arrived-length, arrived-All, hashes, run-Inv}
use flo_watcher_dpdk.Pthread.HashList.{
  FlowEntry, PktCount, Table, count_packet, session, sum_slot, sum_chain, sum_table,
}
use flo_watcher_dpdk.Pthread.HashList.Exact.{
  view_chain, view, start, start-Chained, Tallied, count_packet-Tallied, init_table-start,
}
use flo_watcher_dpdk.Pthread.Pipeline.{Event, Setting}
use flo_watcher_dpdk.Ring.{Ring}
use flo_watcher_dpdk.RunToCompletion.{index_high}
use flo_watcher_dpdk.RunToCompletion.Arrivals.{highs, highs-Nonzero, highs-le, highs-distinct}
use flo_watcher_dpdk.Tally.{
  bump_all, tally, used, sum, zeros-Free, distinct, tally-bump_all, bump_all-sum,
}

-- the packets that the chain of a bucket has counted
abbrev pub chained : {F : Type 0} → PktCount F → ℕ
chained c = sum (view_chain c.flows)

sum_slot-lt : (ctr n : ℕ) → n < u64_mod → sum_slot ctr n < u64_mod
unfolding sum_slot
sum_slot-lt ctr n h = ground arith

sum_slot-add :
    (ctr n : ℕ) → n < u64_mod → sum_slot ctr n ≡ (n + (if ltb 0 ctr then 1 else 0)) % u64_mod
unfolding sum_slot
sum_slot-add ctr n h = ground arith

sum_chain-add :
    {F : Type 0} (c : List (FlowEntry F)) (n : ℕ)
    → n < u64_mod
    → sum_chain c n ≡ (n + used (view_chain c) + sum (view_chain c)) % u64_mod
unfolding sum_chain view_chain used sum
sum_chain-add [] n h = omega arith
sum_chain-add (f ∷ rest) n h = omega (
  arith,
  sum_slot-add f.ctr n h,
  sum_chain-add rest (add64 (sum_slot f.ctr n) f.ctr) (omega arith),
)

sum_table-add :
    {F : Type 0} (n : ℕ) (t : Array (PktCount F))
    → sum_table n t
      ≡ (sum_below n (λ l. used (view (t l))) + sum_below n (λ l. chained (t l))) % u64_mod
unfolding sum_table sum_below view used
sum_table-add zero t = refl
sum_table-add (suc i) t =
    let before = sum_table i t in
    let first = sum_slot (t i).ctr0 before in
    let small : before < u64_mod = omega (arith, sum_table-add i t) in
    let small0 = sum_slot-lt (t i).ctr0 before small in
    omega (
      arith,
      sum_table-add i t,
      sum_slot-add (t i).ctr0 before small,
      sum_slot-add (t i).ctr1 first small0,
      sum_chain-add (t i).flows (sum_slot (t i).ctr1 first) (sum_slot-lt (t i).ctr1 first small0),
    )

-- what `handler` adds up of buckets that stand for some packets
pub Tallied-sum :
    {F : Type 0} (key : Mbuf → ℕ) (taken : List Mbuf) (t : Table F)
    → All (λ m. key m < 2 ^ 32) taken
    → All (λ m. index_high (key m) ≢ 0) taken
    → length taken < u64_mod
    → Tallied (arrived key taken []) t
    → sum_table flow_num t.0
      ≡ (distinct (arrived key taken []) + sum_below flow_num (λ l. chained (t.0 l))) % u64_mod
Tallied-sum key taken t words marked few e =
    let rs = arrived key taken [] in
    let nonzero = arrived-All (λ r. index_high r ≢ 0) key taken [] marked tt in
    let size = arrived-length key taken [] in
    let flows : (l : ℕ) → l < flow_num → used (view (t.0 l)) ≡ distinct (highs l rs) = λ l lt.
      ap used (e l lt).0
      ∙ (bump_all-sum u64_mod (highs l rs) start (highs-Nonzero l rs nonzero) (zeros-Free 3)
          (omega (arith, highs-le l rs))).1 in
    sum_table-add flow_num t.0
    ∙ ap (λ n. (n + sum_below flow_num (λ l. chained (t.0 l))) % u64_mod)
        (sum_below_congr_lt flow_num (λ l. used (view (t.0 l))) (λ l. distinct (highs l rs)) flows
          ∙ highs-distinct rs (arrived-All (λ r. r < 2 ^ 32) key taken [] words tt))

module _ {R F : Type 0} ⦃fp : Arithmetic F⦄ (ops : Ring R) (calloc : Calloc) (softrss : Mbuf → ℕ)
    (k : Setting) where
  run-Tallied :
      (es : List Event) (s : State R (Table F))
      → ((l : ℕ) → l < flow_num → view (s.table.0 l) ≡ start)
      → Ends calloc
          (λ s'. Tallied (hashes ops k.burst_size softrss es s.ring) s'.table)
          (run ops k (count_packet calloc softrss k) es s)
  unfolding marks bump_all
  run-Tallied es s fresh =
      run-Inv ops k (count_packet calloc softrss k) calloc softrss Tallied
        (count_packet-Tallied calloc softrss k) es [] s
        (λ l lt. (fresh l lt, start-Chained (s.table.0 l) (fresh l lt)))

  -- Exact counters, and a loop that does not fault: whatever the order in which the receive thread
  -- and the counting thread run, on buckets with two free slots and a free entry the counter of each
  -- flow of each bucket, in a slot or in the chain, is the number of its packets that were taken out
  -- of the ring, modulo 2 ^ 64, unless the program has ended because memory was refused. No packet
  -- that is taken out has an upper hash half of 0.
  run-tally_hash :
      (es : List Event) (s : State R (Table F))
      → ((l : ℕ) → l < flow_num → view (s.table.0 l) ≡ start)
      → All (λ m. index_high (softrss m) ≢ 0) (served ops k.burst_size es s.ring)
      → Ends calloc
          (λ s'.
            (l h : ℕ)
            → l < flow_num
            → h ≢ 0
            → tally h (view (s'.table.0 l))
              ≡ count h (highs l (hashes ops k.burst_size softrss es s.ring)) % u64_mod)
          (run ops k (count_packet calloc softrss k) es s)
  run-tally_hash es s fresh marked =
      let rs = hashes ops k.burst_size softrss es s.ring in
      mono-Ends calloc (λ s'. Tallied rs s'.table) _
        (run ops k (count_packet calloc softrss k) es s) (run-Tallied es s fresh)
        (λ s' e l h lt nz.
          ap (tally h) (e l lt).0
          ∙ tally-bump_all u64_mod h (highs l rs) start nz (omega arith)
              (highs-Nonzero l rs (arrived-All (λ r. index_high r ≢ 0) softrss _ [] marked tt))
              (zeros-Free 3))

  -- The number that `handler` prints for the flows is too large: where memory is never refused, `main`
  -- initialises the table and reaches the counting, and whatever the order in which the two threads
  -- run, it is the number of different hashes of the packets that were taken out of the ring and all
  -- packets that the chains have counted, modulo 2 ^ 64. These are 32-bit hashes with an upper half
  -- other than 0, and fewer than 2 ^ 64.
  session-sum_hash :
      ((n : ℕ) → calloc n ≡ true)
      → (es : List Event) (s : State R (Table F))
      → let taken = served ops k.burst_size es s.ring in
        All (λ m. softrss m < 2 ^ 32) taken
        → All (λ m. index_high (softrss m) ≢ 0) taken
        → length taken < u64_mod
        → (s' : State R (Table F)) × (session calloc ops softrss k es s ≡ ok s')
          × (sum_table flow_num s'.table.0
              ≡ (distinct (hashes ops k.burst_size softrss es s.ring)
                  + sum_below flow_num (λ l. chained (s'.table.0 l)))
                % u64_mod)
  unfolding session
  session-sum_hash given es s words marked few =
      let taken = served ops k.burst_size es s.ring in
      let rs = hashes ops k.burst_size softrss es s.ring in
      let (t, made, fresh) = init_table-start calloc given k.ipg flow_num s.table in
      let s1 = record s { table = t } in
      let (s', run, e) =
        Ends-total calloc (λ s'. Tallied rs s'.table)
          (run ops k (count_packet calloc softrss k) es s1) given (run-Tallied es s1 fresh) in
      (s', rw made run, Tallied-sum softrss taken s'.table words marked few e)
