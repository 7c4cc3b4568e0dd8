-- ===== src/Pthread/LinkedList.antt =====
-- The LINKED_LIST build of pthread/main.c: `flow_struct_init`, `lcore_main_count_linked_list` for one
-- packet, its place in `main`, and the count of flows in `handler`. A chain is reached from its bucket
-- alone, so it is the list of its entries; `rte_calloc` is a parameter, and its calls are counted.
pub mod Exact
pub mod Flows
pub mod System
use flo_watcher_dpdk.Common.{
  ℕ, zero, suc, ◌+◌, ◌-◌, ◌%◌, Bool, true, false, List, [], ◌∷◌, Array, update, ltb, ◌==◌,
  if◌then◌else◌, add64, u32_mod,
}
use flo_watcher_dpdk.Double.{Arithmetic}
use flo_watcher_dpdk.Dpdk.{Mbuf}
use flo_watcher_dpdk.Outcome.{Outcome, ok, failed, exit, fault, ◌>>=◌, Calloc}
use flo_watcher_dpdk.Pthread.{flow_num}
use flo_watcher_dpdk.Pthread.Chains.{State, run}
use flo_watcher_dpdk.Pthread.DoubleHash.{mean}
use flo_watcher_dpdk.Pthread.Masks.{masked_low, masked_high}
use flo_watcher_dpdk.Pthread.Pipeline.{Event, Setting}
use flo_watcher_dpdk.Ring.{Ring}
use flo_watcher_dpdk.RunToCompletion.{gap}

-- `struct flow_entry` of init.h, without the link
pub record FlowEntry (F : Type 0) : Type 0 where
  pub rss_high : ℕ
  pub ctr : ℕ
  pub ipg : ℕ
  pub avg : F
  pub std_dev : F

abbrev pub Chain : Type 0 → Type 0
Chain F = List (FlowEntry F)

-- the table and the calls of `rte_calloc`
abbrev pub Table : Type 0 → Type 0
Table F = Array (Chain F) × ℕ

-- `ENTRY_PER_FLOW`
abbrev pub entry_per_flow : ℕ
entry_per_flow = 1

module _ {F : Type 0} ⦃fp : Arithmetic F⦄ (calloc : Calloc) where
  -- an entry as `rte_calloc` and the assignments of `flow_struct_init` leave it
  unfoldable pub fresh : FlowEntry F
  fresh = record { rss_high = 0; ctr = 0; ipg = 0; avg = fp.of_u64 0; std_dev = fp.of_u64 0 }

  -- while (j++ < size - 1): the test that follows the allocation looks at `f`, not at `f->next`
  unfoldable pub extend : ℕ → ℕ → Outcome (Chain F × ℕ)
  extend zero calls = ok ([], calls)
  extend (suc j) calls =
      if calloc calls then extend j (calls + 1) >>= (λ r. ok (fresh ∷ r.0, r.1)) else fault

  -- the body of the loop of `flow_struct_init`
  unfoldable pub init_chain : ℕ → ℕ → Outcome (Chain F × ℕ)
  init_chain size calls =
      if calloc calls
      then extend ((size + (u32_mod - 1)) % u32_mod) (calls + 1) >>= (λ r. ok (fresh ∷ r.0, r.1))
      else failed

  unfoldable pub flow_struct_init : ℕ → ℕ → Table F → Outcome (Table F)
  flow_struct_init zero size s = ok s
  flow_struct_init (suc i) size s =
      flow_struct_init i size s
      >>= (λ s'. init_chain size s'.1 >>= (λ r. ok (update s'.0 i r.0, r.1)))

  -- the walk along a chain and the allocation behind it; `seen` tells whether `tmp` was assigned,
  -- `ipg` stands for IPG
  unfoldable pub walk : Bool → ℕ → ℕ → Bool → ℕ → Chain F → Outcome (Chain F × ℕ)
  walk ipg global h seen calls [] =
      let f : FlowEntry F = record {
        rss_high = h;
        ctr = 1;
        ipg = if ipg then global else 0;
        avg = if ipg then fp.of_u64 (gap global 0) else fp.of_u64 0;
        std_dev = fp.of_u64 0;
      } in
      if calloc calls then (if seen then ok (f ∷ [], calls + 1) else fault) else exit
  walk ipg global h seen calls (f ∷ rest) =
      let n = add64 f.ctr 1 in
      let claimed = record f {
        rss_high = h;
        ctr = n;
        avg = if ipg then fp.of_u64 0 else f.avg;
        ipg = if ipg then 0 else f.ipg;
      } in
      let counted = record f {
        ctr = n;
        avg = if ipg then mean f.avg n (gap global f.ipg) else f.avg;
        ipg = if ipg then global else f.ipg;
      } in
      let further = walk ipg global h true calls rest >>= (λ r. ok (f ∷ r.0, r.1)) in
      if f.rss_high == 0
      then ok (claimed ∷ rest, calls)
      else if f.rss_high == h
      then ok (counted ∷ rest, calls)
      else further

  -- what the per-packet loop does with the packet
  unfoldable pub count_packet : Setting → ℕ → Mbuf → Table F → Outcome (Table F)
  count_packet k global m s =
      let l = masked_low k.masks m.rss in
      walk k.ipg global (masked_high k.masks m.rss) false s.1 (s.0 l)
      >>= (λ r. ok (update s.0 l r.0, r.1))

  -- `main` from the initialisation of the chains on
  unfoldable pub session :
      {R : Type 0} → Ring R → Setting → List Event → State R (Table F) → Outcome (State R (Table F))
  session ops k es s =
      flow_struct_init flow_num entry_per_flow s.table
      >>= (λ t. run ops k (count_packet k) es (record s { table = t }))

-- the loop of `handler`: a chain is read up to its first entry without packets
unfoldable pub count_chain : {F : Type 0} → Chain F → ℕ → ℕ
count_chain [] sum = sum
count_chain (f ∷ rest) sum =
    let further = count_chain rest (add64 sum 1) in if ltb 0 f.ctr then further else sum

unfoldable pub count_flows : {F : Type 0} → ℕ → Array (Chain F) → ℕ
count_flows zero t = 0
count_flows (suc i) t = count_chain (t i) (count_flows i t)
