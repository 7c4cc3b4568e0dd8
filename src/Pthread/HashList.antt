-- ===== src/Pthread/HashList.antt =====
-- The HASH_LIST build of pthread/main.c: the initialisation in `main`, `lcore_main_count_hash_list` for
-- one packet, and the sum that `handler` prints. Two counted flows stand in the bucket and a chain
-- has the others; a chain is reached from its bucket alone, so it is the list of its entries. The
-- hash that `rte_softrss_be` computes from the headers is a parameter, and so is `rte_calloc`.
pub mod Exact
pub mod Flows
pub mod System
use flo_watcher_dpdk.Common.{
  ℕ, zero, suc, ◌+◌, ◌-◌, Bool, true, false, not, ◌&&◌, List, [], ◌∷◌, Array, update, ltb, ◌==◌,
  if◌then◌else◌, add64,
}
use flo_watcher_dpdk.Double.{Arithmetic}
use flo_watcher_dpdk.Dpdk.{Mbuf}
use flo_watcher_dpdk.Outcome.{Outcome, ok, exit, fault, ◌>>=◌, Calloc}
use flo_watcher_dpdk.Pthread.{flow_num}
use flo_watcher_dpdk.Pthread.Chains.{State, run}
use flo_watcher_dpdk.Pthread.DoubleHash.{mean}
use flo_watcher_dpdk.Pthread.Pipeline.{Event, Setting}
use flo_watcher_dpdk.Ring.{Ring}
use flo_watcher_dpdk.RunToCompletion.{gap, deviation, index_low, index_high}

-- `struct flow_entry` of init.h, without the link
pub record FlowEntry (F : Type 0) : Type 0 where
  pub rss_high : ℕ
  pub ctr : ℕ
  pub ipg : ℕ
  pub avg : F
  pub std_dev : F

-- `struct pkt_count` of init.h, its arrays written out
pub record PktCount (F : Type 0) : Type 0 where
  pub hi_f1 : ℕ
  pub hi_f2 : ℕ
  pub ctr0 : ℕ
  pub ctr1 : ℕ
  pub ipg0 : ℕ
  pub ipg1 : ℕ
  pub avg0 : F
  pub avg1 : F
  pub std_dev0 : F
  pub std_dev1 : F
  pub flows : List (FlowEntry F)

-- the table and the calls of `rte_calloc`
abbrev pub Table : Type 0 → Type 0
Table F = Array (PktCount F) × ℕ

-- `ENTRY_PER_FLOW`
abbrev pub entry_per_flow : ℕ
entry_per_flow = 1

module _ {F : Type 0} ⦃fp : Arithmetic F⦄ where
  -- an entry as `rte_calloc` leaves it
  unfoldable pub cleared : FlowEntry F
  cleared = record { rss_high = 0; ctr = 0; ipg = 0; avg = fp.of_u64 0; std_dev = fp.of_u64 0 }

  -- the slots of a bucket as the loop of `main` resets them
  unfoldable pub reset : Bool → PktCount F → PktCount F
  reset ipg c =
      let zeroed = record c { hi_f1 = 0; hi_f2 = 0; ctr0 = 0; ctr1 = 0 } in
      if ipg
      then record zeroed { avg0 = fp.of_u64 0; ipg0 = 0; avg1 = fp.of_u64 0; ipg1 = 0 }
      else zeroed

module _ {F : Type 0} ⦃fp : Arithmetic F⦄ (calloc : Calloc) where
  -- while (--j > 0), in the rounds that are left; the result of `rte_calloc` is not tested
  unfoldable pub extend : ℕ → ℕ → Outcome (List (FlowEntry F) × ℕ)
  extend zero calls = ok ([], calls)
  extend (suc j) calls =
      if calloc calls then extend j (calls + 1) >>= (λ r. ok (cleared ∷ r.0, r.1)) else fault

  -- the chain of a bucket; without memory it is NULL, which is used if there is a further round
  unfoldable pub init_chain : ℕ → ℕ → Outcome (List (FlowEntry F) × ℕ)
  init_chain size calls =
      if calloc calls
      then extend (size - 1) (calls + 1) >>= (λ r. ok (cleared ∷ r.0, r.1))
      else if ltb 1 size
      then fault
      else ok ([], calls + 1)

  unfoldable pub init_table : Bool → ℕ → Table F → Outcome (Table F)
  init_table ipg zero s = ok s
  init_table ipg (suc i) s = init_table ipg i s >>= (λ s'.
      init_chain entry_per_flow s'.1
      >>= (λ r. ok (update s'.0 i (record (reset ipg (s'.0 i)) { flows = r.0 }), r.1)))

  -- the walk along a chain and the allocation behind it; `seen` tells whether this walk has
  -- assigned `tmp`, which otherwise is uninitialised or points into another chain; `ipg` is IPG
  unfoldable pub walk :
      Bool → ℕ → ℕ → Bool → ℕ → List (FlowEntry F) → Outcome (List (FlowEntry F) × ℕ)
  walk ipg global h seen calls [] =
      let f = record cleared { rss_high = h; ctr = add64 0 1 } in
      if calloc calls then (if seen then ok (f ∷ [], calls + 1) else fault) else exit
  walk ipg global h seen calls (f ∷ rest) =
      let n = add64 f.ctr 1 in
      let curr = gap global f.ipg in
      let counted = record f {
        ctr = n;
        std_dev = if ipg then deviation curr f.avg else f.std_dev;
        avg = if ipg then mean f.avg n curr else f.avg;
      } in
      let claimed = record f {
        rss_high = h;
        ctr = n;
        avg = if ipg then fp.of_u64 curr else f.avg;
        ipg = if ipg then global else f.ipg;
      } in
      let further = walk ipg global h true calls rest >>= (λ r. ok (f ∷ r.0, r.1)) in
      if f.rss_high == h
      then ok (counted ∷ rest, calls)
      else if f.rss_high == 0
      then ok (claimed ∷ rest, calls)
      else further

  -- the branches of the per-packet code, in its order
  unfoldable pub packet : Bool → ℕ → ℕ → ℕ → PktCount F → Outcome (PktCount F × ℕ)
  packet ipg global h calls c =
      let n0 = add64 c.ctr0 1 in
      let n1 = add64 c.ctr1 1 in
      let curr0 = gap global c.ipg0 in
      let curr1 = gap global c.ipg1 in
      let first = record c {
        ctr0 = n0;
        std_dev0 = if ipg then deviation curr0 c.avg0 else c.std_dev0;
        avg0 = if ipg then mean c.avg0 n0 curr0 else c.avg0;
        ipg0 = if ipg then global else c.ipg0;
      } in
      let second = record c {
        ctr1 = n1;
        std_dev1 = if ipg then deviation curr1 c.avg1 else c.std_dev1;
        avg1 = if ipg then mean c.avg1 n1 curr1 else c.avg1;
        ipg1 = if ipg then global else c.ipg1;
      } in
      let claim0 = record c {
        hi_f1 = h;
        ctr0 = n0;
        avg0 = if ipg then fp.of_u64 c.ipg0 else c.avg0;
      } in
      let claim1 = record c {
        hi_f2 = h;
        ctr1 = n1;
        avg1 = if ipg then fp.of_u64 c.ipg1 else c.avg1;
      } in
      if c.hi_f1 == 0
      then ok (claim0, calls)
      else if (c.hi_f2 == 0) && not (c.hi_f1 == h)
      then ok (claim1, calls)
      else if c.hi_f1 == h
      then ok (first, calls)
      else if c.hi_f2 == h
      then ok (second, calls)
      else walk ipg global h false calls c.flows >>= (λ r. ok (record c { flows = r.0 }, r.1))

  -- what the per-packet loop does with the packet, given its hash
  unfoldable pub count_packet : (Mbuf → ℕ) → Setting → ℕ → Mbuf → Table F → Outcome (Table F)
  count_packet softrss k global m s =
      let l = index_low (softrss m) in
      packet k.ipg global (index_high (softrss m)) s.1 (s.0 l) >>= (λ r. ok (update s.0 l r.0, r.1))

  -- `main` from the initialisation of the table on
  unfoldable pub session :
      {R : Type 0}
      → Ring R
      → (Mbuf → ℕ)
      → Setting
      → List Event
      → State R (Table F)
      → Outcome (State R (Table F))
  session ops softrss k es s =
      init_table k.ipg flow_num s.table
      >>= (λ t. run ops k (count_packet softrss k) es (record s { table = t }))

-- the sum that `handler` prints as the number of flows
unfoldable pub sum_slot : ℕ → ℕ → ℕ
sum_slot ctr sum = if ltb 0 ctr then add64 sum 1 else sum

unfoldable pub sum_chain : {F : Type 0} → List (FlowEntry F) → ℕ → ℕ
sum_chain [] sum = sum
sum_chain (f ∷ rest) sum = sum_chain rest (add64 (sum_slot f.ctr sum) f.ctr)

unfoldable pub sum_table : {F : Type 0} → ℕ → Array (PktCount F) → ℕ
sum_table zero t = 0
sum_table (suc i) t =
    sum_chain (t i).flows (sum_slot (t i).ctr1 (sum_slot (t i).ctr0 (sum_table i t)))
