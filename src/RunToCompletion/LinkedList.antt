-- ===== src/RunToCompletion/LinkedList.antt =====
-- The LINKED_LIST build of run_to_completion/main.c: a chain of entries per bucket, one for each
-- flow. A chain is reached from its bucket alone, so it is the list of its entries; `rte_calloc` is
-- the section's parameter, and the state counts its calls.
pub mod Exact
pub mod Session
pub mod Totals
use flo_watcher_dpdk.Common.{
  ℕ, zero, suc, ◌+◌, ◌-◌, ◌%◌, Bool, true, false, List, [], ◌∷◌, length, Array, update, ◌==◌,
  if◌then◌else◌, inc32, add64, u32_mod,
}
use flo_watcher_dpdk.Double.{Arithmetic}
use flo_watcher_dpdk.Dpdk.{Mbuf}
use flo_watcher_dpdk.Outcome.{Outcome, ok, failed, exit, fault, ◌>>=◌, or_exit, Calloc}
use flo_watcher_dpdk.RunToCompletion.{
  Build, rx_rings, flow_num, index_low, index_high, global_loop, gap, weighted,
}
use flo_watcher_dpdk.RunToCompletion.DoubleHash.{free_all}

-- `struct flow_entry`, without the link
pub record FlowEntry (F : Type 0) : Type 0 where
  pub rss_high : ℕ
  pub ctr : ℕ
  pub ipg : ℕ
  pub avg : F

abbrev pub Chain : Type 0 → Type 0
Chain F = List (FlowEntry F)

pub record State (F : Type 0) : Type 0 where
  pub flows : Array (Chain F)
  pub calls : ℕ
  pub re : Array ℕ
  pub global : ℕ
  pub freed : List ℕ

-- `ENTRY_PER_FLOW`
abbrev pub entry_per_flow : ℕ
entry_per_flow = 2

module _ {F : Type 0} ⦃fp : Arithmetic F⦄ (calloc : Calloc) where
  -- an entry as `rte_calloc` and the assignments of `flow_struct_init` leave it
  unfoldable pub fresh : FlowEntry F
  fresh = record { rss_high = 0; ctr = 0; ipg = 0; avg = fp.of_u64 0 }

  -- while (j++ < size - 1): the test that follows the allocation looks at `f`, not at `f->next`
  unfoldable pub extend : ℕ → ℕ → Outcome (Chain F × ℕ)
  extend zero calls = ok ([], calls)
  extend (suc j) calls =
      if calloc calls then extend j (calls + 1) >>= (λ r. ok (fresh ∷ r.0, r.1)) else fault

  -- the body of the loop of `flow_struct_init`
  unfoldable pub init_chain : ℕ → ℕ → Outcome (Chain F × ℕ)
  init_chain size calls =
      if calloc calls
      then extend ((size + (u32_mod - 1)) % u32_mod) (calls + 1) >>= (λ r. ok (fresh ∷ r.0, r.1))
      else failed

  unfoldable pub flow_struct_init : ℕ → ℕ → Array (Chain F) × ℕ → Outcome (Array (Chain F) × ℕ)
  flow_struct_init zero size s = ok s
  flow_struct_init (suc i) size s =
      flow_struct_init i size s
      >>= (λ s'. init_chain size s'.1 >>= (λ r. ok (update s'.0 i r.0, r.1)))

  -- the walk along a chain and the allocation behind it; `seen` tells whether `tmp` was assigned
  unfoldable pub walk : Build → ℕ → ℕ → Bool → ℕ → Chain F → Outcome (Chain F × ℕ)
  walk b global h seen calls [] =
      let f : FlowEntry F = record {
        rss_high = h;
        ctr = 1;
        ipg = if b.ipg then global else 0;
        avg = if b.ipg then fp.of_u64 (gap global 0) else fp.of_u64 0;
      } in
      if calloc calls then (if seen then ok (f ∷ [], calls + 1) else fault) else exit
  walk b global h seen calls (f ∷ rest) =
      let n = inc32 f.ctr in
      let claimed = record f {
        rss_high = h;
        ctr = n;
        ipg = if b.ipg then 0 else f.ipg;
        avg = if b.ipg then fp.of_u64 0 else f.avg;
      } in
      let mean = fp.div (weighted f.avg n (gap global f.ipg)) (fp.single (fp.of_u32 n)) in
      let counted = record f {
        ctr = n;
        ipg = if b.ipg then global else f.ipg;
        avg = if b.ipg then mean else f.avg;
      } in
      let further = walk b global h true calls rest >>= (λ r. ok (f ∷ r.0, r.1)) in
      if f.rss_high == 0
      then ok (claimed ∷ rest, calls)
      else if f.rss_high == h
      then ok (counted ∷ rest, calls)
      else further

  -- the per-packet loop
  unfoldable pub count_packet :
      Build → ℕ → Mbuf → Array (Chain F) × ℕ → Outcome (Array (Chain F) × ℕ)
  count_packet b global m s =
      let l = index_low m.rss in
      walk b global (index_high m.rss) false s.1 (s.0 l) >>= (λ r. ok (update s.0 l r.0, r.1))

  unfoldable pub count_loop :
      Build → ℕ → List Mbuf → Array (Chain F) × ℕ → Outcome (Array (Chain F) × ℕ)
  count_loop b global [] s = ok s
  count_loop b global (m ∷ ms) s = count_packet b global m s >>= (λ s'. count_loop b global ms s')

  -- one round of the endless loop of `linked_list`
  unfoldable pub burst : Build → ℕ → List Mbuf → State F → Outcome (State F)
  burst b q [] s = ok s
  burst b q (m ∷ ms) s =
      let bufs = m ∷ ms in
      let re = update s.re q (add64 (s.re q) (length bufs)) in
      let global = if b.ipg then global_loop re rx_rings 0 else s.global in
      count_loop b global bufs (s.flows, s.calls) >>= (λ r. ok (record {
        flows = r.0;
        calls = r.1;
        re = re;
        global = global;
        freed = free_all bufs s.freed;
      }))

  unfoldable pub linked_list : Build → ℕ → List (List Mbuf) → State F → Outcome (State F)
  linked_list b q [] s = ok s
  linked_list b q (bufs ∷ rest) s = burst b q bufs s >>= (λ s'. linked_list b q rest s')

  -- `main` from the initialisation in `port_init` to the last burst
  unfoldable pub session : Build → ℕ → List (List Mbuf) → State F → Outcome (State F)
  session b q bursts s =
      or_exit (flow_struct_init flow_num entry_per_flow (s.flows, s.calls))
      >>= (λ r. linked_list b q bursts (record s { flows = r.0; calls = r.1 }))

-- the report of `handler`: the flows and the packets of a chain and of the table
unfoldable pub report_chain : {F : Type 0} → Chain F → ℕ × ℕ → ℕ × ℕ
report_chain [] (fls, sum) = (fls, sum)
report_chain (f ∷ rest) (fls, sum) =
    report_chain rest (if f.ctr == 0 then fls else add64 fls 1, add64 sum f.ctr)

unfoldable pub report : {F : Type 0} → ℕ → Array (Chain F) → ℕ × ℕ
report zero t = (0, 0)
report (suc i) t = report_chain (t i) (report i t)
