-- ===== src/RunToCompletion/HashList.antt =====
-- The HASH_LIST build of run_to_completion/main.c: two counted flows in the bucket, and a chain of
-- entries for the others. A chain is reached from its bucket alone, so it is the list of its
-- entries; `rte_calloc` is a parameter, and the state counts its calls.
pub mod Exact
pub mod Session
pub mod Totals
use flo_watcher_dpdk.Common.{
  ℕ, zero, suc, ◌+◌, ◌-◌, Bool, true, false, not, ◌&&◌, List, [], ◌∷◌, ◌++◌, length, Array, update,
  ltb, ◌==◌, if◌then◌else◌, inc32, add64,
}
use flo_watcher_dpdk.Double.{Arithmetic}
use flo_watcher_dpdk.Dpdk.{Mbuf}
use flo_watcher_dpdk.Outcome.{Outcome, ok, exit, fault, ◌>>=◌, or_exit, Calloc}
use flo_watcher_dpdk.RunToCompletion.{
  Build, rx_rings, flow_num, index_low, index_high, global_loop, gap, weighted, deviation,
}
use flo_watcher_dpdk.RunToCompletion.Quantile.{Quantile, init, observe}

-- `struct flow_entry`, without the link; the estimate `qt` of an entry is never used
pub record FlowEntry (F : Type 0) : Type 0 where
  pub rss_high : ℕ
  pub ctr : ℕ
  pub ipg : ℕ
  pub avg : F
  pub std_dev : F

-- `struct pkt_count`, its arrays written out
pub record PktCount (F : Type 0) : Type 0 where
  pub hi_f1 : ℕ
  pub hi_f2 : ℕ
  pub ctr0 : ℕ
  pub ctr1 : ℕ
  pub ipg0 : ℕ
  pub ipg1 : ℕ
  pub avg0 : F
  pub avg1 : F
  pub std_dev0 : F
  pub std_dev1 : F
  pub qt0 : Quantile F
  pub qt1 : Quantile F
  pub flows : List (FlowEntry F)

pub record State (F : Type 0) : Type 0 where
  pub pkt_ctr : Array (PktCount F)
  pub calls : ℕ
  pub re : Array ℕ
  pub global : ℕ
  pub freed : List ℕ

-- `ENTRY_PER_FLOW`
abbrev pub entry_per_flow : ℕ
entry_per_flow = 1

module _ {F : Type 0} ⦃fp : Arithmetic F⦄ where
  -- an entry as `rte_calloc` leaves it
  unfoldable pub cleared : FlowEntry F
  cleared = record { rss_high = 0; ctr = 0; ipg = 0; avg = fp.of_u64 0; std_dev = fp.of_u64 0 }

  -- the slots of a bucket as the loop of `port_init` resets them
  unfoldable pub reset : Build → PktCount F → PktCount F
  reset b c =
      let zeroed = record c { hi_f1 = 0; hi_f2 = 0; ctr0 = 0; ctr1 = 0 } in
      let marks = record zeroed { avg0 = fp.of_u64 0; ipg0 = 0; avg1 = fp.of_u64 0; ipg1 = 0 } in
      if b.ipg
      then if b.quantile then record marks { qt0 = init c.qt0; qt1 = init c.qt1 } else marks
      else zeroed

  -- the packet of a flow that has slot 0 or slot 1
  unfoldable pub first_slot : Build → ℕ → PktCount F → PktCount F
  first_slot b global c =
      let n = inc32 c.ctr0 in
      let curr = gap global c.ipg0 in
      let mean = fp.div (weighted c.avg0 n curr) (fp.single (fp.of_u32 n)) in
      let counted = record c { ctr0 = n } in
      let timed = record counted {
        std_dev0 = deviation curr c.avg0;
        avg0 = mean;
        ipg0 = global;
        qt0 = if b.quantile then observe curr c.qt0 else c.qt0;
      } in
      if b.ipg then timed else counted

  unfoldable pub second_slot : Build → ℕ → PktCount F → PktCount F
  second_slot b global c =
      let n = inc32 c.ctr1 in
      let curr = gap global c.ipg1 in
      let mean = fp.div (weighted c.avg1 n curr) (fp.single (fp.of_u32 n)) in
      let counted = record c { ctr1 = n } in
      let timed = record counted {
        std_dev1 = deviation curr c.avg1;
        avg1 = mean;
        ipg1 = global;
        qt1 = if b.quantile then observe curr c.qt1 else c.qt1;
      } in
      if b.ipg then timed else counted

module _ {F : Type 0} ⦃fp : Arithmetic F⦄ (calloc : Calloc) where
  -- while (--j > 0), in the rounds that are left; the result of `rte_calloc` is not tested
  unfoldable pub extend : ℕ → ℕ → Outcome (List (FlowEntry F) × ℕ)
  extend zero calls = ok ([], calls)
  extend (suc j) calls =
      if calloc calls then extend j (calls + 1) >>= (λ r. ok (cleared ∷ r.0, r.1)) else fault

  -- the chain of a bucket; without memory it is NULL, which is used if there is a further round
  unfoldable pub init_chain : ℕ → ℕ → Outcome (List (FlowEntry F) × ℕ)
  init_chain size calls =
      if calloc calls
      then extend (size - 1) (calls + 1) >>= (λ r. ok (cleared ∷ r.0, r.1))
      else if ltb 1 size
      then fault
      else ok ([], calls + 1)

  unfoldable pub init_table : Build → ℕ → Array (PktCount F) × ℕ → Outcome (Array (PktCount F) × ℕ)
  init_table b zero s = ok s
  init_table b (suc i) s = init_table b i s >>= (λ s'.
      init_chain entry_per_flow s'.1
      >>= (λ r. ok (update s'.0 i (record (reset b (s'.0 i)) { flows = r.0 }), r.1)))

  -- the walk along a chain and the allocation behind it; `seen` tells whether this walk has
  -- assigned `tmp`, which otherwise is uninitialised or points into another chain
  unfoldable pub walk :
      Build → ℕ → ℕ → Bool → ℕ → List (FlowEntry F) → Outcome (List (FlowEntry F) × ℕ)
  walk b global h seen calls [] =
      let f = record cleared { rss_high = h; ctr = inc32 0 } in
      if calloc calls then (if seen then ok (f ∷ [], calls + 1) else fault) else exit
  walk b global h seen calls (f ∷ rest) =
      let n = inc32 f.ctr in
      let curr = gap global f.ipg in
      let mean = fp.div (weighted f.avg n curr) (fp.single (fp.of_u32 n)) in
      let counted = record f {
        ctr = n;
        std_dev = if b.ipg then deviation curr f.avg else f.std_dev;
        avg = if b.ipg then mean else f.avg;
      } in
      let claimed = record f {
        rss_high = h;
        ctr = n;
        avg = if b.ipg then fp.of_u64 curr else f.avg;
        ipg = if b.ipg then global else f.ipg;
      } in
      let further = walk b global h true calls rest >>= (λ r. ok (f ∷ r.0, r.1)) in
      if f.rss_high == h
      then ok (counted ∷ rest, calls)
      else if f.rss_high == 0
      then ok (claimed ∷ rest, calls)
      else further

  -- the branches of the per-packet code, in its order
  unfoldable pub packet : Build → ℕ → ℕ → ℕ → PktCount F → Outcome (PktCount F × ℕ)
  packet b global h calls c =
      if c.hi_f1 == 0
      then ok (
        record c {
          hi_f1 = h;
          ctr0 = inc32 c.ctr0;
          avg0 = if b.ipg then fp.of_u64 c.ipg0 else c.avg0;
        },
        calls,
      )
      else if (c.hi_f2 == 0) && not (c.hi_f1 == h)
      then ok (
        record c {
          hi_f2 = h;
          ctr1 = inc32 c.ctr1;
          avg1 = if b.ipg then fp.of_u64 c.ipg1 else c.avg1;
        },
        calls,
      )
      else if c.hi_f1 == h
      then ok (first_slot b global c, calls)
      else if c.hi_f2 == h
      then ok (second_slot b global c, calls)
      else walk b global h false calls c.flows >>= (λ r. ok (record c { flows = r.0 }, r.1))

  -- the per-packet loop, which gives each buffer back; what it changes is the table, the calls of
  -- `rte_calloc` and the freed buffers
  unfoldable pub count_packet :
      Build → ℕ → Mbuf → Array (PktCount F) × ℕ × List ℕ → Outcome (Array (PktCount F) × ℕ × List ℕ)
  count_packet b global m (t, calls, freed) =
      let l = index_low m.rss in
      packet b global (index_high m.rss) calls (t l)
      >>= (λ r. ok (update t l r.0, r.1, freed ++ m.addr ∷ []))

  unfoldable pub count_loop :
      Build
      → ℕ
      → List Mbuf
      → Array (PktCount F) × ℕ × List ℕ
      → Outcome (Array (PktCount F) × ℕ × List ℕ)
  count_loop b global [] s = ok s
  count_loop b global (m ∷ ms) s = count_packet b global m s >>= (λ s'. count_loop b global ms s')

  -- one round of the endless loop of `hash_list`; `global` is read before the queue counter grows
  unfoldable pub burst : Build → ℕ → List Mbuf → State F → Outcome (State F)
  burst b q [] s = ok s
  burst b q (m ∷ ms) s =
      let bufs = m ∷ ms in
      let global = if b.ipg then global_loop s.re rx_rings 0 else s.global in
      count_loop b global bufs (s.pkt_ctr, s.calls, s.freed) >>= (λ r. ok (record {
        pkt_ctr = r.0;
        calls = r.1;
        re = update s.re q (add64 (s.re q) (length bufs));
        global = global;
        freed = r.2;
      }))

  unfoldable pub hash_list : Build → ℕ → List (List Mbuf) → State F → Outcome (State F)
  hash_list b q [] s = ok s
  hash_list b q (bufs ∷ rest) s = burst b q bufs s >>= (λ s'. hash_list b q rest s')

  -- `main` from the initialisation in `port_init` to the last burst
  unfoldable pub session : Build → ℕ → List (List Mbuf) → State F → Outcome (State F)
  session b q bursts s =
      or_exit (init_table b flow_num (s.pkt_ctr, s.calls))
      >>= (λ r. hash_list b q bursts (record s { pkt_ctr = r.0; calls = r.1 }))

-- the report of `handler`: the flows and the packets of a slot, of a chain and of the table
unfoldable pub report_slot : ℕ → ℕ × ℕ → ℕ × ℕ
report_slot ctr (flows, sum) = if ltb 0 ctr then (add64 flows 1, add64 sum ctr) else (flows, sum)

unfoldable pub report_chain : {F : Type 0} → List (FlowEntry F) → ℕ × ℕ → ℕ × ℕ
report_chain [] (flows, sum) = (flows, sum)
report_chain (f ∷ rest) (flows, sum) =
    report_chain rest (if ltb 0 f.ctr then add64 flows 1 else flows, add64 sum f.ctr)

unfoldable pub report : {F : Type 0} → ℕ → Array (PktCount F) → ℕ × ℕ
report zero t = (0, 0)
report (suc i) t =
    report_chain (t i).flows (report_slot (t i).ctr1 (report_slot (t i).ctr0 (report i t)))
