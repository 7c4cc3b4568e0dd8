-- ===== src/Lthread/DoubleHash.antt =====
-- The flow table of lthread/main.c: the per-packet code of `lthread_tx_per_ring`, the loop of `main`
-- that resets the table, and the report of `handler`.
pub mod Same
use flo_watcher_dpdk.Common.{
  ℕ, zero, suc, ◌+◌, Bool, not, ◌&&◌, Array, update, ltb, ◌==◌, if◌then◌else◌, inc32, add64,
}
use flo_watcher_dpdk.Double.{Arithmetic}
use flo_watcher_dpdk.RunToCompletion.{gap, weighted, deviation}
use flo_watcher_dpdk.RunToCompletion.Quantile.{Quantile, init, observe}

-- the macros IPG and QUANTILE; the second has a meaning under the first alone
pub record Macros : Type 0 where
  pub ipg : Bool
  pub quantile : Bool

-- `struct pkt_count`, its arrays written out
pub record PktCount (F : Type 0) : Type 0 where
  pub hi_f1 : ℕ
  pub hi_f2 : ℕ
  pub ctr0 : ℕ
  pub ctr1 : ℕ
  pub ctr2 : ℕ
  pub ipg0 : ℕ
  pub ipg1 : ℕ
  pub avg0 : F
  pub avg1 : F
  pub std_dev0 : F
  pub std_dev1 : F
  pub qt0 : Quantile F
  pub qt1 : Quantile F

module _ {F : Type 0} ⦃fp : Arithmetic F⦄ where
  -- (avg * (ctr - 1) + curr) / (float)ctr
  unfoldable pub mean : F → ℕ → ℕ → F
  mean avg ctr curr = fp.div (weighted avg ctr curr) (fp.single (fp.of_u32 ctr))

  -- a packet of the flow that has slot 0 or slot 1
  unfoldable pub first_flow : Macros → ℕ → PktCount F → PktCount F
  first_flow b global c =
      let n = inc32 c.ctr0 in
      let curr = gap global c.ipg0 in
      let counted = record c { ctr0 = n } in
      let timed = record counted {
        std_dev0 = deviation curr c.avg0;
        avg0 = mean c.avg0 n curr;
        ipg0 = global;
        qt0 = if b.quantile then observe curr c.qt0 else c.qt0;
      } in
      if b.ipg then timed else counted

  unfoldable pub second_flow : Macros → ℕ → PktCount F → PktCount F
  second_flow b global c =
      let n = inc32 c.ctr1 in
      let curr = gap global c.ipg1 in
      let counted = record c { ctr1 = n } in
      let timed = record counted {
        std_dev1 = deviation curr c.avg1;
        avg1 = mean c.avg1 n curr;
        ipg1 = global;
        qt1 = if b.quantile then observe curr c.qt1 else c.qt1;
      } in
      if b.ipg then timed else counted

  -- the branches of the per-packet code, in its order
  unfoldable pub packet : Macros → ℕ → ℕ → PktCount F → PktCount F
  packet b global h c =
      if c.hi_f1 == 0
      then record c {
        hi_f1 = h;
        ctr0 = inc32 c.ctr0;
        ipg0 = if b.ipg then 0 else c.ipg0;
        avg0 = if b.ipg then fp.of_u64 0 else c.avg0;
      }
      else if (c.hi_f2 == 0) && not (c.hi_f1 == h)
      then record c {
        hi_f2 = h;
        ctr1 = inc32 c.ctr1;
        ipg1 = if b.ipg then 0 else c.ipg1;
        avg1 = if b.ipg then fp.of_u64 0 else c.avg1;
      }
      else if c.hi_f1 == h
      then first_flow b global c
      else if c.hi_f2 == h
      then second_flow b global c
      else record c { ctr2 = inc32 c.ctr2 }

  -- the body of the loop of `main` over the table
  unfoldable pub reset : Macros → PktCount F → PktCount F
  reset b c =
      let zeroed = record c { hi_f1 = 0; hi_f2 = 0; ctr0 = 0; ctr1 = 0; ctr2 = 0 } in
      let marks = record zeroed { ipg0 = 0; avg0 = fp.of_u64 0; ipg1 = 0; avg1 = fp.of_u64 0 } in
      if b.ipg
      then if b.quantile then record marks { qt0 = init c.qt0; qt1 = init c.qt1 } else marks
      else zeroed

  -- for (i = 0; i < n; i++)
  unfoldable pub init_table : Macros → ℕ → Array (PktCount F) → Array (PktCount F)
  init_table b zero t = t
  init_table b (suc i) t = let t' = init_table b i t in update t' i (reset b (t' i))

-- one round of the loop of `handler`: the flows and their packets; `flows` is an `int`, which two
-- flows for each of 65536 buckets do not fill
unfoldable pub report_slot : ℕ → ℕ × ℕ → ℕ × ℕ
report_slot ctr (flows, sum) = if ltb 0 ctr then (flows + 1, add64 sum ctr) else (flows, sum)

unfoldable pub report : {F : Type 0} → ℕ → Array (PktCount F) → ℕ × ℕ
report zero t = (0, 0)
report (suc i) t = report_slot (t i).ctr1 (report_slot (t i).ctr0 (report i t))
