-- ===== src/Pthread/DoubleHash.antt =====
-- The DOUBLE_HASH build of pthread/main.c: `lcore_main_count_double_hash` for one packet, the table
-- initialisation in `main`, and the count of flows in `handler`.
use flo_watcher_dpdk.Common.{
  ℕ, zero, suc, ◌+◌, ◌-◌, ◌%◌, not, ◌&&◌, Bool, Array, update, ltb, ◌==◌, if◌then◌else◌, add64,
  u64_mod,
}
use flo_watcher_dpdk.Double.{Arithmetic}
use flo_watcher_dpdk.RunToCompletion.{gap, deviation}

-- `struct pkt_count` of init.h, its arrays written out; the counters have 64 bits, and `ctr[2]` is
-- set to 0 alone
pub record PktCount (F : Type 0) : Type 0 where
  pub hi_f1 : ℕ
  pub hi_f2 : ℕ
  pub ctr0 : ℕ
  pub ctr1 : ℕ
  pub ctr2 : ℕ
  pub ipg0 : ℕ
  pub ipg1 : ℕ
  pub avg0 : F
  pub avg1 : F
  pub std_dev0 : F
  pub std_dev1 : F

module _ {F : Type 0} ⦃fp : Arithmetic F⦄ where
  -- (avg * (ctr - 1) + curr) / (float)ctr
  unfoldable pub mean : F → ℕ → ℕ → F
  mean avg ctr curr =
      fp.div (fp.add (fp.mul avg (fp.of_u64 ((ctr + (u64_mod - 1)) % u64_mod))) (fp.of_i64 curr))
        (fp.single (fp.of_u64 ctr))

  -- the branches of the per-packet code, in its order; `ipg` stands for IPG
  unfoldable pub packet : Bool → ℕ → ℕ → PktCount F → PktCount F
  packet ipg global h c =
      let n0 = add64 c.ctr0 1 in
      let n1 = add64 c.ctr1 1 in
      let curr0 = gap global c.ipg0 in
      let curr1 = gap global c.ipg1 in
      if c.hi_f1 == 0
      then record c { hi_f1 = h; ctr0 = n0; avg0 = if ipg then fp.of_u64 c.ipg0 else c.avg0 }
      else if (c.hi_f2 == 0) && not (c.hi_f1 == h)
      then record c { hi_f2 = h; ctr1 = n1; avg1 = if ipg then fp.of_u64 c.ipg1 else c.avg1 }
      else if c.hi_f1 == h
      then record c {
        ctr0 = n0;
        std_dev0 = if ipg then deviation curr0 c.avg0 else c.std_dev0;
        avg0 = if ipg then mean c.avg0 n0 curr0 else c.avg0;
        ipg0 = if ipg then global else c.ipg0;
      }
      else if c.hi_f2 == h
      then record c {
        ctr1 = n1;
        std_dev1 = if ipg then deviation curr1 c.avg1 else c.std_dev1;
        avg1 = if ipg then mean c.avg1 n1 curr1 else c.avg1;
        ipg1 = if ipg then global else c.ipg1;
      }
      else c

  -- the loop of `main` over the table
  unfoldable pub reset : Bool → PktCount F → PktCount F
  reset ipg c =
      let zeroed = record c { hi_f1 = 0; hi_f2 = 0; ctr0 = 0; ctr1 = 0; ctr2 = 0 } in
      if ipg
      then record zeroed { avg0 = fp.of_u64 0; ipg0 = 0; avg1 = fp.of_u64 0; ipg1 = 0 }
      else zeroed

  unfoldable pub init_table : Bool → ℕ → Array (PktCount F) → Array (PktCount F)
  init_table ipg zero t = t
  init_table ipg (suc i) t = let t' = init_table ipg i t in update t' i (reset ipg (t' i))

-- the loop of `handler`: the flows with a counter
unfoldable pub flows_of_slots : {F : Type 0} → PktCount F → ℕ → ℕ
flows_of_slots c sum =
    let first = if ltb 0 c.ctr0 then add64 sum 1 else sum in
    if ltb 0 c.ctr1 then add64 first 1 else first

unfoldable pub count_flows : {F : Type 0} → ℕ → Array (PktCount F) → ℕ
count_flows zero t = 0
count_flows (suc i) t = flows_of_slots (t i) (count_flows i t)
