-- ===== src/RunToCompletion/DoubleHash.antt =====
-- The DOUBLE_HASH build of run_to_completion/main.c: two counted flows per bucket and a third
-- counter for the packets of every other flow.
pub mod Accounts
pub mod Counting
pub mod Runs
use flo_watcher_dpdk.Common.{
  ℕ, zero, suc, ◌+◌, not, ◌&&◌, List, [], ◌∷◌, ◌++◌, length, Array, update, ◌==◌, if◌then◌else◌,
  inc32, add64, sub64,
}
use flo_watcher_dpdk.Double.{Arithmetic}
use flo_watcher_dpdk.Dpdk.{Mbuf}
use flo_watcher_dpdk.RunToCompletion.{
  Build, rx_rings, index_low, index_high, global_loop, gap, weighted,
}

-- `struct pkt_count`, its arrays written out; `ipg` and `avg` exist under IPG alone
pub record PktCount (F : Type 0) : Type 0 where
  pub hi_f1 : ℕ
  pub hi_f2 : ℕ
  pub ctr0 : ℕ
  pub ctr1 : ℕ
  pub ctr2 : ℕ
  pub ipg0 : ℕ
  pub ipg1 : ℕ
  pub avg0 : F
  pub avg1 : F

-- the table, the queue counters, the global counter, and the log of freed buffers
pub record State (F : Type 0) : Type 0 where
  pub pkt_ctr : Array (PktCount F)
  pub re : Array ℕ
  pub global : ℕ
  pub freed : List ℕ

-- for (buf = 0; buf < nb_rx; buf++) rte_pktmbuf_free(bufs[buf]);
unfoldable pub free_all : List Mbuf → List ℕ → List ℕ
free_all [] freed = freed
free_all (m ∷ ms) freed = free_all ms (freed ++ m.addr ∷ [])

module _ {F : Type 0} ⦃fp : Arithmetic F⦄ where
  -- the branches of the per-packet code, in its order; `global` and the averages under IPG
  unfoldable pub packet : Build → ℕ → ℕ → PktCount F → PktCount F
  packet b global h c =
      if c.hi_f1 == 0
      then record c {
        hi_f1 = h;
        ctr0 = inc32 c.ctr0;
        avg0 = if b.ipg then fp.of_u64 c.ipg0 else c.avg0;
      }
      else if (c.hi_f2 == 0) && not (c.hi_f1 == h)
      then record c {
        hi_f2 = h;
        ctr1 = inc32 c.ctr1;
        avg1 = if b.ipg then fp.of_u64 c.ipg1 else c.avg1;
      }
      else if c.hi_f1 == h
      then (let n = inc32 c.ctr0 in
          let mean = fp.div (weighted c.avg0 n (gap global c.ipg0)) (fp.of_u32 n) in
          record c {
            ctr0 = n;
            avg0 = if b.ipg then mean else c.avg0;
            ipg0 = if b.ipg then global else c.ipg0;
          })
      else if c.hi_f2 == h
      then (let n = inc32 c.ctr1 in
          let mean = fp.div (weighted c.avg1 n (gap global c.ipg1)) (fp.single (fp.of_u32 n)) in
          record c {
            ctr1 = n;
            avg1 = if b.ipg then mean else c.avg1;
            ipg1 = if b.ipg then global else c.ipg1;
          })
      else record c { ctr2 = inc32 c.ctr2 }

  -- one round of the per-packet loop
  unfoldable pub count_packet : Build → ℕ → Array (PktCount F) → Mbuf → Array (PktCount F)
  count_packet b global t m =
      let l = index_low m.rss in update t l (packet b global (index_high m.rss) (t l))

  -- the per-packet loop, which frees each buffer too
  unfoldable pub count_loop :
      Build → ℕ → List Mbuf → Array (PktCount F) × List ℕ → Array (PktCount F) × List ℕ
  count_loop b global [] s = s
  count_loop b global (m ∷ ms) s =
      count_loop b global ms (count_packet b global s.0 m, s.1 ++ m.addr ∷ [])

  -- one round of the endless loop, given what `rte_eth_rx_burst` delivers for queue `q`
  unfoldable pub burst : Build → ℕ → List Mbuf → State F → State F
  burst b q [] s = s
  burst b q (m ∷ ms) s =
      let bufs = m ∷ ms in
      let global = if b.ipg then global_loop s.re rx_rings 0 else s.global in
      let counted =
        if b.flow_level
        then count_loop b global bufs (s.pkt_ctr, s.freed)
        else (s.pkt_ctr, s.freed) in
      record s {
        pkt_ctr = counted.0;
        re = update s.re q (add64 (s.re q) (length bufs));
        global = global;
        freed = free_all bufs counted.1;
      }

  -- `double_hash`: the bursts that arrive up to some moment
  unfoldable pub double_hash : Build → ℕ → List (List Mbuf) → State F → State F
  double_hash b q [] s = s
  double_hash b q (bufs ∷ rest) s = double_hash b q rest (burst b q bufs s)

  -- the body of the loop of `port_init` over the table
  unfoldable pub reset : Build → PktCount F → PktCount F
  reset b c =
      let zeroed = record c { hi_f1 = 0; hi_f2 = 0; ctr0 = 0; ctr1 = 0; ctr2 = 0 } in
      if b.ipg
      then record zeroed { avg0 = fp.of_u64 0; ipg0 = 0; avg1 = fp.of_u64 0; ipg1 = 0 }
      else zeroed

  -- for (i = 0; i < n; i++), on what static storage holds
  unfoldable pub init_table : Build → ℕ → Array (PktCount F) → Array (PktCount F)
  init_table b zero t = t
  init_table b (suc i) t = let t' = init_table b i t in update t' i (reset b (t' i))

-- the loop of `handler`: the packets that belong to neither flow of their bucket
unfoldable pub miscounted : {F : Type 0} → ℕ → Array (PktCount F) → ℕ
miscounted zero t = 0
miscounted (suc i) t = add64 (miscounted i t) (t i).ctr2
