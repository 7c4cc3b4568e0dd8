-- ===== src/RunToCompletion.antt =====
-- run_to_completion/main.c and main.h: one lcore per RX queue polls the NIC and counts packets in
-- the flow table itself. This file has what the three data structures share: the build macros, the
-- split of the RSS hash, and the global packet counter.
use Prim.Native.Nat.{bit_and}
use flo_watcher_dpdk.Common.{ℕ, zero, suc, ◌+◌, ◌-◌, ◌/◌, ◌%◌, Bool, Array, u32_mod, add64, sub64}
use flo_watcher_dpdk.Double.{Arithmetic}
pub mod Arrivals
pub mod DoubleHash
pub mod HashList
pub mod LinkedList
pub mod Quantile
pub mod Report
pub mod Startup
pub mod Timer

-- the macros of main.h that change what the loops compute
pub record Build : Type 0 where
  pub flow_level : Bool
  pub ipg : Bool
  pub quantile : Bool

-- `RX_RINGS`, `FLOW_NUM`, `BURST_SIZE`
abbrev pub rx_rings : ℕ
rx_rings = 1

abbrev pub flow_num : ℕ
flow_num = 65536

-- index_l = bufs[buf]->hash.rss & 0xffff
unfoldable pub index_low : ℕ → ℕ
index_low rss = bit_and rss 0xffff

-- index_h = (bufs[buf]->hash.rss & 0xffff0000)>>16
unfoldable pub index_high : ℕ → ℕ
index_high rss = bit_and rss 0xffff0000 / 65536

-- while (qNum > 0) global += re[--qNum];
unfoldable pub global_loop : Array ℕ → ℕ → ℕ → ℕ
global_loop re zero global = global
global_loop re (suc q) global = global_loop re q (add64 global (re q))

-- curr = global - 1 - ipg, on `uint64_t`; the pattern is then read as an `int64_t`
unfoldable pub gap : ℕ → ℕ → ℕ
gap global ipg = sub64 (sub64 global 1) ipg

module _ {F : Type 0} ⦃fp : Arithmetic F⦄ where
  -- avg * (ctr - 1) + curr
  unfoldable pub weighted : F → ℕ → ℕ → F
  weighted avg ctr curr =
      fp.add (fp.mul avg (fp.of_u32 ((ctr + (u32_mod - 1)) % u32_mod))) (fp.of_i64 curr)

  -- sqrt (pow (curr - avg, 2))
  unfoldable pub deviation : ℕ → F → F
  deviation curr avg = let apart = fp.sub (fp.of_i64 curr) avg in fp.sqrt (fp.mul apart apart)
