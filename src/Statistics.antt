-- ===== src/Statistics.antt =====
-- What `timer_cb` and `handler` of the programs print of the counters and of DPDK: the statistics of
-- the first enabled port, and once a second the packets so far and the rate since the last second.
use flo_watcher_dpdk.Common.{ℕ, zero, suc, ◌+◌, Option, Array, if◌then◌else◌, add64, Bool, ltb, ◌^◌}
use flo_watcher_dpdk.Common.Int.{pos}
use flo_watcher_dpdk.Double.{Arithmetic}
use flo_watcher_dpdk.Pthread.Startup.{enabled}
pub mod Ports
pub mod Rates

-- `struct rte_eth_stats`, as far as it is read
pub record EthStats : Type 0 where
  pub ipackets : ℕ
  pub imissed : ℕ
  pub ierrors : ℕ

-- eth_stats.ipackets + eth_stats.imissed + eth_stats.ierrors
unfoldable pub received : EthStats → ℕ
received e = add64 (add64 e.ipackets e.imissed) e.ierrors

-- for (portid = 0; portid < nb_ports; portid++) if (...) break;
unfoldable pub first_enabled : ℕ → ℕ → ℕ → ℕ
first_enabled mask zero port = port
first_enabled mask (suc rounds) port =
    let further = first_enabled mask rounds (port + 1) in
    if enabled mask port then port else further

-- what `timer_cb` prints; `average` and `std_dev` stand for the lines of the build with IPG
pub record Line (F : Type 0) : Type 0 where
  pub rate : F
  pub total : F
  pub dropped : ℕ
  pub average : Option F
  pub std_dev : Option F

-- whether for (i = 0; i < n; i++) with a `uint8_t i` ends: `i` goes from 255 to 0, and is never `n`
unfoldable pub loop_ends : ℕ → Bool
loop_ends n = ltb n (2 ^ 8)

module _ {F : Type 0} ⦃fp : Arithmetic F⦄ where
  -- for (i = 0; i < n; i++) j += re[i], from `i` on in the rounds that are left; `i` has 8 bits, so
  -- that this is the loop where `loop_ends n`
  unfoldable pub add_counters : Array ℕ → ℕ → ℕ → F → F
  add_counters re zero i j = j
  add_counters re (suc rounds) i j = add_counters re rounds (i + 1) (fp.add j (fp.of_u64 (re i)))

  -- the line of one call, and what `old` is then
  unfoldable pub line : Array ℕ → ℕ → ℕ → Option F → Option F → F → Line F × F
  line re n imissed average std_dev old =
      let j = add_counters re n 0 (fp.of_int (pos 0)) in
      (
        record {
          rate = fp.div (fp.sub j old) (fp.of_int (pos 1000000));
          total = j;
          dropped = imissed;
          average = average;
          std_dev = std_dev;
        },
        j,
      )
