-- ===== src/Tests/Tools.antt =====
-- The theorems about hardware/main.c and toeplitz/main.c at a few packets and numbers.
use flo_watcher_dpdk.Common.{ℕ, ◌+◌, ◌*◌, ◌≡◌}
use flo_watcher_dpdk.Toeplitz
use flo_watcher_dpdk.Toeplitz.{add, xor, rand_loads, lcore_hello, round, odd}
use flo_watcher_dpdk.Toeplitz.Loads.{lcore_hello-add_xor}

abbrev zeros : Toeplitz.State
zeros = record {
  tuple = record { proto = 0; src_addr = 0; dst_addr = 0; sport = 0; dport = 0 };
  ib0 = 0;
  ib1 = 0;
  ctr = 0;
  calls = 0;
}

-- some numbers to draw
abbrev rand : ℕ → ℕ
rand n = n * n + n * 3 + n * n * n * n * n

lcore_hello-add_xor_example :
    lcore_hello rand rand_loads add 3 zeros ≡ lcore_hello rand rand_loads xor 3 zeros
lcore_hello-add_xor_example = lcore_hello-add_xor rand rand_loads 3 zeros
