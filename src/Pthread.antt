-- ===== src/Pthread.antt =====
-- pthread/main.c and init.h: receive threads put the packets of a queue into rings, and counting
-- threads take them out and keep the flow table.
use flo_watcher_dpdk.Common.{ℕ}
pub mod Chains
pub mod DoubleHash
pub mod HashList
pub mod LinkedList
pub mod Masks
pub mod Options
pub mod Pipeline
pub mod Report
pub mod Startup
pub mod System
pub mod Threads

-- `FLOW_NUM`, `MAX_LCORE_PARAMS`, `MAX_RX_QUEUE_PER_PORT`, `MAX_RX_DESC`, `MAX_RX_QUEUE_PER_LCORE`
abbrev pub flow_num : ℕ
flow_num = 65536

abbrev pub max_lcore_params : ℕ
max_lcore_params = 1024

abbrev pub max_rx_queue_per_port : ℕ
max_rx_queue_per_port = 128

abbrev pub max_rx_desc : ℕ
max_rx_desc = 4096

abbrev pub max_rx_queue_per_lcore : ℕ
max_rx_queue_per_lcore = 16

-- `struct rx_thread_params` and `struct tx_thread_params`
pub record RxThreadParams : Type 0 where
  pub port_id : ℕ
  pub queue_id : ℕ
  pub lcore_id : ℕ
  pub thread_id : ℕ

pub record TxThreadParams : Type 0 where
  pub lcore_id : ℕ
  pub thread_id : ℕ
