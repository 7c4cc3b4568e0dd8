-- ===== src/Pthread/HashList/System.antt =====
-- A session of pthread/main.c in the HASH_LIST build: `main` sets the threads and the table up, all
-- threads run, and `handler` adds the table up.
use flo_watcher_dpdk.Pthread.Chains.System.Silent.{Silent}
use flo_watcher_dpdk.Pthread.Startup.Wired.{Wired}
use flo_watcher_dpdk.Ring.{Ring}
