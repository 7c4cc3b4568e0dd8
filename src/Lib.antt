-- ===== src/Lib.antt =====
-- FloWatcher-DPDK counts packets and flows on a software router port. Programs built on DPDK
-- receive bursts of packets, look each packet up in a flow table by its RSS hash, and print a
-- report on SIGINT. This library models three of its programs and two tools. In run_to_completion
-- (run_to_completion/main.c and main.h) one lcore per RX queue polls the NIC and counts in the
-- table itself; all three builds are modelled. In pthread (pthread/main.c and init.h) receive
-- threads put the packets into rings and counting threads take them out; all three builds are
-- modelled, with the command line and the set-up of threads and rings. In lthread (lthread/main.c)
-- the threads are lightweight and a counting thread sleeps on a condition variable until enough
-- packets are in its ring; command line, start-up, both kinds of threads and the report are modelled.
-- The tool hardware (hardware/main.c) measures the access to packet headers, and toeplitz
-- (toeplitz/main.c and main.h) compares hashes.
--
-- Files
-- Common: names that all modules share; Common/Words the machine words (`uint32_t` and `uint64_t`
--   are natural numbers with their wrap-around), Common/Int the `int`, Common/History what a list of
--   packets of a bucket is counted by.
-- Double: `double` and `float` as an interface without laws. A theorem about counters or marker
--   positions therefore holds whatever the floating-point unit does. Statistics/Rates states what
--   IEEE 754 says of whole numbers below 2 ^ 53.
-- Dpdk: a packet buffer, as the address that is freed and the 32-bit RSS hash.
-- Outcome: how a piece of code ends (a value, an error code, `rte_exit`, undefined behaviour) and
--   `rte_calloc` as a parameter: the n-th call succeeds or not.
-- Tally: the abstract specification of a chain of flow entries, with Tally/Filled for a reader that
--   stops at the first entry without packets; Buckets, Buckets/Partition: tables
--   of 65536 buckets that refine tallies.
-- RunToCompletion: build macros (`Build` stands for FLOW_LEVEL, IPG and QUANTILE, which the
--   preprocessor fixes), the hash split, the global counter. RunToCompletion/Arrivals: the packets of
--   a run by bucket.
-- RunToCompletion/DoubleHash: `double_hash`, its part of `port_init` and of `handler`.
--   RunToCompletion/LinkedList: `flow_struct_init`, `linked_list`, report. RunToCompletion/HashList:
--   `hash_list`, initialisation, report. RunToCompletion/Quantile: `get_qt`, `insertSort`, `init`.
--   RunToCompletion/Startup: `port_init` and `main` up to the launch of the loops.
--   RunToCompletion/Report: `handler`. RunToCompletion/Timer: `timer_cb`, and its calls during a run of the DOUBLE_HASH loop.
-- Statistics: what the timers and handlers of the three programs share: the port, the device
--   statistics, the line of a timer. Statistics/Ports: which port that is.
-- Slots, Slots/Used: the abstract specification of a bucket with two counted flows and 64-bit counters.
-- Pthread: constants and thread parameters. Pthread/Options: `parse_portmask` to `parse_args`;
--   Common/Text has `strtoul`. Pthread/Threads: `init_rx_queues`, `init_tx_threads`, `init_rx_rings`.
--   Pthread/Startup: `main` and `pthread_run`. Pthread/Masks: the hash split. Pthread/DoubleHash: one
--   packet, initialisation, flow count. Ring: the DPDK ring as an interface with the laws that
--   its documentation states. Pthread/Pipeline: `lcore_main_rx` and
--   `lcore_main_count_double_hash` as steps on a state; a run is any sequence of steps of the two.
-- Pthread/System: all threads of the DOUBLE_HASH build together: a state with all rings, and the next
--   round of whichever lcore, as `pthread_run` assigns it, as the step; System/Quiet has the rings that
--   stay empty, System/Rates the calls of `timer_cb`, System/Leaks what full rings lose. Pthread/Startup/Wired: the rings that `main` has
--   set up. Pthread/Report: `timer_cb` and `handler`.
-- Pthread/Chains: the loop that `lcore_main_count_linked_list` and `lcore_main_count_hash_list` share,
--   with the code of one packet as a parameter; Chains/System has all threads of the two builds, as
--   Pthread/System has those of DOUBLE_HASH. Pthread/LinkedList: `flow_struct_init`, one packet,
--   the count of `handler`. Pthread/HashList: initialisation, one packet, the sum of `handler`; the hash
--   that `rte_softrss_be` computes is a parameter.
-- Lthread: `check_lcore_params`, `get_port_n_rx_queues`, with Lthread/Queues. Lthread/Options:
--   `parse_portmask` to `parse_args`. Lthread/Threads: `init_rx_queues`, `init_tx_threads`,
--   `init_rx_rings`; its condition variables are numbered like the rings of a receive thread.
--   Lthread/Startup: `init_mem1` and `main`. Lthread/Spawn: `lthread_spawner` and the start of its
--   threads as a step relation. Lthread/Receive: `lthread_rx` of one thread, with its buffers and the
--   order of its rings. Lthread/DoubleHash: one packet, initialisation, report; the quantiles are
--   RunToCompletion/Quantile, whose code lthread repeats. Lthread/Pipeline: `lthread_rx` and
--   `lthread_tx_per_ring` of all threads as steps on one state; the condition variables are an
--   interface with the laws that the lthread library documents. Lthread/Report: `timer_cb` and `handler`.
-- Hardware: `lcore_main`, with what it adds up in Hardware/Totals. Toeplitz: `lcore_hello`, with its
--   loads in Toeplitz/Loads.
-- Tests: concrete packets and arithmetic, and the theorems at them.
--
-- How code corresponds to definitions: an endless receive loop is a function on the list of bursts
-- that arrive up to some moment, so that a theorem about all lists is one about every moment at which
-- `handler` may look, between bursts. What `rte_eth_rx_burst` delivers is an argument. A table is a
-- function from the index; the arrays of a C structure are written out as fields. A chain is reached
-- from its bucket alone and is the list of its entries. No recursion needs fuel: a loop is by
-- recursion on its list or on the number of its rounds. In lthread one step is the work of a thread on
-- one burst, or its wait; a counting thread that found its ring empty may be overtaken before it
-- waits. In pthread one step is one round of the endless loop of a thread. `timer_cb` and `handler` look
-- between steps. An array of counters is a function here, and its length stands apart: a counting thread
-- of pthread that accesses `gCtr` beyond `room` entries faults where the threads are put together
-- (Pthread/System), and `main` asks for none, `allocated`; `re` and `batch_n` of lthread have RX_RINGS places,
-- for which a theorem asks that depends on them. An `int` that would overflow is undefined in the source:
-- `ring_loss`, `batch_n` and the marker positions go round here, below the bounds that the theorems state.
--
-- Not modelled: the printing itself, the settings passed to DPDK, SCHED_DEADLINE set-up, the curses
-- output of lthread (NC), reading of a table by `handler` or `timer_cb` in the middle of a burst, two
-- threads that change one bucket at the same time (RX_RINGS is 1 in run_to_completion; in pthread and
-- lthread the bursts of the counting threads follow one another), the schedulers of the lthread library,
-- the check of
-- calls by the compiler (the LINKED_LIST and HASH_LIST builds of pthread call `rte_ring_dequeue_burst` with
-- three arguments, which is read as the form with four), the packet headers of which pthread computes
-- its HASH_LIST hash, the vendored hashes murmur3 and
-- spooky, the time that toeplitz measures, the traffic scripts.
pub mod Common
pub mod Double
pub mod Dpdk
pub mod Tally
pub mod Outcome
pub mod Buckets
pub mod Hardware
pub mod Lthread
pub mod Ring
pub mod RunToCompletion
pub mod Pthread
pub mod Slots
pub mod Statistics
pub mod Tests
pub mod Toeplitz
