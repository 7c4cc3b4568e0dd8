-- ===== src/Lthread/Queues.antt =====
-- `check_lcore_params` and `get_port_n_rx_queues` of lthread/main.c.
use flo_watcher_dpdk.Common.{
  ℕ, ◌+◌, ◌%◌, ◌≤◌, ◌<◌, ◌≡◌, Bool, true, List, [], ◌∷◌, arith, All, ltb, ◌==◌, ◌&&◌, if◌then◌else◌,
}
use flo_watcher_dpdk.Outcome.{ok}
use flo_watcher_dpdk.Pthread.{RxThreadParams}
use flo_watcher_dpdk.Lthread.{
  max_rx_queue_per_port, check_lcore_params, next_queue, get_port_n_rx_queues,
}

-- a parameter that passes the checks
abbrev pub Checked : (ℕ → Bool) → RxThreadParams → Type 0
Checked is_enabled p = (p.queue_id < max_rx_queue_per_port) × (is_enabled p.lcore_id ≡ true)

check_lcore_params-Checked :
    (is_enabled : ℕ → Bool) (ps : List RxThreadParams)
    → check_lcore_params is_enabled ps ≡ ok tt
    → All (Checked is_enabled) ps
unfolding check_lcore_params
check_lcore_params-Checked is_enabled [] e = tt
check_lcore_params-Checked is_enabled (p ∷ ps) e =
    ground (arith, check_lcore_params-Checked is_enabled ps)

-- the queues of a port are below the number of its queues
abbrev pub Below : ℕ → ℕ → RxThreadParams → Type 0
Below port n p = p.port_id ≡ port → p.queue_id < n

next_queue-Below :
    (port : ℕ) (ps : List RxThreadParams) (next bound : ℕ)
    → All (λ p. p.queue_id < bound) ps
    → next ≤ bound
    → let n = next_queue port ps next in (next ≤ n) × (n ≤ bound) × All (Below port n) ps
unfolding next_queue
next_queue-Below port [] next bound h k = (omega arith, k, tt)
next_queue-Below port (p ∷ ps) next bound h k =
    let next' = if (p.port_id == port) && ltb next (p.queue_id + 1) then p.queue_id + 1 else next in
    let grows : next ≤ next' = ground arith in
    let within : next' ≤ bound = ground (arith, h.0) in
    let own : p.port_id ≡ port → p.queue_id < next' = λ e. ground arith in
    let (lower, upper, rest) = next_queue-Below port ps next' bound h.1 within in
    (omega arith, upper, (λ e. omega (arith, own e), rest))

-- Where the thread parameters pass check_lcore_params, a port is configured with a number of queues
-- that is at most 128 and greater than every queue that the parameters name for it: the conversion
-- to `uint8_t` loses nothing.
pub get_port_n_rx_queues-Below :
    (is_enabled : ℕ → Bool) (port : ℕ) (params : List RxThreadParams)
    → check_lcore_params is_enabled params ≡ ok tt
    → let n = get_port_n_rx_queues port params in
      (n ≤ max_rx_queue_per_port) × All (Below port n) params
unfolding get_port_n_rx_queues
get_port_n_rx_queues-Below is_enabled port params e =
    let checked = check_lcore_params-Checked is_enabled params e in
    let (_, upper, below) =
      next_queue-Below port params 0 max_rx_queue_per_port (All-map params checked) (omega arith) in
    let whole : next_queue port params 0 % 256 ≡ next_queue port params 0 = omega arith in
    rw whole (upper, below)
  where
    All-map :
        (ps : List RxThreadParams)
        → All (Checked is_enabled) ps
        → All (λ p. p.queue_id < max_rx_queue_per_port) ps
    All-map [] h = tt
    All-map (p ∷ ps) h = (h.0.0, All-map ps h.1)
