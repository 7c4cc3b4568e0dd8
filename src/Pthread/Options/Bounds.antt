-- ===== src/Pthread/Options/Bounds.antt =====
-- The ranges of what the command line of pthread/main.c sets.
use native.Mathlib.Nat.{mod-eq_of_lt}
use flo_watcher_dpdk.Common.{
  ℕ, ◌≤◌, ◌<◌, ◌≡◌, refl, ◌≢◌, ◌⊎◌, inl, inr, not, ◌||◌, Option, none, some, List, [], ◌∷◌, ◌++◌,
  length, length-append, All, arith, ltb, leb, ◌==◌, if◌then◌else◌, Bool-cases, Option-cases,
  u16_mod, u32_mod, u64_mod,
}
use flo_watcher_dpdk.Common.Int.{ℤ, pos, negsuc}
use flo_watcher_dpdk.Common.Text.{to_int, is_nil, strtoul, numeral, decimal_from, strtoul-numeral}
use flo_watcher_dpdk.Outcome.{ok, Ensures, bind-Ensures}
use flo_watcher_dpdk.Pthread.{
  max_lcore_params, max_rx_queue_per_port, max_rx_desc, RxThreadParams, TxThreadParams,
}
use flo_watcher_dpdk.Pthread.Options.{
  parse_portmask, parse_rx_queue_nb, parse_rx_desc_nb, parse_fields, rx_entry, tx_entry, Strsplit,
  parse_group, parse_groups, parse_rx_config, parse_tx_config, Opt, portmask, promiscuous, nb_rxq,
  nb_rx_desc, burst_size, rx_conf, tx_conf, write_file, unknown, Config, unsigned, assign,
  apply_option, parse_args,
}

-- -1, or a number from 1 to `bound`
abbrev pub RefusedOrWithin : ℕ → ℤ → Type 0
RefusedOrWithin bound z = (z ≡ negsuc 0) ⊎ ((n : ℕ) × (z ≡ pos n) × (1 ≤ n) × (n ≤ bound))

-- what a byte holds
abbrev pub RxInRange : RxThreadParams → Type 0
RxInRange p = (p.port_id ≤ 255) × (p.queue_id ≤ 255) × (p.lcore_id ≤ 255) × (p.thread_id ≤ 255)

abbrev pub TxInRange : TxThreadParams → Type 0
TxInRange p = (p.lcore_id ≤ 255) × (p.thread_id ≤ 255)

to_int-small : (n : ℕ) → n < 2147483648 → to_int n ≡ pos n
to_int-small n h = ground arith

capped-within :
    (bound v : ℕ)
    → 1 ≤ bound
    → bound < 2147483648
    → v ≢ 0
    → RefusedOrWithin bound (if ltb bound v then to_int bound else to_int v)
capped-within bound v one small nz = elim (Bool-cases (ltb bound v)) [
  | inl more ↦ rw more (inr (bound, to_int-small bound small, one, omega arith))
  | inr within ↦ rw within (inr (v, to_int-small v (ground arith), ground arith, ground arith))
]

-- `parse_rx_queue_nb` and `parse_rx_desc_nb` return -1 or a number from 1 to 128 and to 4096.
parse_bounds :
    (s : List ℕ)
    → RefusedOrWithin max_rx_queue_per_port (parse_rx_queue_nb s)
      × RefusedOrWithin max_rx_desc (parse_rx_desc_nb s)
unfolding parse_rx_queue_nb parse_rx_desc_nb
parse_bounds s =
    let scan = strtoul 10 s in
    elim (Bool-cases (is_nil s || not (is_nil scan.rest))) [
      | inl bad ↦ rw bad (inl refl, inl refl)
      | inr good ↦ elim (Bool-cases (scan.value == 0)) [
        | inl null ↦ rw (good, null) (inl refl, inl refl)
        | inr given ↦
            rw (good, given)
              (
                capped-within 128 scan.value (omega arith) (omega arith) (ground arith),
                capped-within 4096 scan.value (omega arith) (omega arith) (ground arith),
              )
      ]
    ]

-- A decimal numeral below 2 ^ 64 is read as its value: 0 is refused, and 128 taken for what is more.
pub parse_rx_queue_nb-numeral :
    (d : ℕ) (ds : List ℕ)
    → All (λ d. d < 10) (d ∷ ds)
    → decimal_from 0 (d ∷ ds) < u64_mod
    → let n = decimal_from 0 (d ∷ ds) in
      parse_rx_queue_nb (numeral (d ∷ ds))
      ≡ (if n == 0 then negsuc 0 else if ltb 128 n then pos 128 else pos n)
unfolding parse_rx_queue_nb
parse_rx_queue_nb-numeral d ds h small =
    let n = decimal_from 0 (d ∷ ds) in
    let read = strtoul-numeral d ds h small in rw read (ground (arith, to_int-small n))

-- a table of at most MAX_LCORE_PARAMS entries with `Q`
abbrev pub Table : {P : Type 0} → (P → Type 0) → List P → Type 0
Table Q ps = (length ps ≤ max_lcore_params) × All Q ps

-- what `parse_args` leaves in the global variables is in range
abbrev pub IsValid : Config → Type 0
IsValid cfg =
    (cfg.enabled_port_mask ≢ 0)
    × ((1 ≤ cfg.nb_rxq) × (cfg.nb_rxq ≤ max_rx_queue_per_port))
    × ((1 ≤ cfg.nb_rx_desc) × (cfg.nb_rx_desc ≤ max_rx_desc))
    × Table RxInRange cfg.rx_thread_params
    × Table TxInRange cfg.tx_thread_params

assign-within :
    (m bound x : ℕ) (z : ℤ)
    → bound < m
    → RefusedOrWithin bound z
    → (1 ≤ x) × (x ≤ bound)
    → (1 ≤ assign m z x) × (assign m z x ≤ bound)
assign-within m bound x z h (inl e) k = rw e k
assign-within m bound x z h (inr (n, e, one, le)) k =
    rw (e, mod-eq_of_lt {n = n} {m = m} (omega arith)) (one, le)

abbrev pub Bytes : List ℕ → Type 0
Bytes = All (λ n. n ≤ 255)

abbrev pub Each : {A : Type 0} → (A → Type 0) → Option A → Type 0
Each P none = Unit
Each P (some a) = P a

parse_fields-Bytes : (fields : List (List ℕ)) → Each Bytes (parse_fields fields)
unfolding parse_fields
parse_fields-Bytes [] = tt
parse_fields-Bytes (field ∷ fields) =
    let scan = strtoul 0 field in
    let ih = parse_fields-Bytes fields in
    elim (Bool-cases (not scan.in_range || not scan.converted || ltb 255 scan.value)) [
      | inl bad ↦ rw bad tt
      | inr good ↦
          let small : scan.value ≤ 255 = ground arith in
          elim (Option-cases (parse_fields fields)) [
            | inl e ↦ rw (good, e) tt
            | inr (values, e) ↦ rw (good, e) (small, rw e at ih)
          ]
    ]

pub rx_entry-range : (o : Option (List ℕ)) → Each Bytes o → Each RxInRange (rx_entry o)
rx_entry-range none b = tt
rx_entry-range (some []) b = tt
rx_entry-range (some (p ∷ [])) b = tt
rx_entry-range (some (p ∷ q ∷ [])) b = tt
rx_entry-range (some (p ∷ q ∷ l ∷ [])) b = tt
rx_entry-range (some (p ∷ q ∷ l ∷ t ∷ [])) b = (b.0, b.1.0, b.1.1.0, b.1.1.1.0)
rx_entry-range (some (p ∷ q ∷ l ∷ t ∷ x ∷ xs)) b = tt

pub tx_entry-range : (o : Option (List ℕ)) → Each Bytes o → Each TxInRange (tx_entry o)
tx_entry-range none b = tt
tx_entry-range (some []) b = tt
tx_entry-range (some (l ∷ [])) b = tt
tx_entry-range (some (l ∷ t ∷ [])) b = (b.0, b.1.0)
tx_entry-range (some (l ∷ t ∷ x ∷ xs)) b = tt

All-snoc :
    {P : Type 0} (Q : P → Type 0) (ps : List P) (p : P) → All Q ps → Q p → All Q (ps ++ p ∷ [])
All-snoc Q [] p h q = (q, tt)
All-snoc Q (x ∷ ps) p h q = (h.0, All-snoc Q ps p h.1 q)

module _ (strsplit : Strsplit) where
  module _ {P : Type 0} (Q : P → Type 0) (num_fld : ℕ) (entry : Option (List ℕ) → Option P)
      (range : (o : Option (List ℕ)) → Each Bytes o → Each Q (entry o)) where
    parse_group-range :
        (n : ℕ) (s : List ℕ)
        → Each (λ p. (n < max_lcore_params) × Q p) (parse_group strsplit num_fld entry n s)
    unfolding parse_group
    parse_group-range n s =
        let tokens = strsplit s num_fld in
        let in_range = range (parse_fields tokens) (parse_fields-Bytes tokens) in
        elim (Bool-cases
          (leb 256 (length s) || not (length tokens == num_fld) || leb max_lcore_params n)) [
            | inl bad ↦ rw bad tt
            | inr good ↦
                let room : n < max_lcore_params = ground arith in
                elim (Option-cases (entry (parse_fields tokens))) [
                  | inl e ↦ rw (good, e) tt
                  | inr (p, e) ↦ rw (good, e) (room, rw e at in_range)
                ]
          ]

    pub parse_groups-Table :
        (group : Option (List ℕ)) (ps : List P) (q_arg : List ℕ)
        → Table Q ps
        → Ensures (Table Q) (parse_groups strsplit num_fld entry group ps q_arg)
    unfolding parse_groups
    parse_groups-Table none ps [] t = t
    parse_groups-Table (some s) ps [] t = tt
    parse_groups-Table none ps (c ∷ q_arg) t = elim (Bool-cases (c == b'(')) [
      | inl opens ↦ rw opens (parse_groups-Table (some []) ps q_arg t)
      | inr other ↦ rw other (parse_groups-Table none ps q_arg t)
    ]
    parse_groups-Table (some s) ps (c ∷ q_arg) t = elim (Bool-cases (c == b')')) [
      | inr other ↦ rw other (parse_groups-Table (some (s ++ c ∷ [])) ps q_arg t)
      | inl closes ↦
          let group = parse_group-range (length ps) s in
          elim (Option-cases (parse_group strsplit num_fld entry (length ps) s)) [
            | inl e ↦ rw (closes, e) tt
            | inr (p, e) ↦
                let (room, q) = rw e at group in
                rw (closes, e)
                  (parse_groups-Table none (ps ++ p ∷ []) q_arg
                    (omega (arith, length-append ps (p ∷ [])), All-snoc Q ps p t.1 q))
          ]
    ]

  apply_option-IsValid :
      (opt : Opt) (cfg : Config) → IsValid cfg → Ensures IsValid (apply_option strsplit opt cfg)
  unfolding apply_option parse_rx_config parse_tx_config
  apply_option-IsValid (portmask optarg) cfg (m, q, d, r, t) =
      elim (Bool-cases (unsigned u32_mod (parse_portmask optarg) == 0)) [
        | inl null ↦ rw null tt
        | inr given ↦ rw given (ground arith, q, d, r, t)
      ]
  apply_option-IsValid promiscuous cfg v = v
  apply_option-IsValid (nb_rxq optarg) cfg (m, q, d, r, t) =
      (m, assign-within 256 128 cfg.nb_rxq _ (omega arith) (parse_bounds optarg).0 q, d, r, t)
  apply_option-IsValid (nb_rx_desc optarg) cfg (m, q, d, r, t) = (
    m,
    q,
    assign-within u16_mod 4096 cfg.nb_rx_desc _ (omega arith) (parse_bounds optarg).1 d,
    r,
    t,
  )
  apply_option-IsValid (burst_size optarg) cfg v = v
  apply_option-IsValid (rx_conf optarg) cfg (m, q, d, r, t) =
      bind-Ensures {A = List RxThreadParams} {B = Config} (Table RxInRange) IsValid
        (parse_groups strsplit 4 rx_entry none [] optarg) _
        (parse_groups-Table RxInRange 4 rx_entry rx_entry-range none [] optarg (omega arith, tt))
        (λ ps k. (m, q, d, k, t))
  apply_option-IsValid (tx_conf optarg) cfg (m, q, d, r, t) =
      bind-Ensures {A = List TxThreadParams} {B = Config} (Table TxInRange) IsValid
        (parse_groups strsplit 2 tx_entry none [] optarg) _
        (parse_groups-Table TxInRange 2 tx_entry tx_entry-range none [] optarg (omega arith, tt))
        (λ ps k. (m, q, d, r, k))
  apply_option-IsValid write_file cfg v = v
  apply_option-IsValid unknown cfg v = tt

  -- Whatever the options are: if `parse_args` accepts them, the port mask is not 0, there are 1 to
  -- 128 queues and 1 to 4096 descriptors, and the tables have at most 1024 entries, whose fields are
  -- at most 255, given that this holds of the configuration before.
  pub parse_args-IsValid :
      (opts : List Opt) (cfg : Config)
      → IsValid cfg
      → Ensures IsValid (parse_args strsplit opts cfg)
  unfolding parse_args
  parse_args-IsValid [] cfg v = v
  parse_args-IsValid (opt ∷ opts) cfg v =
      bind-Ensures {A = Config} {B = Config} IsValid IsValid (apply_option strsplit opt cfg)
        (λ cfg'. parse_args strsplit opts cfg') (apply_option-IsValid opt cfg v)
        (λ cfg' v'. parse_args-IsValid opts cfg' v')

  -- A port mask that is no hexadecimal number is not refused: it enables every port.
  portmask-enables_all :
      (optarg : List ℕ) (cfg : Config)
      → parse_portmask optarg ≡ negsuc 0
      → apply_option strsplit (portmask optarg) cfg
        ≡ ok (record cfg { enabled_port_mask = 0xffffffff })
  unfolding apply_option
  portmask-enables_all optarg cfg e = rw e refl
