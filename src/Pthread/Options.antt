-- ===== src/Pthread/Options.antt =====
-- The command line of pthread/main.c: `parse_portmask` to `parse_args`. What `getopt_long` finds is a
-- list of options with their arguments; `rte_strsplit` is a parameter.
pub mod Bounds
use flo_watcher_dpdk.Common.{
  ℕ, zero, suc, ◌+◌, ◌-◌, ◌%◌, Bool, true, false, not, ◌&&◌, ◌||◌, Option, none, some, List, [],
  ◌∷◌, ◌++◌, length, ltb, leb, ◌==◌, if◌then◌else◌, u16_mod, u32_mod,
}
use flo_watcher_dpdk.Common.Int.{ℤ, pos, negsuc}
use flo_watcher_dpdk.Common.Text.{to_int, is_nil, strtoul}
use flo_watcher_dpdk.Outcome.{Outcome, ok, failed, ◌>>=◌}
use flo_watcher_dpdk.Pthread.{
  max_lcore_params, max_rx_queue_per_port, max_rx_desc, RxThreadParams, TxThreadParams,
}

unfoldable pub parse_portmask : List ℕ → ℤ
parse_portmask portmask =
    let scan = strtoul 16 portmask in
    if is_nil portmask || not (is_nil scan.rest)
    then negsuc 0
    else if scan.value == 0
    then negsuc 0
    else to_int scan.value

unfoldable pub parse_rx_queue_nb : List ℕ → ℤ
parse_rx_queue_nb rxq =
    let scan = strtoul 10 rxq in
    if is_nil rxq || not (is_nil scan.rest)
    then negsuc 0
    else if scan.value == 0
    then negsuc 0
    else if ltb max_rx_queue_per_port scan.value
    then to_int max_rx_queue_per_port
    else to_int scan.value

unfoldable pub parse_rx_desc_nb : List ℕ → ℤ
parse_rx_desc_nb rxdesc =
    let scan = strtoul 10 rxdesc in
    if is_nil rxdesc || not (is_nil scan.rest)
    then negsuc 0
    else if scan.value == 0
    then negsuc 0
    else if ltb max_rx_desc scan.value
    then to_int max_rx_desc
    else to_int scan.value

unfoldable pub parse_rx_burst_size : List ℕ → ℤ
parse_rx_burst_size burst =
    let scan = strtoul 10 burst in
    if is_nil burst || not (is_nil scan.rest)
    then negsuc 0
    else if scan.value == 0
    then negsuc 0
    else to_int scan.value

-- for (i = 0; i < _NUM_FLD; i++): each field is a number of at most 255, whatever follows it
unfoldable pub parse_fields : List (List ℕ) → Option (List ℕ)
parse_fields [] = some []
parse_fields (field ∷ fields) =
    let scan = strtoul 0 field in
    let further = parse_fields fields in
    if not scan.in_range || not scan.converted || ltb 255 scan.value
    then none
    else elim further [ none ↦ none | some values ↦ some (scan.value ∷ values) ]

-- the entry that four or two fields make
abbrev pub rx_entry : Option (List ℕ) → Option RxThreadParams
rx_entry (some (port ∷ queue ∷ lcore ∷ thread ∷ [])) =
    some (record { port_id = port; queue_id = queue; lcore_id = lcore; thread_id = thread })
rx_entry fields = none

abbrev pub tx_entry : Option (List ℕ) → Option TxThreadParams
tx_entry (some (lcore ∷ thread ∷ [])) = some (record { lcore_id = lcore; thread_id = thread })
tx_entry fields = none

-- `rte_strsplit (s, sizeof (s), tokens, max, ',')`: the tokens that it finds, `max` at most
abbrev pub Strsplit : Type 0
Strsplit = List ℕ → ℕ → List (List ℕ)

module _ (strsplit : Strsplit) where
  -- what stands between a `(` and the next `)`, with `n` entries in the table
  unfoldable pub parse_group :
      {P : Type 0} → ℕ → (Option (List ℕ) → Option P) → ℕ → List ℕ → Option P
  parse_group num_fld entry n s =
      let tokens = strsplit s num_fld in
      if leb 256 (length s) || not (length tokens == num_fld) || leb max_lcore_params n
      then none
      else entry (parse_fields tokens)

  -- The two searches by `strchr`, as one pass: `inside` is what was read since the last `(` that
  -- opened a group, if a group is open.
  unfoldable pub parse_groups :
      {P : Type 0}
      → ℕ
      → (Option (List ℕ) → Option P)
      → Option (List ℕ)
      → List P
      → List ℕ
      → Outcome (List P)
  parse_groups num_fld entry none params [] = ok params
  parse_groups num_fld entry (some s) params [] = failed
  parse_groups num_fld entry none params (c ∷ q_arg) =
      let opened = parse_groups num_fld entry (some []) params q_arg in
      let skipped = parse_groups num_fld entry none params q_arg in
      if c == b'(' then opened else skipped
  parse_groups {P = P} num_fld entry (some s) params (c ∷ q_arg) =
      let longer = parse_groups num_fld entry (some (s ++ c ∷ [])) params q_arg in
      let closed : Outcome (List P) = elim (parse_group num_fld entry (length params) s) [
        | none ↦ failed
        | some p ↦ parse_groups num_fld entry none (params ++ p ∷ []) q_arg
      ] in
      if c == b')' then closed else longer

  unfoldable pub parse_rx_config : List ℕ → Outcome (List RxThreadParams)
  parse_rx_config q_arg = parse_groups 4 rx_entry none [] q_arg

  unfoldable pub parse_tx_config : List ℕ → Outcome (List TxThreadParams)
  parse_tx_config q_arg = parse_groups 2 tx_entry none [] q_arg

-- the options that `getopt_long` knows, and any other
pub data Opt : Type 0 where
  portmask : List ℕ → Opt
  promiscuous : Opt
  nb_rxq : List ℕ → Opt
  nb_rx_desc : List ℕ → Opt
  burst_size : List ℕ → Opt
  rx_conf : List ℕ → Opt
  tx_conf : List ℕ → Opt
  write_file : Opt
  unknown : Opt

-- the global variables that the options set
pub record Config : Type 0 where
  pub enabled_port_mask : ℕ
  pub promiscuous_on : Bool
  pub nb_rxq : ℕ
  pub nb_rx_desc : ℕ
  pub burst_size : ℕ
  pub write_on : Bool
  pub rx_thread_params : List RxThreadParams
  pub tx_thread_params : List TxThreadParams

-- their initial values
abbrev pub default_config : Config
default_config = record {
  enabled_port_mask = 0x8;
  promiscuous_on = true;
  nb_rxq = 2;
  nb_rx_desc = 4096;
  burst_size = 256;
  write_on = false;
  rx_thread_params =
      record { port_id = 3; queue_id = 0; lcore_id = 2; thread_id = 0 }
      ∷ record { port_id = 3; queue_id = 1; lcore_id = 4; thread_id = 1 }
      ∷ [];
  tx_thread_params =
      record { lcore_id = 6; thread_id = 0 } ∷ record { lcore_id = 8; thread_id = 1 } ∷ [];
}

-- the pattern of an `int` in `w` bits, for the assignments to unsigned variables; `m` is 2 ^ w
abbrev pub unsigned : ℕ → ℤ → ℕ
unsigned m (pos n) = n % m
unsigned m (negsuc n) = (m - 1) - n % m

-- if (ret != -1) x = ret;
abbrev pub assign : ℕ → ℤ → ℕ → ℕ
assign m (negsuc zero) x = x
assign m ret x = unsigned m ret

module _ (strsplit : Strsplit) where
  -- one round of the loop of `parse_args`
  unfoldable pub apply_option : Opt → Config → Outcome Config
  apply_option (portmask optarg) cfg =
      let mask = unsigned u32_mod (parse_portmask optarg) in
      if mask == 0 then failed else ok (record cfg { enabled_port_mask = mask })
  apply_option promiscuous cfg = ok (record cfg { promiscuous_on = true })
  apply_option (nb_rxq optarg) cfg =
      ok (record cfg { nb_rxq = assign 256 (parse_rx_queue_nb optarg) cfg.nb_rxq })
  apply_option (nb_rx_desc optarg) cfg =
      ok (record cfg { nb_rx_desc = assign u16_mod (parse_rx_desc_nb optarg) cfg.nb_rx_desc })
  apply_option (burst_size optarg) cfg =
      ok (record cfg { burst_size = assign u16_mod (parse_rx_burst_size optarg) cfg.burst_size })
  apply_option (rx_conf optarg) cfg =
      parse_rx_config strsplit optarg >>= (λ ps. ok (record cfg { rx_thread_params = ps }))
  apply_option (tx_conf optarg) cfg =
      parse_tx_config strsplit optarg >>= (λ ps. ok (record cfg { tx_thread_params = ps }))
  apply_option write_file cfg = ok (record cfg { write_on = true })
  apply_option unknown cfg = failed

  unfoldable pub parse_args : List Opt → Config → Outcome Config
  parse_args [] cfg = ok cfg
  parse_args (opt ∷ opts) cfg = apply_option opt cfg >>= (λ cfg'. parse_args opts cfg')
