-- ===== src/Pthread/HashList/Exact.antt =====
-- The HASH_LIST build of pthread/main.c against its specification: the two slots of a bucket and its
-- chain, seen together as a tally under counters of 64 bits.
use flo_watcher_dpdk.Common.{
  ℕ, zero, suc, ◌+◌, ◌<◌, ◌≡◌, refl, ap, sym, ◌∙◌, ◌≢◌, ◌⊎◌, inl, inr, not, ◌&&◌, Bool, true, false,
  List, [], ◌∷◌, arith, u64_mod, update, ◌==◌, Bool-cases, add64,
}
use flo_watcher_dpdk.Buckets
use flo_watcher_dpdk.Double.{Arithmetic}
use flo_watcher_dpdk.Dpdk.{Mbuf}
use flo_watcher_dpdk.Outcome.{ok, Calloc, Ends, bind-Ends}
use flo_watcher_dpdk.Pthread.{flow_num}
use flo_watcher_dpdk.Pthread.HashList.{
  FlowEntry, PktCount, Table, cleared, reset, extend, init_chain, init_table, walk, packet,
  count_packet,
}
use flo_watcher_dpdk.Pthread.Pipeline.{Setting}
use flo_watcher_dpdk.RunToCompletion.{index_low, index_high}
use flo_watcher_dpdk.RunToCompletion.Arrivals.{index_low-lt}
use flo_watcher_dpdk.Tally.{Tally, bump, bump-ne_nil, zeros}

-- what a chain and a bucket count
unfoldable pub view_chain : {F : Type 0} → List (FlowEntry F) → Tally
view_chain [] = []
view_chain (f ∷ rest) = (f.rss_high, f.ctr) ∷ view_chain rest

unfoldable pub view : {F : Type 0} → PktCount F → Tally
view c = (c.hi_f1, c.ctr0) ∷ (c.hi_f2, c.ctr1) ∷ view_chain c.flows

-- the chain of a bucket has an entry
abbrev pub Chained : {F : Type 0} → PktCount F → Type 0
Chained c = view_chain c.flows ≢ []

-- what the initialisation makes of a bucket: two free slots and a free entry
abbrev pub start : Tally
start = zeros 3

module _ {F : Type 0} ⦃fp : Arithmetic F⦄ (calloc : Calloc) where
  walk-bump :
      (ipg : Bool) (global h : ℕ) (seen : Bool) (calls : ℕ) (c : List (FlowEntry F))
      → ((seen ≡ true) ⊎ (view_chain c ≢ []))
      → Ends calloc
          (λ r. view_chain r.0 ≡ bump u64_mod h (view_chain c))
          (walk calloc ipg global h seen calls c)
  unfolding walk view_chain bump
  walk-bump ipg global h seen calls [] (inr e) = absurd (e refl)
  walk-bump ipg global h seen calls [] (inl s) = elim (Bool-cases (calloc calls)) [
    | inl given ↦ rw (given, s) refl
    | inr refused ↦ rw refused (calls, refused)
  ]
  walk-bump ipg global h seen calls (f ∷ rest) s = elim (Bool-cases (f.rss_high == h)) [
    | inl own ↦ let e : f.rss_high ≡ h = ground arith in rw own (rw e (ground arith))
    | inr other ↦ elim (Bool-cases (f.rss_high == 0)) [
      | inl free ↦ rw (other, free) refl
      | inr taken ↦
          rw (taken, other)
            (bind-Ends {A = List (FlowEntry F) × ℕ} {B = List (FlowEntry F) × ℕ} calloc
              (λ r. view_chain r.0 ≡ bump u64_mod h (view_chain rest))
              (λ r. view_chain r.0 ≡ (f.rss_high, f.ctr) ∷ bump u64_mod h (view_chain rest))
              (walk calloc ipg global h true calls rest) (λ r. ok (f ∷ r.0, r.1))
              (walk-bump ipg global h true calls rest (inl refl))
              (λ r e. ap (λ t. (f.rss_high, f.ctr) ∷ t) e))
    ]
  ]

  -- the code of one packet counts it, or ends the program
  packet-bump :
      (ipg : Bool) (global h calls : ℕ) (c : PktCount F)
      → Chained c
      → Ends calloc
          (λ r. (view r.0 ≡ bump u64_mod h (view c)) × Chained r.0)
          (packet calloc ipg global h calls c)
  unfolding packet view bump
  packet-bump ipg global h calls c some = elim (Bool-cases (c.hi_f1 == 0)) [
    | inl free ↦ rw free (refl, some)
    | inr taken ↦ elim (Bool-cases (c.hi_f1 == h)) [
      | inl own ↦
          let e : c.hi_f1 ≡ h = ground arith in
          let apart : ((c.hi_f2 == 0) && not (c.hi_f1 == h)) ≡ false = ground arith in
          rw (taken, apart, own)
            (ap (λ k. (k, add64 c.ctr0 1) ∷ (c.hi_f2, c.ctr1) ∷ view_chain c.flows) e, some)
      | inr other ↦ elim (Bool-cases (c.hi_f2 == 0)) [
        | inl free ↦ rw (taken, other, free) (refl, some)
        | inr full ↦ elim (Bool-cases (c.hi_f2 == h)) [
          | inl second ↦
              let e : c.hi_f2 ≡ h = ground arith in
              rw (taken, other, full, second)
                (ap (λ k. (c.hi_f1, c.ctr0) ∷ (k, add64 c.ctr1 1) ∷ view_chain c.flows) e, some)
          | inr neither ↦
              rw (taken, other, full, neither)
                (bind-Ends {A = List (FlowEntry F) × ℕ} {B = PktCount F × ℕ} calloc
                  (λ r. view_chain r.0 ≡ bump u64_mod h (view_chain c.flows)) _
                  (walk calloc ipg global h false calls c.flows)
                  (λ r. ok (record c { flows = r.0 }, r.1))
                  (walk-bump ipg global h false calls c.flows (inr some))
                  (λ r e. (
                    ap (λ t. (c.hi_f1, c.ctr0) ∷ (c.hi_f2, c.ctr1) ∷ t) e,
                    rw e (bump-ne_nil u64_mod h (view_chain c.flows)),
                  )))
        ]
      ]
    ]
  ]

-- every bucket holds the tally of its part of the history
abbrev pub Tallied : {F : Type 0} → List ℕ → Table F → Type 0
Tallied rs t = Buckets.Tallied view Chained index_low index_high flow_num u64_mod start rs t.0

module _ {F : Type 0} ⦃fp : Arithmetic F⦄ (calloc : Calloc) (softrss : Mbuf → ℕ) (k : Setting) where
  pub count_packet-Tallied :
      (global : ℕ) (rs : List ℕ) (m : Mbuf) (s : Table F)
      → Tallied rs s
      → Ends calloc (λ r. Tallied (softrss m ∷ rs) r) (count_packet calloc softrss k global m s)
  unfolding count_packet
  count_packet-Tallied global rs m s tallied =
      let r = softrss m in
      let l = index_low r in
      let h = index_high r in
      bind-Ends {A = PktCount F × ℕ} {B = Table F} calloc
        (λ p. (view p.0 ≡ bump u64_mod h (view (s.0 l))) × Chained p.0) (λ p. Tallied (r ∷ rs) p)
        (packet calloc k.ipg global h s.1 (s.0 l)) (λ p. ok (update s.0 l p.0, p.1))
        (packet-bump calloc k.ipg global h s.1 (s.0 l) (tallied l (index_low-lt r)).1)
        (λ p e.
          Buckets.update-Tallied view Chained index_low index_high flow_num u64_mod start r rs s.0
            p.0 (index_low-lt r) tallied e.0 e.1)

pub start-Chained : {F : Type 0} (c : PktCount F) → view c ≡ start → Chained c
unfolding view zeros
start-Chained c e none =
    let one : view_chain c.flows ≡ (0, 0) ∷ [] = cc in cons-ne_nil (sym one ∙ none)
  where
    cons-ne_nil : {x : ℕ × ℕ} {t : Tally} → x ∷ t ≢ []
    cons-ne_nil e = cc

module _ {F : Type 0} ⦃fp : Arithmetic F⦄ (calloc : Calloc)
    (given : (n : ℕ) → calloc n ≡ true) where
  reset-start :
      (ipg : Bool) (c : PktCount F) → view (record (reset ipg c) { flows = cleared ∷ [] }) ≡ start
  unfolding reset view view_chain cleared zeros
  reset-start ipg c = elim (Bool-cases ipg) [ inl on ↦ simp on | inr off ↦ simp off ]

  -- where memory is never refused, the initialisation ends, and every bucket has two free slots and
  -- a free entry
  pub init_table-start :
      (ipg : Bool) (n : ℕ) (s : Table F)
      → (r : Table F) × (init_table calloc ipg n s ≡ ok r)
        × ((l : ℕ) → l < n → view (r.0 l) ≡ start)
  unfolding init_table init_chain extend update
  init_table-start ipg zero s = (s, refl, λ l h. absurd (omega arith))
  init_table-start ipg (suc i) s =
      let (r, run, all) = init_table-start ipg i s in
      (
        (update r.0 i (record (reset ipg (r.0 i)) { flows = cleared ∷ [] }), r.1 + 1),
        rw (run, given r.1) refl,
        λ l h. elim (Bool-cases (l == i)) [
          | inl last ↦ rw last (reset-start ipg (r.0 i))
          | inr before ↦ rw before (all l (ground arith))
        ],
      )
