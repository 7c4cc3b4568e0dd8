-- ===== src/RunToCompletion/HashList/Exact.antt =====
-- The HASH_LIST build of run_to_completion/main.c against its specification: the two slots of a
-- bucket and its chain, seen together as a tally.
use flo_watcher_dpdk.Common.{
  ℕ, ◌≡◌, refl, ap, sym, ◌∙◌, ◌≢◌, ◌⊎◌, inl, inr, not, ◌&&◌, Bool, true, false, List, [], ◌∷◌, ◌++◌,
  arith, u32_mod, Array, update, ◌==◌, Bool-cases, inc32,
}
use flo_watcher_dpdk.Buckets
use flo_watcher_dpdk.Buckets.{after, after_all}
use flo_watcher_dpdk.Double.{Arithmetic}
use flo_watcher_dpdk.Dpdk.{Mbuf}
use flo_watcher_dpdk.Outcome.{ok, Calloc, Ends, bind-Ends}
use flo_watcher_dpdk.Tally.{Tally, bump, bump-ne_nil}
use flo_watcher_dpdk.RunToCompletion.{Build, flow_num, index_low, index_high}
use flo_watcher_dpdk.RunToCompletion.Arrivals.{index_low-lt}
use flo_watcher_dpdk.RunToCompletion.HashList.{
  FlowEntry, PktCount, State, walk, first_slot, second_slot, packet, count_packet, count_loop,
  burst, hash_list,
}

-- what a chain and a bucket count
unfoldable pub view_chain : {F : Type 0} → List (FlowEntry F) → Tally
view_chain [] = []
view_chain (f ∷ rest) = (f.rss_high, f.ctr) ∷ view_chain rest

unfoldable pub view : {F : Type 0} → PktCount F → Tally
view c = (c.hi_f1, c.ctr0) ∷ (c.hi_f2, c.ctr1) ∷ view_chain c.flows

-- the chain of a bucket has an entry
abbrev pub Chained : {F : Type 0} → PktCount F → Type 0
Chained c = view_chain c.flows ≢ []

module _ {F : Type 0} ⦃fp : Arithmetic F⦄ (calloc : Calloc) where
  walk-bump :
      (b : Build) (global h : ℕ) (seen : Bool) (calls : ℕ) (c : List (FlowEntry F))
      → ((seen ≡ true) ⊎ (view_chain c ≢ []))
      → Ends calloc
          (λ r. view_chain r.0 ≡ bump u32_mod h (view_chain c))
          (walk calloc b global h seen calls c)
  unfolding walk view_chain bump
  walk-bump b global h seen calls [] (inr e) = absurd (e refl)
  walk-bump b global h seen calls [] (inl s) = elim (Bool-cases (calloc calls)) [
    | inl given ↦ rw (given, s) refl
    | inr refused ↦ rw refused (calls, refused)
  ]
  walk-bump b global h seen calls (f ∷ rest) s = elim (Bool-cases (f.rss_high == h)) [
    | inl own ↦ let e : f.rss_high ≡ h = ground arith in rw own (rw e (ground arith))
    | inr other ↦ elim (Bool-cases (f.rss_high == 0)) [
      | inl free ↦ rw (other, free) refl
      | inr taken ↦
          rw (taken, other)
            (bind-Ends {A = List (FlowEntry F) × ℕ} {B = List (FlowEntry F) × ℕ} calloc
              (λ r. view_chain r.0 ≡ bump u32_mod h (view_chain rest))
              (λ r. view_chain r.0 ≡ (f.rss_high, f.ctr) ∷ bump u32_mod h (view_chain rest))
              (walk calloc b global h true calls rest) (λ r. ok (f ∷ r.0, r.1))
              (walk-bump b global h true calls rest (inl refl))
              (λ r e. ap (λ t. (f.rss_high, f.ctr) ∷ t) e))
    ]
  ]

  first_slot-view :
      (b : Build) (global : ℕ) (c : PktCount F)
      → view (first_slot b global c)
        ≡ (c.hi_f1, inc32 c.ctr0) ∷ (c.hi_f2, c.ctr1) ∷ view_chain c.flows
  unfolding view first_slot
  first_slot-view b global c = elim (Bool-cases b.ipg) [ inl on ↦ simp on | inr off ↦ simp off ]

  second_slot-view :
      (b : Build) (global : ℕ) (c : PktCount F)
      → view (second_slot b global c)
        ≡ (c.hi_f1, c.ctr0) ∷ (c.hi_f2, inc32 c.ctr1) ∷ view_chain c.flows
  unfolding view second_slot
  second_slot-view b global c = elim (Bool-cases b.ipg) [ inl on ↦ simp on | inr off ↦ simp off ]

  flows_of_view :
      (c : PktCount F) (d : PktCount F)
      → (a b : ℕ × ℕ) → view c ≡ a ∷ b ∷ view_chain d.flows
      → Chained d
      → Chained c
  unfolding view
  flows_of_view c d a b e some =
      λ none. let same : view_chain c.flows ≡ view_chain d.flows = cc in some (sym same ∙ none)

  -- the code of one packet counts it, or ends the program
  packet-bump :
      (b : Build) (global h calls : ℕ) (c : PktCount F)
      → Chained c
      → Ends calloc
          (λ r. (view r.0 ≡ bump u32_mod h (view c)) × Chained r.0)
          (packet calloc b global h calls c)
  unfolding packet view bump
  packet-bump b global h calls c some = elim (Bool-cases (c.hi_f1 == 0)) [
    | inl free ↦ rw free (refl, some)
    | inr taken ↦ elim (Bool-cases (c.hi_f1 == h)) [
      | inl own ↦
          let e : c.hi_f1 ≡ h = ground arith in
          let slot = first_slot-view b global c in
          let apart : ((c.hi_f2 == 0) && not (c.hi_f1 == h)) ≡ false = ground arith in
          rw (taken, apart, own)
            (
              slot ∙ ap (λ k. (k, inc32 c.ctr0) ∷ (c.hi_f2, c.ctr1) ∷ view_chain c.flows) e,
              flows_of_view (first_slot b global c) c _ _ slot some,
            )
      | inr other ↦ elim (Bool-cases (c.hi_f2 == 0)) [
        | inl free ↦ rw (taken, other, free) (refl, some)
        | inr full ↦ elim (Bool-cases (c.hi_f2 == h)) [
          | inl second ↦
              let e : c.hi_f2 ≡ h = ground arith in
              let slot = second_slot-view b global c in
              rw (taken, other, full, second)
                (
                  slot ∙ ap (λ k. (c.hi_f1, c.ctr0) ∷ (k, inc32 c.ctr1) ∷ view_chain c.flows) e,
                  flows_of_view (second_slot b global c) c _ _ slot some,
                )
          | inr neither ↦
              rw (taken, other, full, neither)
                (bind-Ends {A = List (FlowEntry F) × ℕ} {B = PktCount F × ℕ} calloc
                  (λ r. view_chain r.0 ≡ bump u32_mod h (view_chain c.flows)) _
                  (walk calloc b global h false calls c.flows)
                  (λ r. ok (record c { flows = r.0 }, r.1))
                  (walk-bump b global h false calls c.flows (inr some))
                  (λ r e. (
                    ap (λ t. (c.hi_f1, c.ctr0) ∷ (c.hi_f2, c.ctr1) ∷ t) e,
                    rw e (bump-ne_nil u32_mod h (view_chain c.flows)),
                  )))
        ]
      ]
    ]
  ]

-- every bucket holds the tally of its part of the history, on top of what it started with
abbrev pub Tallied : {F : Type 0} → Tally → List ℕ → Array (PktCount F) → Type 0
Tallied init = Buckets.Tallied view Chained index_low index_high flow_num u32_mod init

module _ {F : Type 0} ⦃fp : Arithmetic F⦄ (calloc : Calloc) (init : Tally) (b : Build) where
  count_packet-Tallied :
      (global : ℕ) (rs : List ℕ) (m : Mbuf) (s : Array (PktCount F) × ℕ × List ℕ)
      → Tallied init rs s.0
      → Ends calloc (λ r. Tallied init (m.rss ∷ rs) r.0) (count_packet calloc b global m s)
  unfolding count_packet
  count_packet-Tallied global rs m (t, calls, freed) k =
      let l = index_low m.rss in
      let h = index_high m.rss in
      let small = index_low-lt m.rss in
      bind-Ends {A = PktCount F × ℕ} {B = Array (PktCount F) × ℕ × List ℕ} calloc
        (λ r. (view r.0 ≡ bump u32_mod h (view (t l))) × Chained r.0)
        (λ r. Tallied init (m.rss ∷ rs) r.0) (packet calloc b global h calls (t l))
        (λ r. ok (update t l r.0, r.1, freed ++ m.addr ∷ []))
        (packet-bump calloc b global h calls (t l) (k l small).1)
        (λ r e.
          Buckets.update-Tallied view Chained index_low index_high flow_num u32_mod init m.rss rs t
            r.0 small k e.0 e.1)

  count_loop-Tallied :
      (global : ℕ) (ms : List Mbuf) (rs : List ℕ) (s : Array (PktCount F) × ℕ × List ℕ)
      → Tallied init rs s.0
      → Ends calloc (λ r. Tallied init (after ms rs) r.0) (count_loop calloc b global ms s)
  unfolding count_loop after
  count_loop-Tallied global [] rs s k = k
  count_loop-Tallied global (m ∷ ms) rs s k =
      bind-Ends {A = Array (PktCount F) × ℕ × List ℕ} {B = Array (PktCount F) × ℕ × List ℕ} calloc
        (λ r. Tallied init (m.rss ∷ rs) r.0) (λ r. Tallied init (after ms (m.rss ∷ rs)) r.0)
        (count_packet calloc b global m s) (λ s'. count_loop calloc b global ms s')
        (count_packet-Tallied global rs m s k)
        (λ s' k'. count_loop-Tallied global ms (m.rss ∷ rs) s' k')

  burst-Tallied :
      (q : ℕ) (ms : List Mbuf) (rs : List ℕ) (s : State F)
      → Tallied init rs s.pkt_ctr
      → Ends calloc (λ r. Tallied init (after ms rs) r.pkt_ctr) (burst calloc b q ms s)
  unfolding burst after
  burst-Tallied q [] rs s k = k
  burst-Tallied q (m ∷ ms) rs s k =
      bind-Ends {A = Array (PktCount F) × ℕ × List ℕ} {B = State F} calloc
        (λ r. Tallied init (after (m ∷ ms) rs) r.0)
        (λ r. Tallied init (after (m ∷ ms) rs) r.pkt_ctr)
        (count_loop calloc b _ (m ∷ ms) (s.pkt_ctr, s.calls, s.freed)) _
        (count_loop-Tallied _ (m ∷ ms) rs (s.pkt_ctr, s.calls, s.freed) k) (λ s' k'. k')

  pub hash_list-Tallied :
      (q : ℕ) (bursts : List (List Mbuf)) (rs : List ℕ) (s : State F)
      → Tallied init rs s.pkt_ctr
      → Ends calloc
          (λ r. Tallied init (after_all bursts rs) r.pkt_ctr)
          (hash_list calloc b q bursts s)
  unfolding hash_list after_all
  hash_list-Tallied q [] rs s k = k
  hash_list-Tallied q (ms ∷ rest) rs s k =
      bind-Ends {A = State F} {B = State F} calloc (λ r. Tallied init (after ms rs) r.pkt_ctr)
        (λ r. Tallied init (after_all rest (after ms rs)) r.pkt_ctr) (burst calloc b q ms s)
        (λ s'. hash_list calloc b q rest s') (burst-Tallied q ms rs s k)
        (λ s' k'. hash_list-Tallied q rest (after ms rs) s' k')
