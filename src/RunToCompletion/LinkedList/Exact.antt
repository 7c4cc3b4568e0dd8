-- ===== src/RunToCompletion/LinkedList/Exact.antt =====
-- The LINKED_LIST build of run_to_completion/main.c against its specification: a chain, seen as a
-- tally.
use flo_watcher_dpdk.Common.{
  ℕ, ◌≡◌, refl, ap, ◌≢◌, ◌⊎◌, inl, inr, Bool, true, false, List, [], ◌∷◌, arith, u32_mod, Array,
  update, ◌==◌, Bool-cases, inc32,
}
use flo_watcher_dpdk.Double.{Arithmetic}
use flo_watcher_dpdk.Dpdk.{Mbuf}
use flo_watcher_dpdk.Outcome.{ok, Calloc, Ends, bind-Ends}
use flo_watcher_dpdk.Tally.{Tally, bump, bump-ne_nil}
use flo_watcher_dpdk.RunToCompletion.{Build, flow_num, index_low, index_high}
use flo_watcher_dpdk.Buckets
use flo_watcher_dpdk.Buckets.{after, after_all}
use flo_watcher_dpdk.RunToCompletion.Arrivals.{index_low-lt}
use flo_watcher_dpdk.RunToCompletion.LinkedList.{
  Chain, State, walk, count_packet, count_loop, burst, linked_list,
}

-- what a chain counts
unfoldable pub view : {F : Type 0} → Chain F → Tally
view [] = []
view (f ∷ rest) = (f.rss_high, f.ctr) ∷ view rest

module _ {F : Type 0} ⦃fp : Arithmetic F⦄ (calloc : Calloc) where
  -- a walk over a chain that is not empty counts the packet, or ends the program
  pub walk-bump :
      (b : Build) (global h : ℕ) (seen : Bool) (calls : ℕ) (c : Chain F)
      → ((seen ≡ true) ⊎ (c ≢ []))
      → Ends calloc (λ r. view r.0 ≡ bump u32_mod h (view c)) (walk calloc b global h seen calls c)
  unfolding walk view bump
  walk-bump b global h seen calls [] (inr e) = absurd (e refl)
  walk-bump b global h seen calls [] (inl s) = elim (Bool-cases (calloc calls)) [
    | inl given ↦ rw (given, s) refl
    | inr refused ↦ rw refused (calls, refused)
  ]
  walk-bump b global h seen calls (f ∷ rest) s = elim (Bool-cases (f.rss_high == 0)) [
    | inl free ↦ rw free refl
    | inr taken ↦ elim (Bool-cases (f.rss_high == h)) [
      | inl own ↦
          let e : f.rss_high ≡ h = ground arith in
          rw (taken, own) (ap (λ k. (k, inc32 f.ctr) ∷ view rest) e)
      | inr other ↦
          rw (taken, other)
            (bind-Ends {A = Chain F × ℕ} {B = Chain F × ℕ} calloc
              (λ r. view r.0 ≡ bump u32_mod h (view rest))
              (λ r. view r.0 ≡ (f.rss_high, f.ctr) ∷ bump u32_mod h (view rest))
              (walk calloc b global h true calls rest) (λ r. ok (f ∷ r.0, r.1))
              (walk-bump b global h true calls rest (inl refl))
              (λ r e. ap (λ t. (f.rss_high, f.ctr) ∷ t) e))
    ]
  ]

  view-ne_nil : (c : Chain F) → view c ≢ [] → c ≢ []
  unfolding view
  view-ne_nil [] ne = λ _. ne refl
  view-ne_nil (f ∷ rest) ne = λ e. cc

-- every bucket holds the tally of its part of the history, on top of what it started with
abbrev pub Tallied : {F : Type 0} → Tally → List ℕ → Array (Chain F) → Type 0
Tallied init = Buckets.Tallied view (λ c. view c ≢ []) index_low index_high flow_num u32_mod init

module _ {F : Type 0} ⦃fp : Arithmetic F⦄ (calloc : Calloc) (init : Tally) (b : Build) where
  count_packet-Tallied :
      (global : ℕ) (rs : List ℕ) (m : Mbuf) (s : Array (Chain F) × ℕ)
      → Tallied init rs s.0
      → Ends calloc (λ r. Tallied init (m.rss ∷ rs) r.0) (count_packet calloc b global m s)
  unfolding count_packet
  count_packet-Tallied global rs m s k =
      let l = index_low m.rss in
      let h = index_high m.rss in
      let small = index_low-lt m.rss in
      bind-Ends {A = Chain F × ℕ} {B = Array (Chain F) × ℕ} calloc
        (λ r. view r.0 ≡ bump u32_mod h (view (s.0 l))) (λ r. Tallied init (m.rss ∷ rs) r.0)
        (walk calloc b global h false s.1 (s.0 l)) (λ r. ok (update s.0 l r.0, r.1))
        (walk-bump calloc b global h false s.1 (s.0 l)
          (inr (view-ne_nil calloc (s.0 l) (k l small).1)))
        (λ r e.
          Buckets.update-Tallied view (λ c. view c ≢ []) index_low index_high flow_num u32_mod init
            m.rss rs s.0 r.0 small k e (rw e (bump-ne_nil u32_mod h (view (s.0 l)))))

  count_loop-Tallied :
      (global : ℕ) (ms : List Mbuf) (rs : List ℕ) (s : Array (Chain F) × ℕ)
      → Tallied init rs s.0
      → Ends calloc (λ r. Tallied init (after ms rs) r.0) (count_loop calloc b global ms s)
  unfolding count_loop after
  count_loop-Tallied global [] rs s k = k
  count_loop-Tallied global (m ∷ ms) rs s k =
      bind-Ends {A = Array (Chain F) × ℕ} {B = Array (Chain F) × ℕ} calloc
        (λ r. Tallied init (m.rss ∷ rs) r.0) (λ r. Tallied init (after ms (m.rss ∷ rs)) r.0)
        (count_packet calloc b global m s) (λ s'. count_loop calloc b global ms s')
        (count_packet-Tallied global rs m s k)
        (λ s' k'. count_loop-Tallied global ms (m.rss ∷ rs) s' k')

  burst-Tallied :
      (q : ℕ) (ms : List Mbuf) (rs : List ℕ) (s : State F)
      → Tallied init rs s.flows
      → Ends calloc (λ r. Tallied init (after ms rs) r.flows) (burst calloc b q ms s)
  unfolding burst after
  burst-Tallied q [] rs s k = k
  burst-Tallied q (m ∷ ms) rs s k =
      bind-Ends {A = Array (Chain F) × ℕ} {B = State F} calloc
        (λ r. Tallied init (after (m ∷ ms) rs) r.0) (λ r. Tallied init (after (m ∷ ms) rs) r.flows)
        (count_loop calloc b _ (m ∷ ms) (s.flows, s.calls)) _
        (count_loop-Tallied _ (m ∷ ms) rs (s.flows, s.calls) k) (λ s' k'. k')

  pub linked_list-Tallied :
      (q : ℕ) (bursts : List (List Mbuf)) (rs : List ℕ) (s : State F)
      → Tallied init rs s.flows
      → Ends calloc
          (λ r. Tallied init (after_all bursts rs) r.flows)
          (linked_list calloc b q bursts s)
  unfolding linked_list after_all
  linked_list-Tallied q [] rs s k = k
  linked_list-Tallied q (ms ∷ rest) rs s k =
      bind-Ends {A = State F} {B = State F} calloc (λ r. Tallied init (after ms rs) r.flows)
        (λ r. Tallied init (after_all rest (after ms rs)) r.flows) (burst calloc b q ms s)
        (λ s'. linked_list calloc b q rest s') (burst-Tallied q ms rs s k)
        (λ s' k'. linked_list-Tallied q rest (after ms rs) s' k')
