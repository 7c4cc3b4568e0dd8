-- ===== src/Pthread/LinkedList/Exact.antt =====
-- The LINKED_LIST build of pthread/main.c against its specification: a chain, seen as a tally under
-- counters of 64 bits.
use flo_watcher_dpdk.Common.{
  ℕ, zero, suc, ◌+◌, ◌<◌, ◌≡◌, refl, ap, ◌≢◌, ◌⊎◌, inl, inr, Bool, true, false, List, [], ◌∷◌,
  arith, u64_mod, update, ◌==◌, Bool-cases, add64,
}
use flo_watcher_dpdk.Buckets
use flo_watcher_dpdk.Double.{Arithmetic}
use flo_watcher_dpdk.Dpdk.{Mbuf}
use flo_watcher_dpdk.Outcome.{ok, Calloc, Ends, bind-Ends}
use flo_watcher_dpdk.Pthread.{flow_num}
use flo_watcher_dpdk.Pthread.LinkedList.{
  Chain, Table, fresh, extend, init_chain, flow_struct_init, walk, count_packet,
}
use flo_watcher_dpdk.Pthread.Pipeline.{Setting}
use flo_watcher_dpdk.Pthread.Pipeline.Counting.{low, high}
use flo_watcher_dpdk.Tally.{Tally, bump, bump-ne_nil, zeros}

-- what a chain counts
unfoldable pub view : {F : Type 0} → Chain F → Tally
view [] = []
view (f ∷ rest) = (f.rss_high, f.ctr) ∷ view rest

view-ne_nil : {F : Type 0} (c : Chain F) → view c ≢ [] → c ≢ []
unfolding view
view-ne_nil [] ne = λ _. ne refl
view-ne_nil (f ∷ rest) ne = λ e. cc

-- what `flow_struct_init` makes of a chain, with one entry for each
abbrev pub start : Tally
start = zeros 1

pub start-ne_nil : start ≢ []
unfolding zeros
start-ne_nil e = cc

module _ {F : Type 0} ⦃fp : Arithmetic F⦄ (calloc : Calloc) where
  walk-bump :
      (ipg : Bool) (global h : ℕ) (seen : Bool) (calls : ℕ) (c : Chain F)
      → ((seen ≡ true) ⊎ (c ≢ []))
      → Ends calloc
          (λ r. view r.0 ≡ bump u64_mod h (view c))
          (walk calloc ipg global h seen calls c)
  unfolding walk view bump
  walk-bump ipg global h seen calls [] (inr e) = absurd (e refl)
  walk-bump ipg global h seen calls [] (inl s) = elim (Bool-cases (calloc calls)) [
    | inl given ↦ rw (given, s) refl
    | inr refused ↦ rw refused (calls, refused)
  ]
  walk-bump ipg global h seen calls (f ∷ rest) s = elim (Bool-cases (f.rss_high == 0)) [
    | inl free ↦ rw free refl
    | inr taken ↦ elim (Bool-cases (f.rss_high == h)) [
      | inl own ↦
          let e : f.rss_high ≡ h = ground arith in
          rw (taken, own) (ap (λ k. (k, add64 f.ctr 1) ∷ view rest) e)
      | inr other ↦
          rw (taken, other)
            (bind-Ends {A = Chain F × ℕ} {B = Chain F × ℕ} calloc
              (λ r. view r.0 ≡ bump u64_mod h (view rest))
              (λ r. view r.0 ≡ (f.rss_high, f.ctr) ∷ bump u64_mod h (view rest))
              (walk calloc ipg global h true calls rest) (λ r. ok (f ∷ r.0, r.1))
              (walk-bump ipg global h true calls rest (inl refl))
              (λ r e. ap (λ t. (f.rss_high, f.ctr) ∷ t) e))
    ]
  ]

-- every bucket holds the tally of its part of the history
abbrev pub Tallied : {F : Type 0} → Setting → List ℕ → Table F → Type 0
Tallied k rs t =
    Buckets.Tallied view (λ c. view c ≢ []) (low k) (high k) flow_num u64_mod start rs t.0

module _ {F : Type 0} ⦃fp : Arithmetic F⦄ (calloc : Calloc) where
  pub count_packet-Tallied :
      (k : Setting)
      → ((r : ℕ) → low k r < flow_num)
      → (global : ℕ) (rs : List ℕ) (m : Mbuf) (s : Table F) → Tallied k rs s
      → Ends calloc (λ r. Tallied k (m.rss ∷ rs) r) (count_packet calloc k global m s)
  unfolding count_packet
  count_packet-Tallied k inside global rs m s tallied =
      let l = low k m.rss in
      let h = high k m.rss in
      bind-Ends {A = Chain F × ℕ} {B = Table F} calloc
        (λ r. view r.0 ≡ bump u64_mod h (view (s.0 l))) (λ r. Tallied k (m.rss ∷ rs) r)
        (walk calloc k.ipg global h false s.1 (s.0 l)) (λ r. ok (update s.0 l r.0, r.1))
        (walk-bump calloc k.ipg global h false s.1 (s.0 l)
          (inr (view-ne_nil (s.0 l) (tallied l (inside m.rss)).1)))
        (λ r e.
          Buckets.update-Tallied view (λ c. view c ≢ []) (low k) (high k) flow_num u64_mod start
            m.rss rs s.0 r.0 (inside m.rss) tallied e (rw e (bump-ne_nil u64_mod h (view (s.0 l)))))

  module _ (given : (n : ℕ) → calloc n ≡ true) where
    -- where memory is never refused, the initialisation ends and every bucket gets a free entry
    pub flow_struct_init-start :
        (n : ℕ) (s : Table F)
        → (r : Table F) × (flow_struct_init calloc n 1 s ≡ ok r)
          × ((l : ℕ) → l < n → view (r.0 l) ≡ start)
    unfolding flow_struct_init init_chain extend update view fresh zeros
    flow_struct_init-start zero s = (s, refl, λ l h. absurd (omega arith))
    flow_struct_init-start (suc i) s =
        let (r, run, all) = flow_struct_init-start i s in
        (
          (update r.0 i (fresh calloc ∷ []), r.1 + 1),
          rw (run, given r.1) refl,
          λ l h. elim (Bool-cases (l == i)) [
            | inl last ↦ rw last refl
            | inr before ↦ rw before (all l (ground arith))
          ],
        )
