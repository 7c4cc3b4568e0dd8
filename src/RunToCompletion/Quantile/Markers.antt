-- ===== src/RunToCompletion/Quantile/Markers.antt =====
-- The marker positions of the P-square estimate in run_to_completion/main.c (`get_qt`), apart from
-- the heights: the formulas of `get_qt` divide by their differences.
use flo_watcher_dpdk.Common.{
  ℕ, zero, suc, ◌+◌, ◌-◌, ◌<◌, ◌≡◌, refl, ap, ◌∙◌, ◌⊎◌, inl, inr, true, false, ◌&&◌, ◌||◌, Array,
  update, arith, Bool-cases, List, [], ◌∷◌, length,
}
use flo_watcher_dpdk.Common.Int.{
  ℤ, pos, negsuc, ◌+ℤ◌, ◌-ℤ◌, ◌<ℤ◌, ◌≤ℤ◌, lt→ltb_ℤ, ltb_ℤ, leb_ℤ, int_laws, ltb→lt_ℤ,
}
use flo_watcher_dpdk.Double.{Arithmetic}
use flo_watcher_dpdk.RunToCompletion.Quantile.{
  Quantile, succ_int, increment, find_cell, move, adjust, get_qt, init,
}

abbrev pub Spaced : Array ℤ → Type 0
Spaced n = (n 0 <ℤ n 1) × (n 1 <ℤ n 2) × (n 2 <ℤ n 3) × (n 3 <ℤ n 4)

-- the positions `m` come from `n` by moves of the inner markers
abbrev Moved : Array ℤ → Array ℤ → Type 0
Moved n m = Spaced m × (m 0 ≡ n 0) × (m 4 ≡ n 4)

-- the last position is below the end of an `int`
abbrev pub Fits : Array ℤ → Type 0
Fits n = n 4 <ℤ pos 2147483647

succ_int-lem : (z : ℤ) → z <ℤ pos 2147483647 → succ_int z ≡ z +ℤ pos 1
unfolding succ_int
succ_int-lem z h = rw (lt→ltb_ℤ z (pos 2147483647) h) refl

increment-Spaced :
    (k : ℕ) (n : Array ℤ)
    → k < 4
    → Spaced n
    → Fits n
    → let m = increment (4 - k) k n in Spaced m × (m 0 ≡ n 0) × (m 4 ≡ n 4 +ℤ pos 1)
unfolding increment update
increment-Spaced zero n h s f =
    rw
      (
        succ_int-lem (n 1) (omega int_laws),
        succ_int-lem (n 2) (omega int_laws),
        succ_int-lem (n 3) (omega int_laws),
        succ_int-lem (n 4) f,
      )
      (omega int_laws, refl, refl)
increment-Spaced (suc zero) n h s f =
    rw
      (
        succ_int-lem (n 2) (omega int_laws),
        succ_int-lem (n 3) (omega int_laws),
        succ_int-lem (n 4) f,
      )
      (omega int_laws, refl, refl)
increment-Spaced (suc (suc zero)) n h s f =
    rw (succ_int-lem (n 3) (omega int_laws), succ_int-lem (n 4) f) (omega int_laws, refl, refl)
increment-Spaced (suc (suc (suc zero))) n h s f =
    rw (succ_int-lem (n 4) f) (omega int_laws, refl, refl)
increment-Spaced (suc (suc (suc (suc k)))) n h s f = absurd (omega arith)

up-Moved :
    (i : ℕ) (n : Array ℤ)
    → i < 3
    → Spaced n
    → pos 1 <ℤ n (suc (suc i)) -ℤ n (suc i)
    → Moved n (update n (suc i) (n (suc i) +ℤ pos 1))
unfolding update
up-Moved zero n h s gap = (omega int_laws, refl, refl)
up-Moved (suc zero) n h s gap = (omega int_laws, refl, refl)
up-Moved (suc (suc zero)) n h s gap = (omega int_laws, refl, refl)
up-Moved (suc (suc (suc i))) n h s gap = absurd (omega arith)

down-Moved :
    (i : ℕ) (n : Array ℤ)
    → i < 3
    → Spaced n
    → n i -ℤ n (suc i) <ℤ negsuc 0
    → Moved n (update n (suc i) (n (suc i) +ℤ negsuc 0))
unfolding update
down-Moved zero n h s gap = (omega int_laws, refl, refl)
down-Moved (suc zero) n h s gap = (omega int_laws, refl, refl)
down-Moved (suc (suc zero)) n h s gap = (omega int_laws, refl, refl)
down-Moved (suc (suc (suc i))) n h s gap = absurd (omega arith)

-- the two reasons to move a marker, and the direction that goes with each
directions :
    (d above below : ℤ)
    → (leb_ℤ (pos 1) d && ltb_ℤ (pos 1) above || leb_ℤ d (negsuc 0) && ltb_ℤ below (negsuc 0))
      ≡ true
    → ((ltb_ℤ (pos 0) d ≡ true) × (pos 1 <ℤ above))
      ⊎ ((ltb_ℤ (pos 0) d ≡ false) × (below <ℤ negsuc 0))
directions (pos zero) above below e = ground arith
directions (pos (suc d)) above below e = inl (ground arith, ltb→lt_ℤ (pos 1) above (ground arith))
directions (negsuc d) above below e = inr (ground arith, ltb→lt_ℤ below (negsuc 0) (ground arith))

pos_inc : (k : ℕ) → pos k +ℤ pos 1 ≡ pos (k + 1)
unfolding ◌+ℤ◌
pos_inc k = ground arith

module _ {F : Type 0} ⦃fp : Arithmetic F⦄ where
  adjust-Moved : (i : ℕ) (qt : Quantile F) → i < 3 → Spaced qt.n → Moved qt.n (adjust i qt).n
  unfolding adjust move
  adjust-Moved i qt h s =
      let d =
        fp.to_int (fp.single (fp.sub (qt.n1 (suc i)) (fp.single (fp.of_int (qt.n (suc i)))))) in
      let above = qt.n (suc (suc i)) -ℤ qt.n (suc i) in
      let below = qt.n i -ℤ qt.n (suc i) in
      elim (Bool-cases
        (leb_ℤ (pos 1) d && ltb_ℤ (pos 1) above || leb_ℤ d (negsuc 0) && ltb_ℤ below (negsuc 0))) [
          | inr stay ↦ rw stay (s, refl, refl)
          | inl go ↦ elim (directions d above below go) [
            | inl (up, gap) ↦ rw (go, up) (up-Moved i qt.n h s gap)
            | inr (down, gap) ↦ rw (go, down) (down-Moved i qt.n h s gap)
          ]
        ]

  find_cell-lt : (x : F) (q : Array F) → (find_cell x q).0 < 4
  unfolding find_cell
  find_cell-lt x q = ground arith

  -- One observation keeps the positions in strict order, leaves the first one in place and moves
  -- the last one by 1, whatever the arithmetic of the heights gives: from positions above 0, of which
  -- the last is below 2 ^ 31 - 1, so that all positions are those of an `int` before and after.
  pub get_qt-Spaced :
      (x : ℕ) (qt : Quantile F)
      → Spaced qt.n
      → pos 0 <ℤ qt.n 0
      → Fits qt.n
      → let m = (get_qt x qt).n in
        Spaced m
        × (m 0 ≡ qt.n 0)
        × (m 4 ≡ qt.n 4 +ℤ pos 1)
        × (pos 0 <ℤ m 0)
        × (m 4 ≤ℤ pos 2147483647)
  unfolding get_qt
  get_qt-Spaced x qt s above f =
      let k = (find_cell (fp.of_u64 x) qt.q).0 in
      let (s0, a0, b0) = increment-Spaced k qt.n (find_cell-lt (fp.of_u64 x) qt.q) s f in
      let (s1, a1, b1) = adjust-Moved 0 _ (omega arith) s0 in
      let (s2, a2, b2) = adjust-Moved 1 _ (omega arith) s1 in
      let (s3, a3, b3) = adjust-Moved 2 _ (omega arith) s2 in
      let first = a3 ∙ a2 ∙ a1 ∙ a0 in
      let last = b3 ∙ b2 ∙ b1 ∙ b0 in (s3, first, last, rw first above, rw last (omega int_laws))

  -- the observations of a flow, in order
  abbrev pub estimate : List ℕ → Quantile F → Quantile F
  estimate [] qt = qt
  estimate (x ∷ xs) qt = estimate xs (get_qt x qt)

  estimate-Spaced :
      (xs : List ℕ) (qt : Quantile F) (k : ℕ)
      → Spaced qt.n
      → pos 0 <ℤ qt.n 0
      → qt.n 4 ≡ pos k
      → k + length xs < 2147483648
      → let m = (estimate xs qt).n in Spaced m × (m 0 ≡ qt.n 0) × (m 4 ≡ pos (k + length xs))
  estimate-Spaced [] qt k s above e few = (s, refl, e ∙ ap pos (omega arith))
  estimate-Spaced (x ∷ xs) qt k s above e few =
      let fits : Fits qt.n = rw e (omega arith) in
      let (t, a, b, above', _) = get_qt-Spaced x qt s above fits in
      let (t', a', b') =
        estimate-Spaced xs (get_qt x qt) (k + 1) t above' (b ∙ ap (λ z. z +ℤ pos 1) e ∙ pos_inc k)
          (omega arith) in
      (t', a' ∙ a, b' ∙ ap pos (omega arith))

  -- After `init` and at most 2 ^ 31 - 6 observations the positions are strictly ordered between 1
  -- and 5 more than the number of observations: no formula divides by 0.
  positions :
      (xs : List ℕ) (qt : Quantile F)
      → 5 + length xs < 2147483648
      → let m = (estimate xs (init qt)).n in Spaced m × (m 0 ≡ pos 1) × (m 4 ≡ pos (5 + length xs))
  unfolding init update
  positions xs qt few = estimate-Spaced xs (init qt) 5 (omega int_laws) (omega int_laws) refl few
