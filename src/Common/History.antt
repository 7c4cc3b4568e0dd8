-- ===== src/Common/History.antt =====
-- Histories of a bucket: the upper hash halves of the packets that it has received, most recent
-- first, and what the counters of the flow tables are specified by.
use flo_watcher_dpdk.Common.{
  ℕ, ◌+◌, ◌≡◌, refl, sym, ◌≢◌, List, [], ◌∷◌, arith, All, length, count, ◌==◌, if◌then◌else◌,
}

-- the first packet that came in, 0 if none did
unfoldable pub earliest : List ℕ → ℕ
earliest [] = 0
earliest (h ∷ []) = h
earliest (h ∷ x ∷ xs) = earliest (x ∷ xs)

-- the packets of all flows but `f`
unfoldable pub without : ℕ → List ℕ → List ℕ
without f [] = []
without f (h ∷ hs) = if h == f then without f hs else h ∷ without f hs

-- no packet has the value by which the tables mark a free slot
abbrev pub Nonzero : List ℕ → Type 0
Nonzero = All (λ h. h ≢ 0)

earliest-ne_zero : (x : ℕ) (xs : List ℕ) → Nonzero (x ∷ xs) → earliest (x ∷ xs) ≢ 0
unfolding earliest
earliest-ne_zero x [] n = n.0
earliest-ne_zero x (y ∷ ys) n = earliest-ne_zero y ys n.1

pub earliest-cons :
    (h : ℕ) (hs : List ℕ)
    → Nonzero hs
    → earliest (h ∷ hs) ≡ (if earliest hs == 0 then h else earliest hs)
unfolding earliest
earliest-cons h [] n = refl
earliest-cons h (x ∷ []) n = ground (arith, n.0)
earliest-cons h (x ∷ y ∷ ys) n = ground (arith, earliest-ne_zero y ys n.1)

pub eq_nil_of_earliest : (hs : List ℕ) → Nonzero hs → earliest hs ≡ 0 → hs ≡ []
unfolding earliest
eq_nil_of_earliest [] n e = refl
eq_nil_of_earliest (x ∷ []) n e = absurd (n.0 e)
eq_nil_of_earliest (x ∷ y ∷ ys) n e = ground (arith, eq_nil_of_earliest (y ∷ ys) n.1 e)

pub without-Nonzero : (f : ℕ) (hs : List ℕ) → Nonzero hs → Nonzero (without f hs)
unfolding without
without-Nonzero f [] n = tt
without-Nonzero f (h ∷ hs) n = ground (arith, without-Nonzero f hs n.1)

pub count-without : (k f : ℕ) (hs : List ℕ) → k ≢ f → count k (without f hs) ≡ count k hs
unfolding count without
count-without k f [] d = refl
count-without k f (h ∷ hs) d = ground (arith, count-without k f hs d)

pub count-zero : (hs : List ℕ) → Nonzero hs → count 0 hs ≡ 0
unfolding count
count-zero [] n = refl
count-zero (h ∷ hs) n = ground (arith, n.0, count-zero hs n.1)

-- the packets of a flow and those of the others make up the history
pub count-add-without : (f : ℕ) (hs : List ℕ) → count f hs + length (without f hs) ≡ length hs
unfolding count without
count-add-without f [] = refl
count-add-without f (h ∷ hs) = ground (arith, count-add-without f hs)

-- where no packet of another flow than `f` has come in, there is none to count
pub without-eq-nil :
    (f : ℕ) (hs : List ℕ) → Nonzero hs → earliest (without f hs) ≡ 0 → without f hs ≡ []
without-eq-nil f hs n = eq_nil_of_earliest (without f hs) (without-Nonzero f hs n)

pub count-eq-zero :
    (f k : ℕ) (hs : List ℕ) → Nonzero hs → earliest (without f hs) ≡ 0 → k ≢ f → count k hs ≡ 0
unfolding count
count-eq-zero f k hs n e d = ground (arith, count-without k f hs d, without-eq-nil f hs n e)

without-avoids : (f : ℕ) (hs : List ℕ) → All (λ h. h ≢ f) (without f hs)
unfolding without
without-avoids f [] = tt
without-avoids f (h ∷ hs) = ground (arith, without-avoids f hs)

earliest-avoids : (f : ℕ) (hs : List ℕ) → f ≢ 0 → All (λ h. h ≢ f) hs → earliest hs ≢ f
unfolding earliest
earliest-avoids f [] z a = λ e. z (sym e)
earliest-avoids f (x ∷ []) z a = a.0
earliest-avoids f (x ∷ y ∷ ys) z a = earliest-avoids f (y ∷ ys) z a.1

pub earliest-without_ne : (f : ℕ) (hs : List ℕ) → f ≢ 0 → earliest (without f hs) ≢ f
earliest-without_ne f hs z = earliest-avoids f (without f hs) z (without-avoids f hs)
