-- ===== src/Prelude/Loop.antt =====
-- A `for` loop with a ceiling on its rounds. Each round goes on with new variables or returns, and
-- the rounds that are left are counted down, so that `zero` is the loop's test against the ceiling.
use Prim.Native.Nat.{ℕ, zero, suc}
use mathlib.Core.Path.{◌≡◌, refl}

pub data Turn {ℓ κ} (S : Type ℓ) (R : Type κ) : Type (ℓ ⊔ κ) where
  continue : S → Turn S R
  stop : R → Turn S R

module _ {ℓ κ} {S : Type ℓ} {R : Type κ} where
  abbrev after : Turn S R → (S → R) → R
  after (continue s) next = next s
  after (stop r) next = r

  unfoldable pub rounds : (ℕ → S → Turn S R) → (ℕ → S → R) → ℕ → ℕ → S → R
  rounds body ceiling zero k s = ceiling k s
  rounds body ceiling (suc left) k s = after (body k s) (λ s'. rounds body ceiling left (suc k) s')

  -- What a round establishes: the invariant `P` at the next index, or `Q` of the result.
  abbrev pub Keeps {μ} : (ℕ → S → Type μ) → (R → Type μ) → ℕ → Turn S R → Type μ
  Keeps P Q k (continue s) = P (suc k) s
  Keeps P Q k (stop r) = Q r

module _ {ℓ κ μ} {S : Type ℓ} {R : Type κ} (body : ℕ → S → Turn S R) (ceiling : ℕ → S → R)
    (P : ℕ → S → Type μ) (Q : R → Type μ) (keep : (k : ℕ) (s : S) → P k s → Keeps P Q k (body k s))
    (full : (k : ℕ) (s : S) → P k s → Q (ceiling k s)) where
  after-Keeps :
      (k : ℕ) (t : Turn S R) (next : S → R)
      → Keeps P Q k t
      → ((s : S) → P (suc k) s → Q (next s))
      → Q (after t next)
  after-Keeps k (continue s) next h n = n s h
  after-Keeps k (stop r) next h n = h

  -- The invariant rule.
  pub rounds_inv : (left k : ℕ) (s : S) → P k s → Q (rounds body ceiling left k s)
  unfolding rounds
  rounds_inv zero k s h = full k s h
  rounds_inv (suc left) k s h =
      after-Keeps k (body k s) _ (keep k s h) (λ s' h'. rounds_inv left (suc k) s' h')

module _ {ℓ κ} {S : Type ℓ} {R : Type κ} (body : ℕ → S → Turn S R) (ceiling : ℕ → S → R) where
  pub rounds-continue :
      (left k : ℕ) (s s' : S)
      → body k s ≡ continue s'
      → rounds body ceiling (suc left) k s ≡ rounds body ceiling left (suc k) s'
  unfolding rounds
  rounds-continue left k s s' e = rw e refl

  pub rounds-stop :
      (left k : ℕ) (s : S) (r : R) → body k s ≡ stop r → rounds body ceiling (suc left) k s ≡ r
  unfolding rounds
  rounds-stop left k s r e = rw e refl
