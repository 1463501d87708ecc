-- ===== src/Api/Rate/Trimmed.antt =====
-- crates/okx-api/src/rate.rs: what a request that is put off does to a window.
use okx.Prelude.{
  ℕ, ◌-◌, ◌≤◌, ◌<◌, ◌≡◌, refl, ◌⊎◌, inl, inr, List, [], ◌∷◌, ◌++◌, Option, none, some, arith,
  Option-cases, leb, Bool-cases, All,
}
use native.Mathlib.Decide.{dec_lt}
use okx.Api.Rate.Types.{RateWindowSpec, RateWindowState}
use okx.Api.Rate.Budget.{from_millis, prune, examine}
use okx.Api.Rate.Windows.{examined}
use okx.Api.Rate.Sliding.{examine-attempts}

-- The attempts at the front that a window of a plan has outlived; another window loses none.
abbrev pub Outlived : Option RateWindowSpec → ℕ → List ℕ → Type 0
Outlived none now dropped = dropped ≡ []
Outlived (some spec) now dropped = All (λ a. from_millis spec.window_ms ≤ now - a) dropped

-- The first attempt that a window of a plan keeps is not outlived.
abbrev pub Young : Option RateWindowSpec → ℕ → List ℕ → Type 0
Young (some spec) now (a ∷ attempts) = now - a < from_millis spec.window_ms
Young o now attempts = Unit {0}

-- The end of a block that has come; a window that is not of the plan keeps any block.
abbrev pub Lapsed : Option RateWindowSpec → ℕ → ℕ → Type 0
Lapsed none now b = ⊥
Lapsed (some spec) now b = b ≤ now

-- A block that is kept has not come to its end, in a window of the plan.
abbrev pub Pending : Option RateWindowSpec → ℕ → ℕ → Type 0
Pending none now b = Unit {0}
Pending (some spec) now b = now < b

-- What a request that is put off does to a window: the attempts at the front that are too old go,
-- the others stay and none is added, and a block ends exactly if its time has come.
pub record Trimmed (o : Option RateWindowSpec) (now : ℕ) (w w' : RateWindowState) : Type 0 where
  pub dropped : List ℕ
  pub split : w.attempts ≡ dropped ++ w'.attempts
  pub outlived : Outlived o now dropped
  pub young : Young o now w'.attempts
  pub blocked :
      ((w'.blocked_until ≡ w.blocked_until)
        × ((b : ℕ) → w.blocked_until ≡ some b → Pending o now b))
      ⊎ ((b : ℕ) × (w.blocked_until ≡ some b) × Lapsed o now b × (w'.blocked_until ≡ none))

prune-Outlived :
    (xs : List ℕ) (window_ms now : ℕ)
    → (dropped : List ℕ) × (xs ≡ dropped ++ prune xs window_ms now)
      × All (λ a. from_millis window_ms ≤ now - a) dropped
unfolding prune
prune-Outlived [] window_ms now = ([], refl, tt)
prune-Outlived (x ∷ xs) window_ms now = elim (Bool-cases (leb (from_millis window_ms) (now - x))) [
  | inl e ↦
      let (dropped, split, old) = prune-Outlived xs window_ms now in
      (x ∷ dropped, ground arith, (ground arith, old))
  | inr e ↦ ([], ground arith, tt)
]

prune-Young :
    (spec : RateWindowSpec) (xs : List ℕ) (now : ℕ)
    → Young (some spec) now (prune xs spec.window_ms now)
unfolding prune
prune-Young spec [] now = tt
prune-Young spec (x ∷ xs) now = elim (Bool-cases (leb (from_millis spec.window_ms) (now - x))) [
  | inl e ↦ rw e (prune-Young spec xs now)
  | inr e ↦ rw e (ground arith)
]

examine-blocked_until :
    (spec : RateWindowSpec) (now : ℕ) (w : RateWindowState)
    → let w' = (examine spec now w).0 in
      ((w'.blocked_until ≡ w.blocked_until) × ((b : ℕ) → w.blocked_until ≡ some b → now < b))
      ⊎ ((b : ℕ) × (w.blocked_until ≡ some b) × (b ≤ now) × (w'.blocked_until ≡ none))
unfolding examine
examine-blocked_until spec now w = elim (Option-cases w.blocked_until) [
  | inl free ↦ inl (ground arith, λ b e. ground arith)
  | inr (b, e) ↦ elim (dec_lt now b) [
    | yes lt ↦ inl (ground arith, λ c f. ground arith)
    | no n ↦ inr (b, e, ground arith, ground arith)
  ]
]

pub examined-Trimmed :
    (o : Option RateWindowSpec) (now : ℕ) (w : RateWindowState) → Trimmed o now w (examined o now w)
examined-Trimmed none now w = record {
  dropped = [];
  split = refl;
  outlived = refl;
  young = tt;
  blocked = inl (refl, λ b e. tt);
}
examined-Trimmed (some spec) now w =
    let (dropped, split, old) = prune-Outlived w.attempts spec.window_ms now in
    let left = examine-attempts spec now w in
    record {
      dropped = dropped;
      split = rw left split;
      outlived = old;
      young = rw left (prune-Young spec w.attempts now);
      blocked = examine-blocked_until spec now w;
    }
