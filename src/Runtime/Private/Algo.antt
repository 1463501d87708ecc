-- ===== src/Runtime/Private/Algo.antt =====
-- crates/okx-runtime/src/private/state.rs: the cursor over algo events.
use okx.Prelude.{ℕ, suc, ◌+◌, ◌≡◌, refl, sym, ◌∙◌, ◌⊎◌, true, false, List, [], ◌∷◌, arith, inr}
use okx.Runtime.Private.Types.{PrivateRuntimeState, AlgoConvergenceCursor, ok}
use okx.Runtime.Private.State.{
  algo_ready, algo_convergence_cursor, algo_convergence_unchanged, set_connecting, begin_generation,
  set_disconnected, acknowledge_login, acknowledge_subscription, acknowledge_business_login,
  acknowledge_algo_subscription, observe_event, observe_algo_event,
}
use okx.Runtime.Private.Calls.{
  Call, begins, observes_algo, step, run, Rising, step-generation, begun,
}
use okx.Runtime.Private.Convergence.{generation_rises}

module _ {B P O : Type 0} where
  -- How many algo events the calls observe.
  abbrev pub algo_events : List (Call B P O) → ℕ
  algo_events [] = 0
  algo_events (observes_algo at ∷ cs) = suc (algo_events cs)
  algo_events (_ ∷ cs) = algo_events cs

  abbrev one_algo : Call B P O → ℕ
  one_algo (observes_algo at) = 1
  one_algo _ = 0

  -- The number of algo events is exact, or known to have run out.
  abbrev Counted : PrivateRuntimeState B P O → ℕ → Type 0
  Counted s n = (s.algo_sequence_exhausted ≡ true) ⊎ (s.algo_event_sequence ≡ n)

  step-Counted :
      (s : PrivateRuntimeState B P O) (n : ℕ) (c : Call B P O)
      → ((g : ℕ) → c ≡ begins g → ⊥)
      → Counted s n
      → Counted (step s c) (n + one_algo c)
  unfolding step set_connecting begin_generation set_disconnected acknowledge_login
      acknowledge_subscription acknowledge_business_login acknowledge_algo_subscription
      observe_event observe_algo_event
  step-Counted s n (begins g) not_begin h = absurd (not_begin g refl)
  step-Counted s n c not_begin h = ground arith

  run-Counted :
      (s : PrivateRuntimeState B P O) (n g : ℕ) (cs : List (Call B P O))
      → s.generation ≡ g
      → Rising g cs
      → (run s cs).generation ≡ g
      → Counted s n
      → Counted (run s cs) (n + algo_events cs)
  unfolding run
  run-Counted s n g [] e r same h = ground arith
  run-Counted s n g (begins generation ∷ cs) e r same h =
      let later =
        generation_rises (step s (begins generation)) generation cs (begun s generation) r.1 in
      absurd (omega arith)
  run-Counted s n g (observes_algo at ∷ cs) e r same h =
      let one = step-Counted s n (observes_algo at) (λ g' p. cc p) h in
      let rest =
        run-Counted (step s (observes_algo at)) (n + 1) g cs
          (step-generation s (observes_algo at) tt ∙ e) r same one in
      ground arith
  run-Counted s n g (c ∷ cs) e r same h =
      let one = step-Counted s n c (λ g' p. cc p) h in
      run-Counted (step s c) n g cs (step-generation s c tt ∙ e) r same (ground arith)

  unchanged_parts :
      (s : PrivateRuntimeState B P O) (c : AlgoConvergenceCursor)
      → algo_convergence_unchanged s c ≡ ok tt
      → (c.generation ≡ s.generation)
        × (s.algo_sequence_exhausted ≡ false)
        × (c.sequence ≡ s.algo_event_sequence)
  unfolding algo_convergence_unchanged algo_ready
  unchanged_parts s c h = (ground arith, ground arith, ground arith)

  cursor_parts :
      (s : PrivateRuntimeState B P O) {c : AlgoConvergenceCursor}
      → algo_convergence_cursor s ≡ ok c
      → (c.generation ≡ s.generation) × (c.sequence ≡ s.algo_event_sequence)
  unfolding algo_convergence_cursor
  cursor_parts s h = (ground arith, ground arith)

  -- If the check of an algo cursor passes, no algo event was observed since the cursor was taken,
  -- and the generation is the same. Generations only rise.
  pub unchanged-algo_events :
      (s : PrivateRuntimeState B P O) (cs : List (Call B P O)) {c : AlgoConvergenceCursor}
      → algo_convergence_cursor s ≡ ok c
      → Rising s.generation cs
      → algo_convergence_unchanged (run s cs) c ≡ ok tt
      → (algo_events cs ≡ 0) × ((run s cs).generation ≡ s.generation)
  unchanged-algo_events s cs {c} taken rising passed =
      let (g, n) = cursor_parts s taken in
      let (g', alive, n') = unchanged_parts (run s cs) c passed in
      let same = sym g' ∙ g in
      let counted =
        run-Counted s s.algo_event_sequence s.generation cs refl rising same (inr refl) in
      (ground arith, same)
