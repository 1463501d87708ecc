-- ===== src/Runtime/Private/Protected.antt =====
-- crates/okx-runtime/src/private/state.rs: the test that nothing happened on either connection.
use Prim.Native.String.{String}
use okx.Prelude.{◌+◌, ◌<◌, ◌≡◌, refl, sym, ◌∙◌, true, List, [], length, arith}
use okx.Runtime.Private.Types.{
  PrivateRuntimeState, PrivateConvergenceCursor, AlgoConvergenceCursor, PrivateConvergenceWindow,
  Result, ok, err,
}
use okx.Runtime.Private.State.{
  new, convergence_cursor, convergence_window, algo_convergence_cursor, algo_convergence_unchanged,
  protected_oco_window_unchanged, is_empty_window, is_ok,
}
use okx.Runtime.Private.Calls.{Call, run, observed, Rising}
use okx.Runtime.Private.Convergence.{window-observed}
use okx.Runtime.Private.Algo.{algo_events, unchanged-algo_events}

is_ok_lem : (r : Result (Unit {0})) → is_ok r ≡ true → r ≡ ok tt
is_ok_lem (ok tt) h = refl
is_ok_lem (err e) h = cc h

module _ {B P O : Type 0} where
  empty_window :
      (r : Result (PrivateConvergenceWindow B P O))
      → is_empty_window r ≡ true
      → (w : PrivateConvergenceWindow B P O) × (r ≡ ok w) × (w.events ≡ [])
  empty_window (ok w) h = (w, refl, ground arith)
  empty_window (err e) h = cc h

  protected_parts :
      (fp : String → String) (s : PrivateRuntimeState B P O) (c : PrivateConvergenceCursor)
      (a : AlgoConvergenceCursor)
      → protected_oco_window_unchanged fp s c a ≡ true
      → ((w : PrivateConvergenceWindow B P O) × (convergence_window fp s c ≡ ok w)
          × (w.events ≡ []))
        × (algo_convergence_unchanged s a ≡ ok tt)
  unfolding protected_oco_window_unchanged
  protected_parts fp s c a h = (
    empty_window (convergence_window fp s c) (ground arith),
    is_ok_lem (algo_convergence_unchanged s a) (ground arith),
  )

  -- If the test of both cursors passes, neither an account, positions or orders event nor an algo
  -- event was observed since the cursors were taken, and the generation is the same. Generations
  -- only rise, and fewer than 2^64 - 1 calls are made.
  pub protected-observed :
      (fp : String → String) (before after : List (Call B P O)) {c : PrivateConvergenceCursor}
      {a : AlgoConvergenceCursor}
      → convergence_cursor (run new before) ≡ ok c
      → algo_convergence_cursor (run new before) ≡ ok a
      → Rising (run {B = B} {P = P} {O = O} new before).generation after
      → length before + length after + 1 < 18446744073709551616
      → protected_oco_window_unchanged fp (run (run new before) after) c a ≡ true
      → (observed after ≡ [])
        × (algo_events after ≡ 0)
        × ((run (run new before) after).generation
            ≡ (run {B = B} {P = P} {O = O} new before).generation)
  protected-observed fp before after {c} {a} taken algo rising short h =
      let ((w, read, none_left), same) = protected_parts fp (run (run new before) after) c a h in
      let seen = window-observed fp before after taken rising short read in
      let quiet = unchanged-algo_events (run new before) after algo rising same in
      (sym seen.0 ∙ none_left, quiet.0, quiet.1)
