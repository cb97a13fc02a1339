-- ===== src/Rt/StateMachine/Runs.antt =====
-- Every sequence of events.
use mxrc.Common.{
  ◌≡◌, ◌≢◌, ◌∙◌, ap, refl, false, some, List, [], ◌∷◌, arith, ◌==◌, Bool-cases, inl, inr,
}
use mxrc.Rt.StateMachine.{
  RtState, RtEvent, RtStateMachine, init, running, shutdown, start, error_occur, reset, state_index,
  next_state, new, transition_to, handle_event, set_transition_callback,
}

states : RtState → List RtEvent → RtState
states s [] = s
states s (e ∷ es) = states (next_state s e) es

module _ {W : Type 0} where
  unfoldable pub run : RtStateMachine W → List RtEvent → RtStateMachine W
  run m [] = m
  run m (e ∷ es) = run (handle_event e m).0 es

  event_state :
      (e : RtEvent) (m : RtStateMachine W)
      → (handle_event e m).0.current_state ≡ next_state m.current_state e
  unfolding handle_event transition_to next_state
  event_state e m = ground arith

  run_state :
      (m : RtStateMachine W) (es : List RtEvent)
      → (run m es).current_state ≡ states m.current_state es
  unfolding run states
  run_state m [] = refl
  run_state m (e ∷ es) = run_state (handle_event e m).0 es ∙ ap (λ s. states s es) (event_state e m)

  -- From every state but SHUTDOWN, the events ERROR_OCCUR, RESET, START and START bring the machine to
  -- RUNNING.
  pub run-recovers :
      (m : RtStateMachine W)
      → m.current_state ≢ shutdown
      → (run m (error_occur ∷ reset ∷ start ∷ start ∷ [])).current_state ≡ running
  unfolding states next_state
  run-recovers m h =
      let e = run_state m (error_occur ∷ reset ∷ start ∷ start ∷ []) in ground (arith, e, h)

-- The calls of the callback, the last one first.
abbrev pub Log : Type 0
Log = List (RtState × RtState × RtEvent)

abbrev pub log : RtState → RtState → RtEvent → Log → Log
log from to e l = (from, to, e) ∷ l

-- Each call is for a transition of the table, from the state that the call before it led to, and the
-- last one led to `s`.
abbrev pub IsChain : RtState → Log → Type 0
IsChain s [] = s ≡ init
IsChain s ((from, to, e) ∷ l) =
    (to ≡ s)
    × (next_state from e ≡ to)
    × ((state_index to == state_index from) ≡ false)
    × IsChain from l

step-IsChain :
    (e : RtEvent) (m : RtStateMachine Log)
    → m.transition_callback ≡ some log
    → IsChain m.current_state m.world
    → let n = (handle_event e m).0 in
      (n.transition_callback ≡ some log) × IsChain n.current_state n.world
unfolding handle_event transition_to
step-IsChain e m c h =
    elim (Bool-cases (state_index (next_state m.current_state e) == state_index m.current_state)) [
      | inl same ↦ rw (handle_event, same) (c, h)
      | inr other ↦ rw (handle_event, other) (c, rw c (refl, refl, other, h))
    ]

steps-IsChain :
    (m : RtStateMachine Log) (es : List RtEvent)
    → m.transition_callback ≡ some log
    → IsChain m.current_state m.world
    → IsChain (run m es).current_state (run m es).world
unfolding run
steps-IsChain m [] c h = h
steps-IsChain m (e ∷ es) c h =
    let next = step-IsChain e m c h in steps-IsChain (handle_event e m).0 es next.0 next.1

-- For every sequence of events on a new machine, the calls of its callback are a chain of transitions
-- of the table, from INIT to the state that the machine is in, and none stays in its state.
pub run-IsChain :
    (es : List RtEvent)
    → let m = run (set_transition_callback (some log) (new [])) es in
      IsChain m.current_state m.world
unfolding set_transition_callback new
run-IsChain es = steps-IsChain (set_transition_callback (some log) (new [])) es refl refl
