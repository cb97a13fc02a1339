-- ===== src/Sequence/Status.antt =====
-- src/core/sequence/core/SequenceEngine.cpp: the status that the engine reports.
use mxrc.Common.{
  ℕ, suc, ◌-◌, ◌≡◌, refl, sym, ap, ◌∙◌, subst, String, false, Option, none, some, List, [], ◌∷◌,
  Bool-cases, Option-cases, inl, inr, str_eq, lookup, insert, lookup-inserted, arith,
}
use mxrc.Sequence.Definition.{
  SequenceDefinition, ActionStep, SequenceResult, running, completed, cancelled,
}
use mxrc.Sequence.Engine.{
  Collaborators, SequenceState, SequenceEngine, Tally, state_of, with_state, resume, get_status,
  clear_completed_sequences, unfinished, is_finished, SequenceEvent,
}
use mxrc.Sequence.Execution.{publish}
use mxrc.Sequence.Steps.{run_steps, execute, result_of, set_status, ended_event, publish_if}
use mxrc.Sequence.Turns.{turn, asked, asleep, skipped, unended, performed, ended}
use mxrc.Sequence.Bounds.{loop}

module _ {M A W : Type 0} (c : Collaborators M A W) (d : SequenceDefinition M) where
  -- Where a result and the state that is kept agree.
  abbrev Agrees : SequenceEngine W × SequenceResult → Type 0
  Agrees (e, r) = get_status d.id e ≡ r.status

  with_state-Agrees :
      (f : SequenceState → SequenceState) (e : SequenceEngine W) (r : SequenceResult)
      → (f (state_of d.id e)).status ≡ r.status
      → Agrees (with_state d.id f e, r)
  unfolding get_status
  with_state-Agrees f e r h = rw (get_status, lookup-inserted d.id (f (state_of d.id e)) e.states) h

  from_pair :
      (x y : SequenceEngine W × SequenceResult)
      → ◌≡◌ {A = Option (SequenceEngine W × SequenceResult)} (some x) (some y)
      → Agrees x
      → Agrees y
  from_pair x y h agrees = let same : x ≡ y = cc in subst Agrees same agrees

  run_steps-Agrees :
      (patience : ℕ) (rest : List ActionStep) (index : ℕ) (t : Tally) (e e' : SequenceEngine W)
      (r : SequenceResult)
      → run_steps c patience d rest index t e ≡ some (e', r)
      → Agrees (e', r)
  unfolding run_steps
  run_steps-Agrees patience [] index t e e' r h =
      from_pair (_, result_of d completed "" t.count (1, 1)) (e', r) h
        (with_state-Agrees (λ s. record s { status = completed; progress = (1, 1) }) e
          (result_of d completed "" t.count (1, 1)) refl)
  run_steps-Agrees patience (step ∷ rest) index t e e' r h =
      elim (turn c patience d step rest index t e) [
        | asked q s ↦
            from_pair
              (with_state d.id (set_status cancelled) e, result_of d cancelled "" t.count (0, 1))
              (e', r) (sym s ∙ h)
              (with_state-Agrees (set_status cancelled) e (result_of d cancelled "" t.count (0, 1))
                refl)
        | asleep q w s ↦ absurd (ground (arith, h, s))
        | skipped woken q w i s ↦
            run_steps-Agrees patience rest (suc index) t woken e' r (sym s ∙ h)
        | unended woken q w i o s ↦ absurd (ground (arith, h, s))
        | performed woken over after q w i o s ↦
            run_steps-Agrees patience rest (suc index) after over e' r (sym s ∙ h)
        | ended woken over status message q w i o s ↦
            from_pair
              (with_state d.id (set_status status) over, result_of d status message t.count (0, 1))
              (e', r) (sym s ∙ h)
              (with_state-Agrees (set_status status) over
                (result_of d status message t.count (0, 1)) refl)
      ]

  same_states :
      (event : Option SequenceEvent) (e : SequenceEngine W)
      → (publish_if c event e).states ≡ e.states
  unfolding publish
  same_states none e = refl
  same_states (some event) e = refl

  -- After an execution the engine reports the status of its result.
  pub execute-status :
      (patience : ℕ) (e e' : SequenceEngine W) (r : SequenceResult)
      → execute c patience d e ≡ some (e', r)
      → get_status d.id e' ≡ r.status
  unfolding execute get_status
  execute-status patience e e' r h = elim (Option-cases (loop c d patience e)) [
    | inl l ↦ absurd (ground (arith, h, l))
    | inr ((over, s), l) ↦
        let timed = record s { execution_time = c.now over.world - c.now e.world } in
        from_pair (publish_if c (ended_event d timed) over, timed) (e', r)
          (sym (rw (execute, l) refl) ∙ h)
          (rw (get_status, same_states (ended_event d timed) over)
            (run_steps-Agrees patience d.steps 0 (record { executed = []; count = 0 }) _ over s l))
  ]

unfinished-keeps :
    (id : String) (l : List (String × SequenceState)) (s : SequenceState)
    → lookup id l ≡ some s
    → is_finished s.status ≡ false
    → lookup id (unfinished l).0 ≡ some s
unfolding unfinished lookup
unfinished-keeps id [] s h live = absurd (cc)
unfinished-keeps id ((key, first) ∷ rest) s h live = elim (Bool-cases (str_eq key id)) [
  | inl same ↦
      let it : first ≡ s = ground (arith, h, same) in
      let alive : is_finished first.status ≡ false =
        subst (λ (x : SequenceState). is_finished x.status ≡ false) (sym it) live in
      rw (alive, same) (ap some it)
  | inr other ↦
      let ih = unfinished-keeps id rest s (ground (arith, h, other)) live in
      elim (Bool-cases (is_finished first.status)) [ inl f ↦ rw f ih | inr f ↦ rw (f, other) ih ]
]

module _ {W : Type 0} where
  -- A sequence that the engine knows, whatever its status, is RUNNING after `resume`, and no removal
  -- of the finished sequences removes it.
  pub resume-running :
      (id : String) (e : SequenceEngine W) (s : SequenceState)
      → lookup id e.states ≡ some s
      → (get_status id (resume id e) ≡ running)
        × (get_status id (clear_completed_sequences (resume id e)).0 ≡ running)
  unfolding get_status resume clear_completed_sequences
  resume-running id e s there =
      let woken = record s { pause_requested = false; status = running } in
      let found = lookup-inserted id woken e.states in
      (
        rw (get_status, resume, there, found) refl,
        rw
            (
              get_status,
              resume,
              there,
              unfinished-keeps id (insert id woken e.states) woken found refl,
            )
            refl,
      )
