-- ===== src/Executor/Trace.antt =====
-- What a run of the steps leaves: a result for each step up to the first that does not pass, and who
-- it was logged in as.
use runlet.Prelude.{
  Bool, true, false, ◌&&◌, not, ◌≡◌, refl, sym, ap, ◌∙◌, Option, List, [], ◌∷◌, ◌++◌, map, Text,
  text, nat_eq, list_eq, list_beq_iff, ◌==◌, contains, Dict, Value, Result, ok, raise, Bool-cases,
  inl, inr, arith,
}
use runlet.RunCheck.Rows.{RunnerRunStatus, AuthInjectStatus, reused, refreshed, blocked}
use runlet.Executor.Steps.{Called, Runtime, StepOutcome, passed, failed, raised, auth_of}
use runlet.Executor.Execute.{
  StepExecutionResult, ModuleExecutionResult, with_auth, authed, keep_auth, result_of, after_step,
  module_of, params_of, run_module, run_step, execute_steps, execute,
}

abbrev pub IfPassed : RunnerRunStatus → Type 0 → Type 0 → Type 0
IfPassed RunnerRunStatus.passed A B = A
IfPassed RunnerRunStatus.failed A B = B
IfPassed RunnerRunStatus.running A B = ⊥

-- The results are those of the first modules, in order. All but the last one passed; if the last one
-- did not, the run failed; if it did, no module is left and the run passed.
abbrev pub IsTrace : List Text → List StepExecutionResult → RunnerRunStatus → Type 0
IsTrace names [] status = (names ≡ []) × (status ≡ RunnerRunStatus.passed)
IsTrace [] (r ∷ rs) status = ⊥
IsTrace (name ∷ names) (r ∷ rs) status =
    (r.module_name ≡ name)
    × IfPassed r.status (IsTrace names rs status) ((rs ≡ []) × (status ≡ RunnerRunStatus.failed))

abbrev pub is_blocked : AuthInjectStatus → Bool
is_blocked AuthInjectStatus.blocked = true
is_blocked _ = false

abbrev pub auth_module : Text
auth_module = text "auth.inject_state"

-- A run that passed is blocked only if it was before and no step logs in.
abbrev pub KeepsAuth : List Text → AuthInjectStatus → ModuleExecutionResult → Type 0
KeepsAuth names auth r =
    r.status ≡ RunnerRunStatus.passed
    → is_blocked r.auth_status ≡ is_blocked auth && not (contains auth_module names)

abbrev IsGood :
    List Text → AuthInjectStatus → List StepExecutionResult → ModuleExecutionResult → Type 0
IsGood names auth before r =
    (rs : List StepExecutionResult) × (r.step_results ≡ before ++ rs)
    × IsTrace names rs r.status
    × KeepsAuth names auth r

abbrev StepAuth :
    {W : Type 0} → Text → AuthInjectStatus → StepOutcome × (AuthInjectStatus × W) → Type 0
StepAuth name auth (passed output, (auth', w)) =
    is_blocked auth' ≡ is_blocked auth && not (auth_module == name)
StepAuth name auth (failed detail output, (auth', w)) = Unit
StepAuth name auth (raised message, (auth', w)) = Unit

append_nil : (xs : List StepExecutionResult) → xs ≡ xs ++ []
append_nil [] = refl
append_nil (x ∷ xs) = ap (◌∷◌ x) (append_nil xs)

append-cons :
    (before : List StepExecutionResult) (r : StepExecutionResult) (rs : List StepExecutionResult)
    → (before ++ r ∷ []) ++ rs ≡ before ++ r ∷ rs
append-cons [] r rs = refl
append-cons (b ∷ before) r rs = ap (◌∷◌ b) (append-cons before r rs)

module _ {W : Type 0} where
  with_auth-StepAuth :
      (name : Text) (auth : AuthInjectStatus) (w : W) (r : Result Text AuthInjectStatus)
      → auth_module == name ≡ true
      → StepAuth name auth (with_auth auth w r)
  with_auth-StepAuth name auth w (raise message) e = tt
  with_auth-StepAuth name auth w (ok reused) e = ground (arith, e)
  with_auth-StepAuth name auth w (ok refreshed) e = ground (arith, e)
  with_auth-StepAuth name auth w (ok AuthInjectStatus.blocked) e = tt

  authed-StepAuth :
      (name : Text) (auth : AuthInjectStatus) (x : Called W)
      → auth_module == name ≡ true
      → StepAuth name auth (authed auth x)
  authed-StepAuth name auth (raise message, w) e = tt
  authed-StepAuth name auth (ok outcome, w) e = with_auth-StepAuth name auth w (auth_of outcome) e

  keep_auth-StepAuth :
      (name : Text) (auth : AuthInjectStatus) (x : StepOutcome × W)
      → auth_module == name ≡ false
      → StepAuth name auth (keep_auth auth x)
  keep_auth-StepAuth name auth (passed output, w) e = ground (arith, e)
  keep_auth-StepAuth name auth (failed detail output, w) e = tt
  keep_auth-StepAuth name auth (raised message, w) e = tt

  after_step-IsGood :
      (next : AuthInjectStatus → List StepExecutionResult → W → ModuleExecutionResult × W)
      (name : Text) (names : List Text) (auth : AuthInjectStatus)
      (before : List StepExecutionResult) (x : StepOutcome × (AuthInjectStatus × W))
      → ((auth' : AuthInjectStatus) (before' : List StepExecutionResult) (w : W)
          → IsGood names auth' before' (next auth' before' w).0)
      → StepAuth name auth x
      → IsGood (name ∷ names) auth before (after_step next name before x).0
  unfolding contains
  after_step-IsGood next name names auth before (passed output, (auth', w)) ih step =
      let r = result_of name (passed output) in
      let (rs, same, trace, keeps) = ih auth' (before ++ r ∷ []) w in
      (
        r ∷ rs,
        same ∙ append-cons before r rs,
        (refl, trace),
        λ ok_status. keeps ok_status ∙ ground (arith, step),
      )
  after_step-IsGood next name names auth before (failed detail output, (auth', w)) ih step =
      (_, refl, (refl, (refl, refl)), λ h. absurd (ground (arith, h)))
  after_step-IsGood next name names auth before (raised message, (auth', w)) ih step =
      (_, refl, (refl, (refl, refl)), λ h. absurd (ground (arith, h)))

module _ {W : Type 0} (runtime : Runtime W) (storage : Value)
    (inputs : Option (Dict Text Value)) where
  run_step-StepAuth :
      (name : Text) (params : Dict Text Value) (auth : AuthInjectStatus) (w : W)
      → StepAuth name auth (run_step runtime name params storage auth w)
  unfolding run_step
  run_step-StepAuth name params auth w = elim (Bool-cases (name == auth_module)) [
    | inl e ↦ rw e (
        authed-StepAuth name auth (runtime.inject_auth_state storage w)
          ((list_beq_iff auth_module name).1 (sym ((list_beq_iff name auth_module).0 e))))
    | inr e ↦ rw e (
        keep_auth-StepAuth name auth (run_module runtime name params w)
          (ground (arith, e, list_beq_iff auth_module name, list_beq_iff name auth_module)))
  ]

  execute_steps-IsGood :
      (steps : List Value) (auth : AuthInjectStatus) (before : List StepExecutionResult) (w : W)
      → IsGood
          (map module_of steps)
          auth
          before
          (execute_steps runtime storage inputs steps auth before w).0
  unfolding execute_steps contains
  execute_steps-IsGood [] auth before w = ([], append_nil before, (refl, refl), λ h. ground arith)
  execute_steps-IsGood (raw_step ∷ steps) auth before w =
      after_step-IsGood (execute_steps runtime storage inputs steps) (module_of raw_step)
        (map module_of steps) auth before
        (run_step runtime (module_of raw_step) (params_of inputs raw_step) storage auth w)
        (execute_steps-IsGood steps)
        (run_step-StepAuth (module_of raw_step) (params_of inputs raw_step) auth w)

  -- For any steps and runtime, the results are those of the first steps, in order: all but the last one
  -- passed, and the run passed only if no step is left and the last one passed too. A run that passed
  -- is blocked if and only if none of its steps logs in.
  pub execute-IsTrace :
      (steps : List Value) (w : W)
      → IsTrace
          (map module_of steps)
          (execute runtime steps storage inputs w).0.step_results
          (execute runtime steps storage inputs w).0.status
        × KeepsAuth (map module_of steps) blocked (execute runtime steps storage inputs w).0
  unfolding execute
  execute-IsTrace steps w =
      let (rs, same, trace, keeps) = execute_steps-IsGood steps blocked [] w in
      (rw same trace, keeps)
