-- ===== src/Orchestrator/Hooker/Run.antt =====
-- Which processes of a hook are run.
use qumomf.Prelude.{
  ℕ, suc, ◌+◌, String, ◌≡◌, refl, sym, ap, ◌∙◌, inl, inr, Bool, true, false, not, ◌&&◌, ◌||◌, some,
  some_eq, List, [], ◌∷◌, ◌++◌, map, length, Bool-cases, arith, if◌then◌else◌,
}
use mathlib.Core.Path.{ap₂}
use mathlib.Core.List.{append_assoc, append-nil}
use qumomf.Orchestrator.Recovery.{Recovery}
use qumomf.Orchestrator.World.{Env, World, Event, M, process, run_process, start_process}
use qumomf.Orchestrator.World.Trace.{queried, queries_of, queries_of-append}
use qumomf.Orchestrator.Hooker.{Hooker, HookType, variables, round, execute_from, execute_processes}
use qumomf.Orchestrator.Hooker.Command.{prepare_command}

or_true : (b : Bool) → (b || true) ≡ true
or_true true = refl
or_true false = refl

or_false : (b : Bool) → (b || false) ≡ b
or_false true = refl
or_false false = refl

or_assoc : (a b c : Bool) → ((a || b) || c) ≡ (a || (b || c))
or_assoc true b c = refl
or_assoc false b c = refl

module _ (env : Env) (recv : Recovery) where
  -- The event of one process of a hook.
  abbrev pub event_of : String → Event
  event_of p =
      let (command, async) = prepare_command p recv in process command (variables env recv) async

  -- Does the process fail, if it runs at this step and is waited for?
  abbrev pub fails_at : ℕ → String → Bool
  fails_at n p = not (prepare_command p recv).1 && env.process_fails n

  unfoldable pub any_fails : ℕ → List String → Bool
  any_fails n [] = false
  any_fails n (p ∷ ps) = fails_at n p || any_fails (suc n) ps

  -- The processes up to the first that fails.
  unfoldable pub until_failure : ℕ → List String → List String
  until_failure n [] = []
  until_failure n (p ∷ ps) =
      let rest = until_failure (suc n) ps in if fails_at n p then p ∷ [] else p ∷ rest

  abbrev pub after : World → List String → World
  after w ps = record { step = w.step + length ps; trace = w.trace ++ map event_of ps }

  abbrev one : World → String → World
  one w p = record { step = suc w.step; trace = w.trace ++ event_of p ∷ [] }

  after-one : (w : World) (p : String) (ps : List String) → after (one w p) ps ≡ after w (p ∷ ps)
  after-one w p ps = ground (arith, append_assoc w.trace (event_of p ∷ []) (map event_of ps))

  after_none : (w : World) → w ≡ after w []
  after_none w = ground (arith, append-nil w.trace)

  abbrev done_by : Bool → String → World → World
  done_by async c w = record {
    step = suc w.step;
    trace = w.trace ++ process c (variables env recv) async ∷ [];
  }

  round_keep :
      (async failed : Bool) (c : String) (later : Bool → M Bool) (w : World)
      → round async false failed c (variables env recv) later env w
        ≡ later (failed || (not async && env.process_fails w.step)) env (done_by async c w)
  unfolding run_process start_process
  round_keep true false c later w = refl
  round_keep true true c later w = refl
  round_keep false failed c later w = elim (Bool-cases (env.process_fails w.step)) [
    | inl e ↦ rw e (ap (λ b. later b env (done_by false c w)) (sym (or_true failed)))
    | inr e ↦ rw e (ap (λ b. later b env (done_by false c w)) (sym (or_false failed)))
  ]

  -- Hooks whose errors do not matter are all run, in order, and the result says whether one that was
  -- waited for has failed.
  pub execute_from_all :
      (ps : List String) (failed : Bool) (w : World)
      → execute_from ps recv false failed env w ≡ some (failed || any_fails w.step ps, after w ps)
  unfolding execute_from any_fails
  execute_from_all [] failed w = ap₂ (λ b v. some (b, v)) (sym (or_false failed)) (after_none w)
  execute_from_all (p ∷ ps) failed w =
      round_keep (prepare_command p recv).1 failed (prepare_command p recv).0
        (execute_from ps recv false) w
      ∙ execute_from_all ps (failed || fails_at w.step p) (one w p)
      ∙ ap₂ (λ b v. some (b, v)) (or_assoc failed (fails_at w.step p) (any_fails (suc w.step) ps))
          (after-one w p ps)

  round_stop :
      (async : Bool) (c : String) (later : Bool → M Bool) (w : World)
      → (not async && env.process_fails w.step) ≡ true
      → round async true false c (variables env recv) later env w ≡ some (true, done_by async c w)
  unfolding run_process start_process
  round_stop true c later w h = cc
  round_stop false c later w h = rw h

  round_on :
      (async : Bool) (c : String) (later : Bool → M Bool) (w : World)
      → (not async && env.process_fails w.step) ≡ false
      → round async true false c (variables env recv) later env w
        ≡ later false env (done_by async c w)
  unfolding run_process start_process
  round_on true c later w h = refl
  round_on false c later w h = rw h

  -- Where an error matters, the first process that is waited for and fails is the last that is run.
  pub execute_from_stops :
      (ps : List String) (w : World)
      → execute_from ps recv true false env w
        ≡ some (any_fails w.step ps, after w (until_failure w.step ps))
  unfolding execute_from any_fails until_failure
  execute_from_stops [] w = ap (λ v. some (false, v)) (after_none w)
  execute_from_stops (p ∷ ps) w = elim (Bool-cases (fails_at w.step p)) [
    | inl e ↦ rw e (
        round_stop (prepare_command p recv).1 (prepare_command p recv).0 (execute_from ps recv true)
          w e
        ∙ ap (λ v. some (true, v)) (after_none (one w p) ∙ after-one w p []))
    | inr e ↦ rw e (
        round_on (prepare_command p recv).1 (prepare_command p recv).0 (execute_from ps recv true) w
          e
        ∙ execute_from_stops ps (one w p)
        ∙ ap (λ v. some (any_fails (suc w.step) ps, v))
            (after-one w p (until_failure (suc w.step) ps)))
  ]

-- A hook runs its processes in order and returns whether one that it waited for has failed: all of
-- them if errors do not matter, and those up to the first failure if they do.
pub execute_processes_lem :
    (h : Hooker) (t : HookType) (recv : Recovery) (env : Env) (w : World)
    → (execute_processes h t recv false env w
        ≡ some (any_fails env recv w.step (h.processes t), after env recv w (h.processes t)))
      × (execute_processes h t recv true env w
          ≡ some (
            any_fails env recv w.step (h.processes t),
            after env recv w (until_failure env recv w.step (h.processes t)),
          ))
unfolding execute_processes
execute_processes_lem h t recv env w = (
  execute_from_all env recv (h.processes t) false w,
  execute_from_stops env recv (h.processes t) w,
)

queries-processes :
    (env : Env) (recv : Recovery) (ps : List String) → queries_of (map (event_of env recv) ps) ≡ []
unfolding queries_of
queries-processes env recv [] = refl
queries-processes env recv (p ∷ ps) = queries-processes env recv ps

after-queried :
    (env : Env) (recv : Recovery) (w : World) (ps : List String)
    → queried (after env recv w ps) ≡ queried w
after-queried env recv w ps =
    queries_of-append w.trace (map (event_of env recv) ps)
    ∙ ap (λ l. queried w ++ l) (queries-processes env recv ps)
    ∙ append-nil (queried w)

-- A hook sends no query.
pub execute_processes-queried :
    (h : Hooker) (t : HookType) (recv : Recovery) (foe : Bool) (env : Env) (w : World) {b : Bool}
    {w' : World}
    → execute_processes h t recv foe env w ≡ some (b, w')
    → queried w' ≡ queried w
execute_processes-queried h t recv false env w e =
    ap (λ r. queried r.1) (some_eq (sym e ∙ (execute_processes_lem h t recv env w).0))
    ∙ after-queried env recv w (h.processes t)
execute_processes-queried h t recv true env w e =
    ap (λ r. queried r.1) (some_eq (sym e ∙ (execute_processes_lem h t recv env w).1))
    ∙ after-queried env recv w (until_failure env recv w.step (h.processes t))
