-- ===== src/Orchestrator/World/Steps.antt =====
-- Time does not go back: an action ends at no earlier step than it began.
use qumomf.Prelude.{◌≤◌, arith, ◌≡◌, sym, ap, ◌∙◌, Bool, true, false, Option, some, some_eq, String}
use mathlib.Core.Path.{subst}
use qumomf.Orchestrator.Query.{Query}
use qumomf.Orchestrator.Recovery.{Recovery}
use qumomf.Orchestrator.World.{
  Env, World, M, Event, ◌>>=◌, pure, panic, read_clock, read_snapshot, exec, note,
}
use qumomf.Orchestrator.World.Trace.{bind-eq_some}
use qumomf.Orchestrator.Hooker.{Hooker, HookType, execute_processes}
use qumomf.Orchestrator.Hooker.Run.{execute_processes_lem}

pub record Later {A : Type 0} (env : Env) (m : M A) : Type 0 where
  pub steps : (w w' : World) (a : A) → m env w ≡ some (a, w') → w.step ≤ w'.step

-- The world that is returned.
pub ends_at :
    {A : Type 0} {a b : A} {w1 w' : World} (w : World)
    → ◌≡◌ {A = Option (A × World)} (some (a, w1)) (some (b, w'))
    → w.step ≤ w1.step
    → w.step ≤ w'.step
ends_at w h l = subst (λ (x : World). w.step ≤ x.step) (ap (λ x. x.1) (some_eq h)) l

module _ (env : Env) where
  pub bind-Later :
      {A B : Type 0} (m : M A) (f : A → M B)
      → Later env m
      → ((a : A) → Later env (f a))
      → Later env (m >>= f)
  bind-Later m f g k = record {
    steps = λ w w' a h.
        let (b, w1, e, h1) = bind-eq_some (m env w) (λ a v. f a env v) h in
        let first = g.steps w w1 b e in let second = (k b).steps w1 w' a h1 in omega arith;
  }

  pub pure-Later : {A : Type 0} (a : A) → Later env (pure a)
  pure-Later a = record { steps = λ w w' b h. ends_at w h (omega arith) }

  pub panic-Later : {A : Type 0} → Later env (panic {A = A})
  panic-Later = record { steps = λ w w' a h. cc }

  pub read_clock-Later : Later env read_clock
  unfolding read_clock
  read_clock-Later = record { steps = λ w w' a h. ends_at w h (omega arith) }

  pub read_snapshot-Later : Later env read_snapshot
  unfolding read_snapshot
  read_snapshot-Later = record { steps = λ w w' a h. ends_at w h (omega arith) }

  pub exec-Later : (uri : String) (q : Query) → Later env (exec uri q)
  unfolding exec
  exec-Later uri q = record { steps = λ w w' a h. ends_at w h (omega arith) }

  pub note-Later : (e : Event) → Later env (note e)
  unfolding note
  note-Later e = record { steps = λ w w' a h. ends_at w h (omega arith) }

  pub execute_processes-Later :
      (h : Hooker) (t : HookType) (r : Recovery) (stops : Bool)
      → Later env (execute_processes h t r stops)
  execute_processes-Later h t r true = record {
    steps = λ w w' a k. ends_at w (sym (execute_processes_lem h t r env w).1 ∙ k) (omega arith);
  }
  execute_processes-Later h t r false = record {
    steps = λ w w' a k. ends_at w (sym (execute_processes_lem h t r env w).0 ∙ k) (omega arith);
  }
