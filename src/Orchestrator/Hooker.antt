-- ===== src/Orchestrator/Hooker.antt =====
-- internal/vshard/orchestrator/hook.go: the processes that the user hooks to a recovery. Timeouts
-- are part of whether a process fails, which the environment says.
pub mod Command
pub mod Run
use qumomf.Prelude.{
  ℕ, String, Bool, true, false, Option, none, some, List, [], ◌∷◌, ◌++◌, if◌then◌else◌,
}
use qumomf.Orchestrator.Recovery.{Recovery}
use qumomf.Orchestrator.World.{Env, World, M, ◌>>=◌, ◌>>◌, pure, run_process, start_process}
use qumomf.Orchestrator.Hooker.Command.{prepare_command, apply_environment_variables}

pub data HookType : Type 0 where
  pre_failover post_successful_failover post_unsuccessful_failover : HookType

-- The processes of each hook; a type that has no entry has none.
pub record Hooker : Type 0 where
  pub processes : HookType → List String

abbrev pub new_hooker : Hooker
new_hooker = record { processes = λ t. [] }

abbrev pub same_hook : HookType → HookType → Bool
same_hook pre_failover pre_failover = true
same_hook post_successful_failover post_successful_failover = true
same_hook post_unsuccessful_failover post_unsuccessful_failover = true
same_hook _ _ = false

-- `AddHook`
unfoldable pub add_hook : Hooker → HookType → List String → Hooker
add_hook h t commands = record {
  processes = λ t'. if same_hook t t' then h.processes t ++ commands else h.processes t';
}

-- The environment that a process gets.
abbrev pub variables : Env → Recovery → List String
variables env recv = env.environ ++ apply_environment_variables recv

-- What follows a process that was waited for: the error ends the loop, or the first one is kept.
abbrev pub after_run : Bool → Bool → Bool → (Bool → M Bool) → M Bool
after_run true true failed later = pure true
after_run true false failed later = later true
after_run false fail_on_error failed later = later failed

-- One round of the loop, by whether the process is waited for. A process that nobody waits for
-- cannot add an error.
abbrev pub round : Bool → Bool → Bool → String → List String → (Bool → M Bool) → M Bool
round true fail_on_error failed command vars later =
    start_process command vars >>= λ _. later failed
round false fail_on_error failed command vars later =
    run_process command vars >>= λ bad. after_run bad fail_on_error failed later

-- The loop of `ExecuteProcesses`, with whether an error was kept; the result says whether there is
-- an error.
unfoldable pub execute_from : List String → Recovery → Bool → Bool → M Bool
execute_from [] recv fail_on_error failed env w = some (failed, w)
execute_from (process ∷ rest) recv fail_on_error failed env w =
    round (prepare_command process recv).1 fail_on_error failed (prepare_command process recv).0
      (variables env recv) (execute_from rest recv fail_on_error) env w

unfoldable pub execute_processes : Hooker → HookType → Recovery → Bool → M Bool
unfolding execute_from
execute_processes h t recv fail_on_error = execute_from (h.processes t) recv fail_on_error false
