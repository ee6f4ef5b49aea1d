-- ===== src/Graph/ChildTests.antt =====
-- Runs of the child process of the call executor.
use superset_agent_orchestra.Base.{
  show, true, some, none, List, [], ◌∷◌, ◌≡◌, ◌≤◌, refl, length, string_eq,
}
use superset_agent_orchestra.Graph.Spawn.{
  Signal, stderr, stdout, timeout, exit, stdin_error, resolved, exited, timed_out, started, concat,
  settle, trim, expire, verdict, leave, take_errors, take_output, hear, spawn_bounded,
}
use superset_agent_orchestra.Graph.Settled.{resolution}
use superset_agent_orchestra.Graph.Spawned.{completed, spawn_bounded-completed}

abbrev answering : List Signal
answering =
    stdin_error "EPIPE"
    ∷ stderr (1 ∷ 2 ∷ 3 ∷ [])
    ∷ stdout (123 ∷ [])
    ∷ stdout (125 ∷ [])
    ∷ exit (some 0) ""
    ∷ []

answers : (spawn_bounded 4 answering started).settled ≡ some (resolved (123 ∷ 125 ∷ []))
unfolding spawn_bounded hear take_errors take_output leave verdict settle trim concat
answers = refl

-- The oldest errors go first.
fails :
    (spawn_bounded 2
      (stderr (1 ∷ []) ∷ stderr (2 ∷ 3 ∷ []) ∷ exit (some 7) "" ∷ [])
      started).settled
    ≡ some (exited "7" (2 ∷ 3 ∷ []))
unfolding spawn_bounded hear take_errors leave verdict settle trim concat show
fails = refl

is_late :
    (spawn_bounded 2 (timeout true ∷ exit none "SIGKILL" ∷ []) started).settled ≡ some timed_out
unfolding spawn_bounded hear expire leave verdict settle concat
is_late = refl

-- Output that comes after the exit is lost.
loses :
    (spawn_bounded 2 (stdout (97 ∷ []) ∷ exit (some 0) "" ∷ stdout (98 ∷ []) ∷ []) started).settled
    ≡ some (resolved (97 ∷ []))
unfolding spawn_bounded hear take_output leave verdict settle concat
loses = refl

spawn_bounded-completed_example :
    (resolution (spawn_bounded 4 answering started).settled ≡ completed 4 answering [])
    × (length (concat (spawn_bounded 4 answering started).errors) ≤ 4)
spawn_bounded-completed_example = spawn_bounded-completed 4 answering
