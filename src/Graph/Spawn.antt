-- ===== src/Graph/Spawn.antt =====
-- src/call-executor.ts: `spawnBounded`, as a state that the signals of the child process and the timer
-- change. A chunk is its bytes. The listeners
-- that `once` adds hear only the first exit and the first error; a further error of the child, which
-- nothing would catch, is taken as no change.
use superset_agent_orchestra.Base.{
  ℕ, ◌+◌, ◌-◌, String, show, Bool, true, false, not, Option, none, some, List, [], ◌∷◌, ◌++◌,
  length, ltb, ◌==◌, if◌then◌else◌, string_eq, nat_eq,
}

abbrev pub Chunk : Type 0
Chunk = List ℕ

-- What is heard: data, the timer, which says whether the kill that it tries succeeds, an error of the
-- child, its exit with a code or a signal, and an error of its standard input.
pub data Signal : Type 0 where
  stderr stdout : List ℕ → Signal
  timeout : Bool → Signal
  error : String → Signal
  exit : Option ℕ → String → Signal
  stdin_error : String → Signal

-- How the promise settles; an output stands for its text.
pub data Settlement : Type 0 where
  resolved : List ℕ → Settlement
  timed_out output_too_long unterminated : Settlement
  exited : String → List ℕ → Settlement
  failed : String → Settlement

pub record Child : Type 0 where
  pub errors : List (List ℕ)
  pub output : List (List ℕ)
  pub error_bytes : ℕ
  pub output_bytes : ℕ
  pub output_exceeded : Bool
  pub timed_out : Bool
  pub armed : Bool
  pub listening : Bool
  pub settled : Option Settlement

abbrev pub started : Child
started = record {
  errors = [];
  output = [];
  error_bytes = 0;
  output_bytes = 0;
  output_exceeded = false;
  timed_out = false;
  armed = true;
  listening = true;
  settled = none;
}

-- `Buffer.concat`
unfoldable pub concat : List (List ℕ) → List ℕ
concat [] = []
concat (c ∷ cs) = c ++ concat cs

abbrev pub first : Option Settlement → Settlement → Option Settlement
first none s = some s
first (some old) s = some old

-- A promise that has settled stays as it is.
unfoldable pub settle : Settlement → Child → Child
settle s c = record c { settled = first c.settled s }

-- The loop that drops the oldest chunks of the errors.
unfoldable pub trim : ℕ → ℕ → List (List ℕ) → ℕ × List (List ℕ)
trim limit bytes [] = (bytes, [])
trim limit bytes (c ∷ cs) =
    let rest = trim limit (bytes - length c) cs in if ltb limit bytes then rest else (bytes, c ∷ cs)

abbrev pub exit_text : Option ℕ → String → String
exit_text none signal = signal
exit_text (some code) signal = show code

abbrev pub is_zero : Option ℕ → Bool
is_zero none = false
is_zero (some code) = code == 0

unfoldable pub expire : Bool → Child → Child
unfolding settle
expire killed c =
    let late = record c { timed_out = true; armed = false } in
    if not c.armed then c else if killed then late else settle unterminated late

-- What the exit of the child settles the promise with.
unfoldable pub verdict : Option ℕ → String → Child → Settlement
unfolding concat
verdict code signal c =
    if c.timed_out
    then timed_out
    else if c.output_exceeded
    then output_too_long
    else if is_zero code
    then resolved (concat c.output)
    else exited (exit_text code signal) (concat c.errors)

unfoldable pub leave : Option ℕ → String → Child → Child
unfolding settle verdict
leave code signal c =
    if c.listening
    then settle (verdict code signal c) (record c { armed = false; listening = false })
    else c

module _ (max_bytes : ℕ) where
  unfoldable pub take_errors : List ℕ → Child → Child
  unfolding trim
  take_errors chunk c =
      let (bytes, errors) =
        trim max_bytes (c.error_bytes + length chunk) (c.errors ++ chunk ∷ []) in
      record c { error_bytes = bytes; errors = errors }

  unfoldable pub take_output : List ℕ → Child → Child
  take_output chunk c =
      let bytes = c.output_bytes + length chunk in
      if ltb max_bytes bytes
      then record c { output_bytes = bytes; output_exceeded = true }
      else record c { output_bytes = bytes; output = c.output ++ chunk ∷ [] }

  unfoldable pub hear : Signal → Child → Child
  unfolding take_errors take_output expire leave settle
  hear (stderr chunk) c = take_errors chunk c
  hear (stdout chunk) c = take_output chunk c
  hear (timeout killed) c = expire killed c
  hear (error message) c = settle (failed message) c
  hear (exit code signal) c = leave code signal c
  hear (stdin_error code) c = if code == "EPIPE" then c else settle (failed code) c

  unfoldable pub spawn_bounded : List Signal → Child → Child
  unfolding hear
  spawn_bounded [] c = c
  spawn_bounded (s ∷ ss) c = spawn_bounded ss (hear s c)
