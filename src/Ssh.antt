-- ===== src/Ssh.antt =====
-- The run of one command over SSH, with bounded output: internal/ssh/command.go. Bytes are numbers.
-- The session is what it wrote, in pieces, and how it ended.
pub mod Output
use remnanode_setup_bot.Base.{
  ℕ, ◌+◌, ◌-◌, Bool, true, false, not, ◌||◌, Option, none, some, List, [], ◌∷◌, ◌++◌, if◌then◌else◌,
  length, take, ltb,
}

-- `limitedBuffer`.
pub record LimitedBuffer : Type 0 where
  pub content : List ℕ
  pub limit : ℕ
  pub exceeded : Bool

-- `newLimitedBuffer`.
unfoldable pub new_limited_buffer : ℕ → LimitedBuffer
new_limited_buffer limit = record { content = []; limit = limit; exceeded = false }

-- `Write`; the number of bytes that it reports is always that of `value`. The test is that of
-- `remaining < len(value)` where the difference may be negative.
unfoldable pub write : LimitedBuffer → List ℕ → LimitedBuffer
write b value =
    if ltb b.limit (length b.content + length value)
    then record b {
      content = b.content ++ take (b.limit - length b.content) value;
      exceeded = true;
    }
    else record b { content = b.content ++ value }

-- What the session writes, piece by piece.
unfoldable pub write_all : LimitedBuffer → List (List ℕ) → LimitedBuffer
unfolding write
write_all b [] = b
write_all b (value ∷ values) = write_all (write b value) values

-- What `session.Wait` returns: no error, an exit status, or an error without one.
pub data WaitResult : Type 0 where
  finished : WaitResult
  exited : ℕ → WaitResult
  lost : WaitResult

-- How the context of the command ended, if it did.
pub data Cancellation : Type 0 where
  deadline_exceeded cancelled : Cancellation

-- `cancellation` is the error of the context after the wait; `timed_out` whether the deadline came
-- before the end of the session.
pub record Session : Type 0 where
  pub stdout : List (List ℕ)
  pub stderr : List (List ℕ)
  pub cancellation : Option Cancellation
  pub timed_out : Bool
  pub waited : WaitResult

-- How far a command gets.
pub data Attempt : Type 0 where
  no_session not_begun : Attempt
  begun : Session → Attempt

pub data CommandError : Type 0 where
  not_created not_started output_limit_exceeded no_status : CommandError
  stopped : Cancellation → CommandError
  exit_status : ℕ → CommandError

-- `CommandResult`, without its duration. The exit status is `none` for -1.
pub record CommandResult : Type 0 where
  pub stdout : List ℕ
  pub stderr : List ℕ
  pub status : Option ℕ
  pub timed_out : Bool

pub record Ran : Type 0 where
  pub result : CommandResult
  pub error : Option CommandError

abbrev status_of : WaitResult → Option ℕ
status_of finished = some 0
status_of (exited status) = some status
status_of lost = none

abbrev error_of : WaitResult → Option CommandError
error_of finished = none
error_of (exited status) = some (exit_status status)
error_of lost = some no_status

-- `Run`, once the session has ended.
abbrev pub conclude :
    LimitedBuffer → LimitedBuffer → Option Cancellation → WaitResult → CommandResult → Ran
conclude out errors (some why) waited result = record {
  result = record result { status = none };
  error = some (stopped why);
}
conclude out errors none waited result = record {
  result = record result { status = status_of waited };
  error = if out.exceeded || errors.exceeded then some output_limit_exceeded else error_of waited;
}

-- What a buffer of `limit` bytes keeps of an output.
abbrev pub collected : ℕ → List (List ℕ) → LimitedBuffer
collected limit values = write_all (new_limited_buffer limit) values

abbrev pub unconcluded : LimitedBuffer → LimitedBuffer → Session → CommandResult
unconcluded out errors session = record {
  stdout = out.content;
  stderr = errors.content;
  status = some 0;
  timed_out = session.timed_out;
}

abbrev pub run_session : ℕ → ℕ → Session → Ran
run_session stdout_limit stderr_limit session =
    let out = collected stdout_limit session.stdout in
    let errors = collected stderr_limit session.stderr in
    conclude out errors session.cancellation session.waited (unconcluded out errors session)

abbrev without_output : CommandError → Ran
without_output e = record {
  result = record { stdout = []; stderr = []; status = none; timed_out = false };
  error = some e;
}

-- `Run`.
unfoldable pub run : ℕ → ℕ → Attempt → Ran
run stdout_limit stderr_limit no_session = without_output not_created
run stdout_limit stderr_limit not_begun = without_output not_started
run stdout_limit stderr_limit (begun session) = run_session stdout_limit stderr_limit session
