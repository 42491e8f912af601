-- ===== src/Protocol/HangDetector.antt =====
-- crates/protocol/src/hang_detector.rs: a call under a watchdog. What the two `select!`s of `hang_detect`
-- come to is an argument: a poll that finds the call returned, or one where only the timer is ready. A
-- `Duration` is its number of nanoseconds, and `max_duration` the greatest.
pub mod Classes
mod Tests
use mcp_loadtest.Base.{
  ℕ, ◌+◌, ◌-◌, ◌*◌, ◌≤◌, min, Bool, ltb, leb, Result, ok, err, ◌≡◌, if◌then◌else◌,
}
use mcp_loadtest.Base.Checked.{u64_limit}

module _ {ℓ κ} (CallToolResult : Type ℓ) (SessionError : Type κ) where
  pub data HangOutcome : Type (ℓ ⊔ κ) where
    returned : (result : CallToolResult) (duration : ℕ) → HangOutcome
    slow : (result : CallToolResult) (duration : ℕ) → HangOutcome
    deadlock : (hung_for : ℕ) → HangOutcome
    failed : SessionError → HangOutcome

  -- A poll of the call, which is looked at first, at the time `elapsed` since the start.
  pub data Poll : Type (ℓ ⊔ κ) where
    ready : (answer : Result SessionError CallToolResult) (elapsed : ℕ) → Poll
    slept : (elapsed : ℕ) → Poll

  -- `Duration::MAX`, in nanoseconds
  abbrev pub max_duration : ℕ
  max_duration = u64_limit * 1000000000 - 1

  abbrev pub deadlock_threshold : ℕ → ℕ → ℕ
  deadlock_threshold hang grace = min (hang + grace) max_duration

  -- The first `select!`, on an answer.
  unfoldable pub in_time : (hang grace : ℕ) → Result SessionError CallToolResult → ℕ → HangOutcome
  in_time hang grace (err e) duration = failed e
  in_time hang grace (ok result) duration =
      if ltb duration hang
      then returned result duration
      else if leb (deadlock_threshold hang grace) duration
      then deadlock duration
      else slow result duration

  -- The second `select!`.
  unfoldable pub in_grace : (hang grace : ℕ) → Poll → HangOutcome
  in_grace hang grace (ready (err e) duration) = failed e
  in_grace hang grace (ready (ok result) duration) =
      if leb (deadlock_threshold hang grace) duration
      then deadlock duration
      else slow result duration
  in_grace hang grace (slept elapsed) = deadlock elapsed

  unfoldable pub hang_detect : (hang grace : ℕ) (first second : Poll) → HangOutcome
  unfolding in_time in_grace
  hang_detect hang grace (ready answer elapsed) second = in_time hang grace answer elapsed
  hang_detect hang grace (slept elapsed) second = in_grace hang grace second
