-- ===== src/Protocol/HangDetector/Classes.antt =====
-- How long a call has taken that `hang_detect` (crates/protocol/src/hang_detector.rs) puts in a class.
use mcp_loadtest.Base.{
  ℕ, ◌+◌, ◌≤◌, ◌<◌, Result, ok, err, ◌≡◌, ◌⊎◌, inl, inr, arith, refl, Bool-cases, ltb, leb,
}
use mcp_loadtest.Protocol.HangDetector.{
  HangOutcome, returned, slow, deadlock, failed, Poll, ready, slept, deadlock_threshold,
  hang_detect,
}

module _ {ℓ κ} {R : Type ℓ} {E : Type κ} where
  -- `sleep` is ready only after its time, and the clock never goes back.
  abbrev pub Timed : (hang grace : ℕ) (first second : Poll R E) → Type 0
  Timed hang grace (ready answer elapsed) second = Unit
  Timed hang grace (slept timer) (ready answer elapsed) = (hang ≤ timer) × (timer ≤ elapsed)
  Timed hang grace (slept timer) (slept elapsed) = (hang ≤ timer) × (timer + grace ≤ elapsed)

  -- What the call came to before the watchdog gave up on it, and when.
  pub data Ended (first second : Poll R E) : Result E R → ℕ → Type (ℓ ⊔ κ) where
    at_once : (a : Result E R) (t : ℕ) → first ≡ ready a t → Ended first second a t
    in_the_end :
        (a : Result E R) (t timer : ℕ)
        → first ≡ slept timer
        → second ≡ ready a t
        → Ended first second a t

  -- A class says how the call ended and within which bounds.
  abbrev pub Class : (hang grace : ℕ) (first second : Poll R E) → HangOutcome R E → Type (ℓ ⊔ κ)
  Class hang grace first second (returned result t) = Ended first second (ok result) t × (t < hang)
  Class hang grace first second (slow result t) =
      Ended first second (ok result) t × (hang ≤ t) × (t < deadlock_threshold R E hang grace)
  Class hang grace first second (deadlock t) =
      (deadlock_threshold R E hang grace ≤ t)
      × (((r : R) × Ended first second (ok r) t)
          ⊎ ((timer : ℕ) × (first ≡ slept timer) × (second ≡ slept t)))
  Class hang grace first second (failed e) = (t : ℕ) × Ended first second (err e) t

  in_time-Class :
      (hang grace : ℕ) (a : Result E R) (t : ℕ) (second : Poll R E)
      → Class hang grace (ready a t) second (hang_detect R E hang grace (ready a t) second)
  unfolding hang_detect
  in_time-Class hang grace (err e) t second = (t, at_once (err e) t refl)
  in_time-Class hang grace (ok r) t second = elim (Bool-cases (ltb t hang)) [
    | inl quick ↦ rw quick (at_once (ok r) t refl, ground arith)
    | inr late ↦ elim (Bool-cases (leb (deadlock_threshold R E hang grace) t)) [
      | inl over ↦ rw (late, over) (ground arith, inl (r, at_once (ok r) t refl))
      | inr under ↦ rw (late, under) (at_once (ok r) t refl, ground arith, ground arith)
    ]
  ]

  in_grace-Class :
      (hang grace timer : ℕ) (second : Poll R E)
      → Timed hang grace (slept timer) second
      → Class hang grace (slept timer) second (hang_detect R E hang grace (slept timer) second)
  unfolding hang_detect
  in_grace-Class hang grace timer (ready (err e) t) w = (t, in_the_end (err e) t timer refl refl)
  in_grace-Class hang grace timer (ready (ok r) t) w =
      elim (Bool-cases (leb (deadlock_threshold R E hang grace) t)) [
        | inl over ↦ rw over (ground arith, inl (r, in_the_end (ok r) t timer refl refl))
        | inr under ↦ rw under (in_the_end (ok r) t timer refl refl, ground arith, ground arith)
      ]
  in_grace-Class hang grace timer (slept t) w = (ground arith, inr (timer, refl, refl))

  -- If the timers are never early, a call is called returned only if it succeeded in less than the
  -- threshold, slow only if it succeeded at or after it and before the end of the grace period,
  -- deadlocked only at or after that end, whether it has then succeeded or not, and failed only if it
  -- returned an error.
  pub hang_detect-Class :
      (hang grace : ℕ) (first second : Poll R E)
      → Timed hang grace first second
      → Class hang grace first second (hang_detect R E hang grace first second)
  hang_detect-Class hang grace (ready a t) second w = in_time-Class hang grace a t second
  hang_detect-Class hang grace (slept timer) second w = in_grace-Class hang grace timer second w
