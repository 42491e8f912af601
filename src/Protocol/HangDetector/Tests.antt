-- ===== src/Protocol/HangDetector/Tests.antt =====
-- Thresholds of 100 ms and 500 ms (as in the tests of crates/protocol/src/hang_detector.rs).
use mcp_loadtest.Base.{ℕ, ok, String, ◌≡◌, refl, arith}
use mcp_loadtest.Protocol.HangDetector.{Poll, ready, slept, slow, deadlock, hang_detect}
use mcp_loadtest.Protocol.HangDetector.Classes.{Class, hang_detect-Class}

abbrev timer : Poll ℕ String
timer = slept 100000000

abbrev late : Poll ℕ String
late = ready (ok 7) 250000000

late_is_slow : hang_detect ℕ String 100000000 500000000 timer late ≡ slow 7 250000000
unfolding hang_detect
late_is_slow = refl

-- A stalled executor: the call is found returned, after the grace period.
stalled :
    hang_detect ℕ String 100000000 500000000 (ready (ok 7) 700000000) late ≡ deadlock 700000000
unfolding hang_detect
stalled = refl

hang_detect-Class_example :
    Class 100000000 500000000 timer late (hang_detect ℕ String 100000000 500000000 timer late)
hang_detect-Class_example = hang_detect-Class 100000000 500000000 timer late (omega arith)
