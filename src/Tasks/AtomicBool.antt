-- ===== src/Tasks/AtomicBool.antt =====
-- pkg/async/async.go: the atomic flag.
use cluster_turndown.Prelude.{ℕ, Bool, true, false, not, ◌==◌, if◌then◌else◌}

-- The int32 under an `AtomicBool`.
abbrev pub AtomicBool : Type 0
AtomicBool = ℕ

abbrev pub get : AtomicBool → Bool
get ab = not (ab == 0)

abbrev pub of_bool : Bool → AtomicBool
of_bool value = if value then 1 else 0

-- `CompareAndSet`: whether it was set, and the flag.
abbrev pub compare_and_set : Bool → Bool → AtomicBool → Bool × AtomicBool
compare_and_set current next ab =
    if ab == of_bool current then (true, of_bool next) else (false, ab)
