-- ===== src/Execution/Limits/Marks.antt =====
-- The life of an execution in internal/domain/execution.go: it is marked running, then finished.
use runtime_service.Base.{
  saturated, ℕ, ◌+◌, ◌*◌, ◌≤◌, ◌<◌, ◌≡◌, refl, true, ℤ, pos, pos_part, ◌-ℤ◌, ◌≤ℤ◌, ◌∙◌, ap, ◌/◌,
  some, Text, arith,
}
use runtime_service.Execution.Limits.{
  status_is_terminal, Execution, mark_running, mark_completed, mark_failed, mark_timeout,
  milliseconds,
}

-- Finished at an instant, after running on a VM for the milliseconds between the two instants,
-- rounded down, with the identity and the code unchanged.
abbrev pub IsFinished : ℤ → ℤ → ℕ → Execution → Execution → Type 0
IsFinished started now vm e f =
    (status_is_terminal f.status ≡ true)
    × (f.id ≡ e.id)
    × (f.code ≡ e.code)
    × (f.vm_id ≡ some vm)
    × (f.started_at ≡ some started)
    × (f.completed_at ≡ some now)
    × ((ms : ℕ) × (f.duration_ms ≡ some (pos ms))
        × (ms * 1000000 ≤ pos_part (now -ℤ started))
        × (pos_part (now -ℤ started) < (ms + 1) * 1000000))

forward : (started now : ℤ) → started ≤ℤ now → now -ℤ started ≡ pos (pos_part (now -ℤ started))
unfolding ◌-ℤ◌
forward started now h = ground arith

exact : (n : ℕ) → n ≤ 9223372036854775807 → milliseconds (saturated (pos n)) ≡ pos (n / 1000000)
exact n h = ground arith

finished :
    (e f : Execution) (started now : ℤ) (vm : ℕ)
    → started ≤ℤ now
    → pos_part (now -ℤ started) ≤ 9223372036854775807
    → status_is_terminal f.status ≡ true
    → f.id ≡ e.id
    → f.code ≡ e.code
    → f.vm_id ≡ some vm
    → f.started_at ≡ some started
    → f.completed_at ≡ some now
    → f.duration_ms ≡ some (milliseconds (saturated (now -ℤ started)))
    → IsFinished started now vm e f
finished e f started now vm order fits s i c v b d ms =
    let n : ℕ = pos_part (now -ℤ started) in
    let value : f.duration_ms ≡ some (pos (n / 1000000)) =
      ms
      ∙ ap (λ z. some (milliseconds (saturated z))) (forward started now order)
      ∙ ap some (exact n fits) in
    (s, i, c, v, b, d, (n / 1000000, value, omega arith, omega arith))

-- An execution that starts on a VM, and that is later marked completed, failed or timed out, is in a
-- terminal status, keeps its id, its code and its VM, and has as its duration the whole milliseconds
-- between the two instants, if these are no more than 2^63 - 1 nanoseconds apart.
marks-IsFinished :
    (e : Execution) (started now : ℤ) (vm : ℕ) (exit : ℤ) (message out errors : Text)
    → started ≤ℤ now
    → pos_part (now -ℤ started) ≤ 9223372036854775807
    → IsFinished started now vm e (mark_completed now exit out errors (mark_running started vm e))
      × IsFinished started now vm e
          (mark_failed now message exit out errors (mark_running started vm e))
      × IsFinished started now vm e (mark_timeout now out errors (mark_running started vm e))
unfolding mark_running mark_completed mark_failed mark_timeout status_is_terminal
marks-IsFinished e started now vm exit message out errors order fits =
    let running_e = mark_running started vm e in
    (
      finished e (mark_completed now exit out errors running_e) started now vm order fits refl refl
          refl refl refl refl refl,
      finished e (mark_failed now message exit out errors running_e) started now vm order fits refl
          refl refl refl refl refl refl,
      finished e (mark_timeout now out errors running_e) started now vm order fits refl refl refl
          refl refl refl refl,
    )
