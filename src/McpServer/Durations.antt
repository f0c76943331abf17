-- ===== src/McpServer/Durations.antt =====
-- internal/mcpserver/mcpserver.go: how long a wait may be asked to last.
use packer_qemu_mcp_server.Prelude.{
  ℕ, ℤ, pos, negsuc, ◌*◌, ◌≤◌, ◌<◌, ◌≡◌, refl, ap, ◌∙◌, ◌%◌, ◌-◌, ltb, inl, inr, arith, Bool-cases,
  signed64, scale64, if◌then◌else◌,
}
use packer_qemu_mcp_server.McpServer.Arguments.{default_wait, maximum_wait, second, clamp, wait_for}

-- A time that is longer than nothing and no longer than the longest wait.
abbrev pub IsWait : ℤ → Type 0
IsWait d = (w : ℕ) × (d ≡ pos w) × (0 < w) × (w ≤ maximum_wait)

clamp-IsWait : (d : ℤ) → IsWait (clamp d)
unfolding clamp
clamp-IsWait (pos n) = elim (Bool-cases (ltb 0 n)) [
  | inr h ↦ (default_wait, ground (arith, h), omega arith, omega arith)
  | inl h ↦ elim (Bool-cases (ltb maximum_wait n)) [
    | inl l ↦ (maximum_wait, ground (arith, h, l), omega arith, omega arith)
    | inr l ↦ (n, ground (arith, h, l), ground arith, ground arith)
  ]
]
clamp-IsWait (negsuc n) = (default_wait, refl, omega arith, omega arith)

signed64_low : (w : ℕ) → w < 9223372036854775808 → signed64 w ≡ pos w
unfolding signed64
signed64_low w h = ground arith

signed64_high :
    (w : ℕ) → 9223372036854775808 ≤ w → signed64 w ≡ negsuc (18446744073709551616 - w - 1)
unfolding signed64
signed64_high w h = ground arith

-- A product that 64 bits hold.
pub scale64-pos : (k n : ℕ) → n * k < 9223372036854775808 → scale64 k (pos n) ≡ pos (n * k)
unfolding scale64
scale64-pos k n h =
    let e : n * k % 18446744073709551616 ≡ n * k = omega arith in
    ap signed64 e ∙ signed64_low (n * k) h

clamp_pos : (n : ℕ) → 0 < n → clamp (pos n) ≡ pos (if ltb maximum_wait n then maximum_wait else n)
unfolding clamp
clamp_pos n h = ground arith

clamp_negsuc : (n : ℕ) → clamp (negsuc n) ≡ pos default_wait
unfolding clamp
clamp_negsuc n = refl

-- Whatever is asked, a wait lasts longer than nothing and an hour at most.
pub wait_for-IsWait : (seconds : ℤ) → IsWait (wait_for seconds)
unfolding wait_for
wait_for-IsWait seconds = clamp-IsWait (scale64 second seconds)

-- A wait that is asked to last for a number of seconds that 64 bits hold in nanoseconds lasts that
-- long, or an hour, whichever is shorter.
pub wait_for_asked :
    (n : ℕ)
    → 0 < n
    → n ≤ 9223372036
    → wait_for (pos n) ≡ pos (if ltb maximum_wait (n * second) then maximum_wait else n * second)
unfolding wait_for
wait_for_asked n h b =
    ap clamp (scale64-pos second n (omega arith)) ∙ clamp_pos (n * second) (omega arith)

-- From 9223372037 seconds to 18446744073, where the nanoseconds wrap around to a negative number, a
-- wait lasts five minutes and not an hour.
pub wait_for_overflow :
    (n : ℕ) → 9223372037 ≤ n → n ≤ 18446744073 → wait_for (pos n) ≡ pos default_wait
unfolding wait_for scale64
wait_for_overflow n h b =
    let e : n * second % 18446744073709551616 ≡ n * second = omega arith in
    ap clamp (ap signed64 e ∙ signed64_high (n * second) (omega arith))
    ∙ clamp_negsuc (18446744073709551616 - n * second - 1)
