-- ===== src/McpServer/Arguments.antt =====
-- internal/mcpserver/mcpserver.go: what the tools make of the numbers and names that they are given.
--
-- A Go `int` is an integer of 64 bits; a number of seconds times `time.Second` wraps around.
use packer_qemu_mcp_server.Prelude.{
  ℕ, ℤ, pos, ltb, is_positive, pos_part, scale64, not, if◌then◌else◌, Text, codes, is_empty,
}

abbrev pub default_log_lines : ℕ
default_log_lines = 40

-- `defaultWait` and `maximumWait`, in nanoseconds.
abbrev pub default_wait : ℕ
default_wait = 300000000000

abbrev pub maximum_wait : ℕ
maximum_wait = 3600000000000

abbrev pub second : ℕ
second = 1000000000

abbrev pub millisecond : ℕ
millisecond = 1000000

abbrev pub default_button : Text
default_button = codes "left"

-- `logLines`
unfoldable pub log_lines : ℤ → ℤ
log_lines asked = if is_positive asked then asked else pos default_log_lines

-- The `switch` of `waitFor`, on a duration.
unfoldable pub clamp : ℤ → ℤ
clamp asked =
    if not (is_positive asked)
    then pos default_wait
    else if ltb maximum_wait (pos_part asked)
    then pos maximum_wait
    else asked

-- `waitFor`
unfoldable pub wait_for : ℤ → ℤ
unfolding clamp
wait_for seconds = clamp (scale64 second seconds)

-- `button`
unfoldable pub button : Text → Text
button asked = if is_empty asked then default_button else asked

-- `times`
unfoldable pub times : ℤ → ℤ
times asked = if is_positive asked then asked else pos 1
