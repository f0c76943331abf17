-- ===== src/Packertest/Scripts.antt =====
-- internal/packertest/script.go: the scripts, as texts.
use packer_qemu_mcp_server.Prelude.{◌++◌, Text, codes}

abbrev pub raw_mode : Text
raw_mode = codes "stty -icanon min 1 time 0 2>/dev/null"

abbrev pub await_answer : Text
await_answer = codes "[ $(dd bs=1 count=1 2>/dev/null | wc -c) -eq 1 ] || exit 1"

-- `Pause`, of what stands between the quotation marks behind printf.
unfoldable pub pause_script : Text → Text
pause_script prompt =
    raw_mode ++ (codes "; printf \"" ++ (prompt ++ (codes "\"; " ++ await_answer)))

-- `BootStepPause`
unfoldable pub boot_step_pause : Text → Text
unfolding pause_script
boot_step_pause label = pause_script (
    codes "==> qemu.probe: Pausing after run of step 'boot description: \\\""
    ++ (label ++ codes "\\\", command: <enter>'. Press enter to continue. "))
