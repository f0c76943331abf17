-- ===== src/McpServer/Manuals.antt =====
-- internal/mcpserver/mcpserver.go: what the tools say of themselves to an agent, in lines.
use packer_qemu_mcp_server.Prelude.{List, [], ◌∷◌, ◌++◌, Text, codes, join}

-- A dash, in the bytes of its encoding.
abbrev dash : Text
dash = 226 ∷ 128 ∷ 148 ∷ []

abbrev lines : List Text → Text
lines ts = join ts (codes "\n")

unfoldable pub start_build_text : Text
start_build_text = lines (
    codes "Start a Packer build of a QEMU template, detached, and return its build id."
    ∷ []
    ∷ codes "The build outlives this server: it keeps running across a reload or a crash,"
    ∷ codes "and is found again through list_builds. Under -debug, which is on by default,"
    ∷ (codes "the harness answers the pauses nobody wants to step through "
        ++ (dash ++ codes " downloading an"))
    ∷ (codes "ISO, creating a disk "
        ++ (dash ++ codes " and stops at each entry of boot_steps, freezing the"))
    ∷ codes "guest while it waits so that no boot menu counts down while you think."
    ∷ []
    ∷ codes "The template must open a monitor socket of its own, because Packer holds the"
    ∷ codes "one it opens itself:"
    ∷ []
    ∷ codes "  variable \"qmp_socket\" { type = string }"
    ∷ codes "  qemuargs = [[\"-qmp\", \"unix:${var.qmp_socket},server=on,wait=off\"]]"
    ∷ []
    ∷ codes "The path is passed as the qmp_socket variable; monitor_var renames it, and an"
    ∷ codes "empty monitor_var passes nothing. Without it there are no screenshots."
    ∷ []
    ∷ codes "Add -device usb-tablet to qemuargs if you want to click at the guest: the"
    ∷ codes "default PS/2 mouse reports movements, and click needs a device that reports a"
    ∷ codes "position."
    ∷ []
    ∷ codes "Call status next: a template Packer refuses will show up there, along with the"
    ∷ codes "path of Packer's own log, which is the only place QEMU's own messages appear."
    ∷ [])

unfoldable pub list_builds_text : Text
list_builds_text = lines (
    codes "List the builds on this host, most recently started first, including builds"
    ∷ codes "started by an earlier session of this server."
    ∷ []
    ∷ codes "Builds that finished more than a day ago are left out unless all is set: a"
    ∷ codes "host keeps every build it has ever run."
    ∷ [])

unfoldable pub status_text : Text
status_text = lines (
    codes "Report where a build got to: the last pause it reached, whether it is waiting"
    ∷ codes "there or running forward to a named step, what the emulator says about the"
    ∷ codes "guest, and the last lines of its terminal."
    ∷ []
    ∷ codes "last_pause is the pause the build last answered, not the step it is running"
    ∷ codes "now: under -debug a step is announced as it finishes, so the build is always"
    ∷ codes "somewhere past it. The log is the live view."
    ∷ []
    ∷ (codes "guest is the emulator's own word "
        ++ (dash ++ codes " running, paused, not started before Packer"))
    ∷ codes "has started the virtual machine, gone once it has stopped, busy if something"
    ∷ codes "else is holding the monitor for a moment."
    ∷ []
    ∷ codes "packer_log is the path of Packer's log. QEMU's messages go there and nowhere"
    ∷ codes "else, so a virtual machine that refuses to start is explained in that file and"
    ∷ codes "in no other."
    ∷ []
    ∷ codes "A build that is paused stays paused, and its guest stays frozen, until you"
    ∷ codes "call continue or abort."
    ∷ [])

unfoldable pub wait_for_pause_text : Text
wait_for_pause_text = lines (
    codes "Wait until a build stops at a pause, or finishes, and report where it got to."
    ∷ []
    ∷ (codes "This is how to sit out the long stretches "
        ++ (dash ++ codes " an installer copying files for ten"))
    ∷ (codes "minutes, a step that ends in <wait60s> "
        ++ (dash ++ codes " without spending a turn on each poll"))
    ∷ codes "of status. Running out of time is not an error: the report says whether the"
    ∷ codes "build is paused, so waiting again is the way to keep waiting."
    ∷ [])

unfoldable pub screenshot_text : Text
screenshot_text = lines (
    codes "Photograph the guest's screen and return the path of a PNG file to read."
    ∷ []
    ∷ codes "At a boot step pause this is the screen as that step finished. Usually it"
    ∷ codes "already shows what the step's keystrokes did: Packer leaves one key interval"
    ∷ codes "(100ms by default) after the last keystroke before it announces the pause, and"
    ∷ codes "a guest that is keeping up has redrawn by then. On a slow or busy guest it may"
    ∷ codes "instead be the screen those keystrokes landed on. Read it as the end of the"
    ∷ (codes "step, and do not assume either way "
        ++ (dash ++ codes " settle_ms at start_build widens the gap"))
    ∷ codes "if a guest is consistently caught mid-redraw."
    ∷ []
    ∷ codes "This works whenever the virtual machine is running, not only at a pause, and"
    ∷ codes "it is the main way to see an installation that is under way: under emulation"
    ∷ codes "the installation happens inside a single Packer step, waiting for SSH, where"
    ∷ codes "-debug offers no pause at all. Taking a screenshot never changes whether the"
    ∷ codes "guest is running."
    ∷ []
    ∷ codes "It fails before Packer has started the virtual machine, and on a template with"
    ∷ codes "no graphics device, where there is no framebuffer to read."
    ∷ [])

unfoldable pub send_keys_text : Text
send_keys_text = lines (
    codes "Type at the guest, through the emulated keyboard."
    ∷ []
    ∷ codes "This asks a question of a running installation without rebuilding it: open a"
    ∷ codes "console and run a command, answer a prompt, escape a menu that went the wrong"
    ∷ codes "way. Nothing has to be running inside the guest for it to work, and it works"
    ∷ (codes "where nothing else can be asked anything "
        ++ (dash ++ codes " a boot loader, an installer, a"))
    ∷ codes "kernel that has not finished booting."
    ∷ []
    ∷ codes "text is typed character by character on a US keyboard. keys are named keys and"
    ∷ codes "combinations, sent after the text: \"down\", \"ret\", \"ctrl+alt+f2\", \"f12\". Give"
    ∷ codes "either, or both."
    ∷ []
    ∷ codes "The guest has to be running: a frozen guest reads nothing, so continue the"
    ∷ codes "build first. This types into whatever has keyboard focus, exactly as a person"
    ∷ (codes "at the machine would, and the guest cannot tell the difference "
        ++ (dash ++ codes " including"))
    ∷ codes "that it may confuse a boot command Packer is in the middle of typing."
    ∷ [])

unfoldable pub click_text : Text
click_text = lines (
    codes "Press a mouse button at a point on the guest's screen, in pixels of the"
    ∷ codes "screenshot the point was read off."
    ∷ []
    ∷ codes "The screen is photographed first, both to measure it and to leave a record of"
    ∷ codes "what was clicked on; the capture is returned along with its size, so a click"
    ∷ codes "that missed can be seen to have missed."
    ∷ []
    ∷ (codes "This needs a template with an absolute pointing device "
        ++ (dash ++ codes " -device usb-tablet in"))
    ∷ codes "qemuargs, or the virtio equivalent. The default PS/2 mouse reports movements"
    ∷ codes "rather than positions and cannot be told to go anywhere."
    ∷ [])

unfoldable pub continue_text : Text
continue_text = lines (
    codes "Let a paused build carry on, resuming the guest first so that the keystrokes"
    ∷ codes "Packer is about to type reach a guest that can consume them."
    ∷ []
    ∷ codes "until_label runs the build forward to a named boot step instead of stopping at"
    ∷ codes "the next one, answering every pause on the way and freezing at the one you"
    ∷ codes "named. An installer's boot command can be sixty steps long, so this is how you"
    ∷ codes "get to the step you care about. Matching is on any part of the step's label,"
    ∷ codes "ignoring case. If no step matches, the build stops at the end of the boot"
    ∷ codes "command rather than running on into the wait for SSH, and says so."
    ∷ []
    ∷ codes "Every boot step passed on the way is photographed, without stopping at it, and"
    ∷ codes "status reports the trail. A desync begins at one step and is noticed at"
    ∷ codes "another, so that trail is how you find which of the fifty skipped steps went"
    ∷ codes "wrong rather than only that something did."
    ∷ []
    ∷ codes "This returns as soon as the build is moving, and fails if the build is not at"
    ∷ (codes "a pause to be let go of "
        ++ (dash ++ codes " routine while a step that ends in <wait30s> is still"))
    ∷ codes "running. Use wait_for_pause to be told when it arrives rather than polling for"
    ∷ codes "it."
    ∷ [])

unfoldable pub abort_text : Text
abort_text = lines (
    codes "Stop a build, resuming its guest first so that no virtual machine is left"
    ∷ codes "frozen, and report where it had got to."
    ∷ []
    ∷ codes "This waits for the build to be gone before returning. Packer deletes its"
    ∷ codes "output directory on the way out, and a build started into that directory while"
    ∷ codes "the previous one is still deleting it fails to launch, complaining about QEMU"
    ∷ codes "rather than about the race it lost."
    ∷ [])
