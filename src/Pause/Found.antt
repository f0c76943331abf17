-- ===== src/Pause/Found.antt =====
-- internal/pause/pause.go: `Location`, `Pause` and its methods, and the regular expression
-- `describedBootStepRE`.
use packer_qemu_mcp_server.Prelude.{
  ◌==◌, Bool, true, false, ◌&&◌, ◌||◌, [], ◌∷◌, Option, none, some, ◌>>=◌, if◌then◌else◌, Text,
  codes, is_empty, to_lower, equal_fold, has_prefix, contains, or_else,
}
use packer_qemu_mcp_server.Pause.Pattern.{eat, some_spaces, Group, after_run_of, before_cleanup_of}

-- Where in a step's lifecycle Packer paused.
pub data Location : Type 0 where
  after_run before_cleanup unknown : Location

pub record Pause : Type 0 where
  pub location : Location
  pub step : Text

-- The `switch` of `location`, over the alternatives that the pattern's group can take.
unfoldable pub location : Group → Location
location after_run_of = after_run
location before_cleanup_of = before_cleanup
location _ = unknown

abbrev pub is_after_run : Location → Bool
is_after_run after_run = true
is_after_run _ = false

abbrev pub boot_command_step : Text
boot_command_step = codes "stepTypeBootCommand"

unfoldable pub boot_step : Pause → Bool
boot_step p =
    has_prefix (to_lower p.step) (codes "boot description:")
    || has_prefix (to_lower p.step) (codes "boot_command:")

unfoldable pub ends_boot_command : Pause → Bool
ends_boot_command p = is_after_run p.location && equal_fold p.step boot_command_step

unfoldable pub interesting : Pause → Bool
unfolding boot_step
interesting p = is_after_run p.location && (boot_step p || ends_boot_command p)

-- `",\s+command:`, which ends a description.
unfoldable pub description_end : Text → Option Text
unfolding eat some_spaces
description_end s = do s1 ← eat s (codes "\","); s2 ← some_spaces s1; eat s2 (codes "command:")

abbrev is_some : Option Text → Bool
is_some none = false
is_some (some s) = true

-- `(.*)` and what follows it: the longest run of bytes other than newlines that a description's
-- end follows.
unfoldable pub description : Text → Option Text
unfolding description_end
description [] = none
description (c ∷ s) =
    let longer : Option Text = elim (description s) [ none ↦ none | some d ↦ some (c ∷ d) ] in
    let here : Option Text = if is_some (description_end (c ∷ s)) then some [] else none in
    if c == 10 then here else elim longer [ some d ↦ some d | none ↦ here ]

-- `(?i)^boot description:\s+"(.*)",\s+command:`, with the group's text.
unfoldable pub described : Text → Option Text
unfolding eat some_spaces description
described s = do
  s1 ← eat s (codes "boot description:")
  s2 ← some_spaces s1
  s3 ← eat s2 (codes "\"")
  description s3

unfoldable pub label : Pause → Text
unfolding described
label p = or_else (described p.step) p.step

unfoldable pub matches : Pause → Text → Bool
matches p asked = if is_empty asked then false else contains (to_lower (label p)) (to_lower asked)
