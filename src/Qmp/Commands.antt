-- ===== src/Qmp/Commands.antt =====
-- internal/qmp/qmp.go: the commands of `Client`, with their arguments, and `axis`.
--
-- The machine's float64 is a parameter: what the program does with fractions is a record of
-- operations.
use packer_qemu_mcp_server.Prelude.{
  ℕ, ℤ, suc, zero, ◌/◌, ltb, Bool, true, false, List, [], ◌∷◌, Option, none, some, if◌then◌else◌,
  Text, codes,
}

pub data Event : Type 0 where
  abs : Text → ℕ → Event
  btn : Bool → Text → Event

pub data Arguments : Type 0 where
  no_arguments : Arguments
  screendump_arguments : Text → Text → Arguments
  key_arguments : List Text → Option ℕ → Arguments
  event_arguments : List Event → Arguments

pub record Command : Type 0 where
  pub execute : Text
  pub arguments : Arguments

unfoldable pub query_status : Command
query_status = record { execute = codes "query-status"; arguments = no_arguments }

unfoldable pub screendump : Text → Command
screendump path = record {
  execute = codes "screendump";
  arguments = screendump_arguments path (codes "png");
}

unfoldable pub stop : Command
stop = record { execute = codes "stop"; arguments = no_arguments }

unfoldable pub cont : Command
cont = record { execute = codes "cont"; arguments = no_arguments }

-- `SendKeys`, with the hold in nanoseconds and its argument in milliseconds.
unfoldable pub send_keys : List Text → ℕ → Command
send_keys names hold =
    let time = if ltb 0 hold then some (hold / 1000000) else none in
    record { execute = codes "send-key"; arguments = key_arguments names time }

abbrev pub abs_max : ℕ
abs_max = 32767

pub record Floats {ℓ} (F : Type ℓ) : Type ℓ where
  -- `float64(n) / float64(m)`
  pub quotient : ℤ → ℤ → F
  -- `f <= 0` and `f >= 1`
  pub at_most_zero : F → Bool
  pub at_least_one : F → Bool
  -- `int(f * absMax)`, of a fraction between the two.
  pub scaled : F → ℕ

unfoldable pub axis {ℓ} : {F : Type ℓ} → Floats F → F → ℕ
axis floats fraction =
    if floats.at_most_zero fraction
    then 0
    else if floats.at_least_one fraction
    then abs_max
    else floats.scaled fraction

-- The presses of a button, a number of times.
unfoldable pub presses : Text → ℕ → List Event
presses button zero = []
presses button (suc n) = btn true button ∷ btn false button ∷ presses button n

unfoldable pub click {ℓ} : {F : Type ℓ} → Floats F → F → F → Text → ℕ → Command
unfolding axis presses
click floats x y button times = record {
  execute = codes "input-send-event";
  arguments =
      event_arguments
        (abs (codes "x") (axis floats x) ∷ abs (codes "y") (axis floats y) ∷ presses button times);
}
