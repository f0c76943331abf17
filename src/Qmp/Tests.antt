-- ===== src/Qmp/Tests.antt =====
-- The theorems on the monitor at concrete inputs.
use packer_qemu_mcp_server.Prelude.{
  ℕ, ◌*◌, ◌≤◌, ◌==◌, arith, Bool, ◌≡◌, refl, inl, true, false, not, ◌&&◌, ◌||◌, [], ◌∷◌, List,
  Option, none, some, Text, codes, ok,
}
use packer_qemu_mcp_server.Qmp.Commands.{Command, query_status}
use packer_qemu_mcp_server.Qmp.Locks.{
  World, idle, holding, enter, lock, set_gate, set_phase, Reachable, idling, step, enters, locks,
}
use packer_qemu_mcp_server.Qmp.Exclusion.{holding_alone}
use packer_qemu_mcp_server.Qmp.Sessions.{Session, Message, Reading, message, capabilities, converse}
use packer_qemu_mcp_server.Qmp.Runs.{Acquired, Dialling, locked, run}
use packer_qemu_mcp_server.Qmp.Polling.{pause, acquire}
use packer_qemu_mcp_server.Qmp.Turns.{acquire_ends}
use packer_qemu_mcp_server.Qmp.Blames.{
  is_busy, is_unavailable, is_late, is_early, is_some, hangs_up, run_blames,
}
use packer_qemu_mcp_server.Qmp.Talks.{talk, converse-talk, Polite, converse-Polite}

abbrev process : ℕ
process = 1

abbrev goroutine : ℕ
goroutine = 2

abbrev one_inside : World
one_inside = lock process goroutine (enter process goroutine idle)

one_inside-Reachable : Reachable one_inside
unfolding enter lock set_gate set_phase
one_inside-Reachable =
    step (step idling (enters process goroutine refl refl))
      (locks process goroutine refl (inl refl))

one_inside_holding : one_inside.phases process goroutine ≡ holding
unfolding enter lock set_gate set_phase
one_inside_holding = refl

holding_alone_example :
    (process ≡ process) × (goroutine ≡ goroutine) × (one_inside.owner ≡ some process)
holding_alone_example =
    holding_alone one_inside-Reachable process goroutine process goroutine one_inside_holding
      one_inside_holding

abbrev banner : Message
banner = record { banner = true; answer = none; error = none }

abbrev event : Message
event = record { banner = false; answer = none; error = none }

abbrev accepted : Message
accepted = record { banner = false; answer = some (codes "{}"); error = none }

abbrev running : Message
running = record { banner = false; answer = some (codes "{\"running\": true}"); error = none }

abbrev heard : Command → Option Text
heard cmd = none

abbrev incoming : List Reading
incoming = talk banner (message event ∷ []) accepted [] running (message event ∷ [])

converse-talk_example :
    converse query_status (record { incoming = incoming; sent = []; encode = heard }) ≡ (
      ok (codes "{\"running\": true}"),
      record {
        incoming = message event ∷ [];
        sent = capabilities ∷ query_status ∷ [];
        encode = heard;
      },
    )
converse-talk_example =
    converse-talk query_status heard banner accepted running (message event ∷ []) []
      (message event ∷ []) (codes "{}") (codes "{\"running\": true}") refl refl refl
      ((refl, refl), tt) (refl, refl) tt (refl, refl)

converse-Polite_example :
    Polite query_status
      (converse query_status (record { incoming = incoming; sent = []; encode = heard }))
converse-Polite_example = converse-Polite query_status incoming heard

abbrev dialled : Dialling
dialled = record { dial = none; limit = none }

abbrev session : Session
session = record { incoming = incoming; sent = []; encode = heard }

run_blames_example :
    (is_busy (run (codes "/b/x/qmp.sock") 7 (locked 8) dialled query_status session).0
      ≡ is_late 7 (locked 8))
    × (is_unavailable (run (codes "/b/x/qmp.sock") 7 (locked 8) dialled query_status session).0 ≡ (
        is_early 7 (locked 8)
        && (is_some dialled.dial || (not (is_some dialled.limit) && hangs_up session.incoming))))
run_blames_example = run_blames (codes "/b/x/qmp.sock") 7 (locked 8) dialled query_status session

-- The third asking is granted.
abbrev third : ℕ → Bool
third k = k == 2

abbrev steady : ℕ → ℕ
steady k = k * pause

acquire_ends_example :
    (a : Acquired) × (acquire 25000000 third steady 4 true none ≡ some a)
    × ((m : ℕ)
        → third m ≡ true
        → steady m ≤ 25000000
        → (j : ℕ) × (a ≡ locked (steady j)) × (steady j ≤ steady m))
acquire_ends_example = acquire_ends 25000000 3 third steady (λ j. omega arith) (omega arith)
