-- ===== src/Qmp/Exclusion.antt =====
-- internal/qmp/qmp.go: what the gate and the lock file of `acquire` are for.
use packer_qemu_mcp_server.Prelude.{ℕ, ◌≡◌, ◌≢◌, ◌⊎◌, arith, none, some}
use packer_qemu_mcp_server.Qmp.Locks.{
  outside, inside, holding, World, set_gate, set_phase, enter, lock, disown, close, leave, die,
  Step, enters, fails, locks, gives_up, releases, leaves, dies, idle, Reachable, idling, step,
}

-- Who is past the channel has it, and who holds the lock is of the process that owns it.
record IsGuarded (w : World) : Type 0 where
  gated : (q h : ℕ) → w.phases q h ≢ outside → w.gates q ≡ some h
  owned : (q h : ℕ) → w.phases q h ≡ holding → w.owner ≡ some q

enter-IsGuarded :
    (p g : ℕ) (w : World)
    → w.phases p g ≡ outside
    → w.gates p ≡ none
    → IsGuarded w
    → IsGuarded (enter p g w)
unfolding enter set_gate set_phase
enter-IsGuarded p g w here free inv = record {
  gated = λ q h past. ground (arith, inv.gated q h);
  owned = λ q h held. ground (arith, inv.owned q h);
}

leave-IsGuarded :
    (p g : ℕ) (w : World) → w.phases p g ≢ outside → IsGuarded w → IsGuarded (leave p g w)
unfolding leave set_gate set_phase
leave-IsGuarded p g w here inv = record {
  gated = λ q h past. ground (arith, inv.gated q h, inv.gated p g here);
  owned = λ q h held. ground (arith, inv.owned q h);
}

lock-IsGuarded :
    (p g : ℕ) (w : World)
    → w.phases p g ≡ inside
    → (w.owner ≡ none) ⊎ (w.owner ≡ some p)
    → IsGuarded w
    → IsGuarded (lock p g w)
unfolding lock set_phase
lock-IsGuarded p g w here free inv = record {
  gated = λ q h past. ground (arith, inv.gated q h, inv.gated p g);
  owned = λ q h held. ground (arith, inv.owned q h);
}

close-IsGuarded :
    (p g : ℕ) (w : World) → w.phases p g ≢ outside → IsGuarded w → IsGuarded (close p g w)
unfolding close disown set_phase
close-IsGuarded p g w here inv = record {
  gated = λ q h past. ground (arith, inv.gated q h, inv.gated p g here);
  owned = λ q h held. ground (arith, inv.owned q h, inv.gated q h, inv.gated p g here);
}

die-IsGuarded : (p : ℕ) (w : World) → IsGuarded w → IsGuarded (die p w)
unfolding die disown set_gate
die-IsGuarded p w inv = record {
  gated = λ q h past. ground (arith, inv.gated q h);
  owned = λ q h held. ground (arith, inv.owned q h);
}

Step-IsGuarded : {v w : World} → Step v w → IsGuarded v → IsGuarded w
Step-IsGuarded (enters {w} p g here free) inv = enter-IsGuarded p g w here free inv
Step-IsGuarded (fails {w} p g here) inv = leave-IsGuarded p g w (λ e. cc (here, e)) inv
Step-IsGuarded (locks {w} p g here free) inv = lock-IsGuarded p g w here free inv
Step-IsGuarded (gives_up {w} p g here) inv = close-IsGuarded p g w (λ e. cc (here, e)) inv
Step-IsGuarded (releases {w} p g here) inv = close-IsGuarded p g w (λ e. cc (here, e)) inv
Step-IsGuarded (leaves {w} p g here) inv = leave-IsGuarded p g w (λ e. cc (here, e)) inv
Step-IsGuarded (dies {w} p) inv = die-IsGuarded p w inv

idle-IsGuarded : IsGuarded idle
idle-IsGuarded = record {
  gated = λ q h past. ground (arith, past);
  owned = λ q h held. ground (arith, held);
}

Reachable-IsGuarded : {w : World} → Reachable w → IsGuarded w
Reachable-IsGuarded idling = idle-IsGuarded
Reachable-IsGuarded (step run s) = Step-IsGuarded s (Reachable-IsGuarded run)

-- In whatever order the goroutines of any processes take the steps of `acquire` and of what it
-- returned, run out of patience, fail or die, at most one of them holds the monitor at a time,
-- and the lock of the file belongs to the process of one that does.
pub holding_alone :
    {w : World}
    → Reachable w
    → (p g q h : ℕ) → w.phases p g ≡ holding
    → w.phases q h ≡ holding
    → (p ≡ q) × (g ≡ h) × (w.owner ≡ some p)
holding_alone {w} run p g q h here there =
    let inv = Reachable-IsGuarded run in
    ground (arith, inv.owned p g, inv.owned q h, inv.gated p g, inv.gated q h)
