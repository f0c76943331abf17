-- ===== src/Supervisor/Signals.antt =====
-- internal/supervisor/terminal.go: which signals are sent, in whatever order things happen.
use packer_qemu_mcp_server.Prelude.{ℕ, zero, suc, ◌+◌, ◌≤◌, ◌≡◌, refl, arith, false, List, [], ◌∷◌}
use packer_qemu_mcp_server.Supervisor.Terminal.{
  Signal, interrupt, kill, Answer, delivered, no_process, refused, Terminal, fresh, signal,
  terminate, expire_from, expire, stand_down_from, reap, close, Event, terminated, expired,
  stood_down, reaped_it, closed_it, happen, live,
}

-- How often a signal was sent.
unfoldable pub kills : List Signal → ℕ
kills [] = 0
kills (interrupt ∷ rest) = kills rest
kills (kill ∷ rest) = suc (kills rest)

unfoldable pub interrupts : List Signal → ℕ
interrupts [] = 0
interrupts (interrupt ∷ rest) = suc (interrupts rest)
interrupts (kill ∷ rest) = interrupts rest

-- Every kill, and every goroutine that may still kill, has its interrupt.
record IsFair (t : Terminal) : Type 0 where
  fair : kills t.sent ≤ interrupts t.sent
  owed : t.done ≡ false → kills t.sent + t.timers ≤ interrupts t.sent

terminate-IsFair : (a : Answer) (t : Terminal) → IsFair t → IsFair (terminate a t).0
unfolding terminate signal kills interrupts
terminate-IsFair delivered t inv = record {
  fair = ground (arith, inv.fair);
  owed = λ h. ground (arith, h, inv.fair, inv.owed);
}
terminate-IsFair no_process t inv = record {
  fair = ground (arith, inv.fair);
  owed = λ h. ground (arith, h, inv.fair, inv.owed);
}
terminate-IsFair (refused e) t inv = record {
  fair = ground (arith, inv.fair);
  owed = λ h. ground (arith, h, inv.fair, inv.owed);
}

expire_from-IsFair :
    (n : ℕ) (a : Answer) (t : Terminal) → t.timers ≡ n → IsFair t → IsFair (expire_from n a t)
unfolding expire_from signal kills interrupts
expire_from-IsFair zero a t h inv = inv
expire_from-IsFair (suc n) a t h inv = record {
  fair = ground (arith, h, inv.fair, inv.owed);
  owed = λ k. ground (arith, h, k, inv.fair, inv.owed);
}

stand_down_from-IsFair :
    (n : ℕ) (t : Terminal) → t.timers ≡ n → IsFair t → IsFair (stand_down_from n t)
unfolding stand_down_from
stand_down_from-IsFair zero t h inv = inv
stand_down_from-IsFair (suc n) t h inv = record {
  fair = ground (arith, inv.fair);
  owed = λ k. ground (arith, h, k, inv.owed);
}

close-IsFair : (t : Terminal) → IsFair t → IsFair (close t)
unfolding close
close-IsFair t inv = record {
  fair = ground (arith, inv.fair);
  owed = λ k. ground (arith, k, inv.owed);
}

happen-IsFair : (e : Event) (t : Terminal) → IsFair t → IsFair (happen e t)
unfolding happen expire reap
happen-IsFair (terminated a) t inv = terminate-IsFair a t inv
happen-IsFair (expired a) t inv = expire_from-IsFair t.timers a t refl inv
happen-IsFair stood_down t inv = stand_down_from-IsFair t.timers t refl inv
happen-IsFair reaped_it t inv = record { fair = inv.fair; owed = inv.owed }
happen-IsFair closed_it t inv = close-IsFair t inv

live-IsFair : (es : List Event) (t : Terminal) → IsFair t → IsFair (live es t)
unfolding live
live-IsFair [] t inv = inv
live-IsFair (e ∷ es) t inv = live-IsFair es (happen e t) (happen-IsFair e t inv)

-- Whatever happens to a terminal that was opened, and in whatever order, the build is killed no
-- more often than it has been interrupted.
pub live_fair : (es : List Event) → kills (live es fresh).sent ≤ interrupts (live es fresh).sent
unfolding kills interrupts fresh
live_fair es = (live-IsFair es fresh (record { fair = omega arith; owed = λ h. omega arith })).fair
