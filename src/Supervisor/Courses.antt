-- ===== src/Supervisor/Courses.antt =====
-- internal/supervisor/supervisor.go: the three things that `reached` can come to.
use packer_qemu_mcp_server.Prelude.{
  ◌≡◌, refl, Bool, true, false, [], arith, codes, ◌++◌, quote, is_empty, Bool-cases, inl, inr,
}
use packer_qemu_mcp_server.Pause.Found.{Pause, label, interesting, matches, ends_boot_command}
use packer_qemu_mcp_server.Supervisor.Machine.{
  Answers, Supervisor, pass, photograph, publish, take_hold, running_past, stop_awaiting, note,
}
use packer_qemu_mcp_server.Supervisor.Handlers.{with_pause, go_past, reached}

-- What a supervisor is when it stops at a pause, before it holds the guest.
pub record Halts (p : Pause) (s t : Supervisor) : Type 0 where
  pub halts_paused : t.state.paused ≡ true
  pub halts_awaiting : t.state.awaiting ≡ []
  pub halts_label : t.state.label ≡ label p
  pub halts_step : t.state.step ≡ p.step
  pub halts_trail : t.state.trail ≡ s.state.trail
  pub halts_finished : t.state.finished ≡ s.state.finished
  pub halts_frozen : t.state.frozen ≡ s.state.frozen
  pub halts_guest : t.guest ≡ s.guest
  pub halts_freezing : t.freezing ≡ s.freezing
  pub halts_done : t.done ≡ s.done

-- Whether the caller's step is still ahead.
abbrev pub IsAhead : Pause → Supervisor → Type 0
IsAhead p s =
    (is_empty s.state.awaiting ≡ false)
    × (matches p s.state.awaiting ≡ false)
    × (ends_boot_command p ≡ false)

pub data Course (o : Answers) (p : Pause) (s : Supervisor) : Type 0 where
  dull : interesting p ≡ false → reached o p s ≡ pass o (with_pause p s) → Course o p s
  past :
      interesting p ≡ true
      → IsAhead p s
      → reached o p s ≡ pass o (photograph o p (with_pause p s))
      → Course o p s
  stop :
      interesting p ≡ true
      → ¬ IsAhead p s
      → (t : Supervisor) → Halts p s t
      → reached o p s ≡ publish o.now (take_hold o t)
      → Course o p s

reached_dull :
    (o : Answers) (p : Pause) (s : Supervisor)
    → interesting p ≡ false
    → reached o p s ≡ pass o (with_pause p s)
unfolding reached
reached_dull o p s h = rw h refl

reached_go :
    (o : Answers) (p : Pause) (s t : Supervisor) (b : Bool)
    → interesting p ≡ true
    → running_past p (with_pause p s) ≡ (t, b)
    → reached o p s ≡ go_past o p (t, b)
unfolding reached
reached_go o p s t b h e = rw (h, e) refl

abbrev halt : Supervisor → Supervisor
halt t = record t { state = record (t.state) { paused = true } }

stop-Course :
    (o : Answers) (p : Pause) (s t : Supervisor)
    → interesting p ≡ true
    → ¬ IsAhead p s
    → running_past p (with_pause p s) ≡ (t, false)
    → Halts p s (halt t)
    → Course o p s
unfolding go_past
stop-Course o p s t h a e halts = stop h a (halt t) halts (reached_go o p s t false h e)

pub course : (o : Answers) (p : Pause) (s : Supervisor) → Course o p s
unfolding running_past go_past
course o p s = elim (Bool-cases (interesting p)) [
  | inr h ↦ dull h (reached_dull o p s h)
  | inl h ↦ elim (Bool-cases (is_empty s.state.awaiting)) [
    | inl e ↦ stop-Course o p s (with_pause p s) h (λ a. cc (a.0)) (rw e refl) (ground arith)
    | inr e ↦ elim (Bool-cases (matches p s.state.awaiting)) [
      | inl e1 ↦
          stop-Course o p s (stop_awaiting (with_pause p s)) h (λ a. cc (a.1)) (rw (e, e1) refl)
            (ground arith)
      | inr e1 ↦ elim (Bool-cases (ends_boot_command p)) [
        | inl e2 ↦
            stop-Course o p s
              (stop_awaiting (
                note (codes "the boot command ended without reaching " ++ quote s.state.awaiting)
                  (with_pause p s)))
              h (λ a. cc (a.2)) (rw (e, e1, e2) refl) (ground arith)
        | inr e2 ↦
            past h (e, e1, e2) (reached_go o p s (with_pause p s) true h (rw (e, e1, e2) refl))
      ]
    ]
  ]
]
