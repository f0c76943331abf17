-- ===== src/McpServer/SteeringTests.antt =====
-- A paused build that is let go of through the tool, over a codec that keeps every text.
use packer_qemu_mcp_server.Prelude.{
  ◌≡◌, ◌≤◌, ◌∷◌, refl, subst, sym, arith, true, false, none, some, [], Option, Text, codes, Outcome,
  ok, err,
}
use packer_qemu_mcp_server.Control.Messages.{Codec}
use packer_qemu_mcp_server.Control.Exchanges.{served_wire, Carries}
use packer_qemu_mcp_server.Control.Tests.{codec_of, codec_of-IsFaithful}
use packer_qemu_mcp_server.Supervisor.Machine.{Supervisor}
use packer_qemu_mcp_server.Supervisor.Handlers.{Result, nothing, state_of, resume}
use packer_qemu_mcp_server.Supervisor.Queue.{deadline, before_end, in_time, outcome, handle}
use packer_qemu_mcp_server.Supervisor.Tests.{fine, waiting}
use packer_qemu_mcp_server.Supervisor.QueueTests.{prompt}
use packer_qemu_mcp_server.Supervisor.Calls.{resume_lets_go}
use packer_qemu_mcp_server.Builds.StartTests.{ready}
use packer_qemu_mcp_server.Builds.Telling.{continue_over, refused}
use packer_qemu_mcp_server.McpServer.Tools.{Builds, continued, acted, resume_tool}
use packer_qemu_mcp_server.McpServer.Steering.{steered, Arrives, resume_tool-resume}

-- Only `nothing` is asked for here.
abbrev marshal : Result → Outcome Text Text
marshal nothing = ok (codes "null")
marshal (state_of s) = err (codes "no states here")

abbrev unmarshal : Text → Outcome Text Result
unmarshal t = err (codes "no states here")

abbrev results : Codec Result
results = codec_of marshal unmarshal

abbrev encode : Text → Outcome Text Text
encode until = ok (123 ∷ until)

abbrev pub decode : Text → Option Text
decode [] = none
decode (c ∷ until) = some until

abbrev pub socket : Text
socket = codes "/b/x/control.sock"

-- A service that lets builds carry on, and does nothing else.
abbrev pub steering : Builds Supervisor Text
steering = record {
  start = λ r s. (s, err (codes "no start"));
  list = λ all s. (s, err (codes "no list"));
  status = λ id lines s. (s, err (codes "no status"));
  wait_for_pause = λ id within lines s. (s, err (codes "no wait"));
  screenshot = λ id s. (s, err (codes "no screen"));
  send_keys = λ id text keys hold s. (s, some (codes "no keyboard"));
  click = λ id x y button times s. (s, err (codes "no mouse"));
  continue = λ id until s. (
    steered results (handle decode fine 0 prompt) (encode until) s,
    continue_over results encode (ok ready.view)
        (served_wire results (handle decode fine 0 prompt) s socket) until,
  );
  abort = λ id lines s. (s, err (codes "no abort"));
}

pub prompt_taken : 1 ≤ deadline 0
unfolding deadline
prompt_taken = omega arith

pub prompt_early : before_end 1 prompt.stopped ≡ true
unfolding before_end
prompt_early = refl

pub prompt_handled : in_time 0 prompt 1 ≡ true
unfolding in_time
prompt_handled = refl

waiting_goes : (resume fine (codes "boot") waiting).1 ≡ none
waiting_goes = (resume_lets_go fine (codes "boot") waiting refl refl).1

-- What there is to carry.
abbrev IsCarried : Option Text → Type 0
IsCarried e = Carries results (λ t. Unit) (λ t. Unit) false (outcome (ok (nothing, e)))

waiting-IsCarried : IsCarried (resume fine (codes "boot") waiting).1
waiting-IsCarried = subst IsCarried (sym waiting_goes) (codes "null", tt, refl, λ w. absurd (cc w))

waiting-Arrives :
    Arrives results
      (λ t. Unit)
      (λ t. Unit)
      (codec_of-IsFaithful marshal unmarshal)
      encode
      decode
      fine
      0
      prompt
      (codes "boot")
      (codes "{boot")
      1
      (resume fine (codes "boot") waiting).1
waiting-Arrives = record {
  encodes = refl;
  decodes = refl;
  sent = refl;
  method_string = tt;
  params_message = tt;
  taken = refl;
  taken_by = prompt_taken;
  taken_before_end = prompt_early;
  handled = prompt_handled;
  carried = waiting-IsCarried;
}

resume_tool-resume_example :
    resume_tool steering (codes "x") (codes "boot") waiting
    ≡ acted (continued (codes "x") (codes "boot")) (
      (resume fine (codes "boot") waiting).0,
      refused (codes "continue") (resume fine (codes "boot") waiting).1,
    )
resume_tool-resume_example =
    resume_tool-resume results (λ t. Unit) (λ t. Unit) (codec_of-IsFaithful marshal unmarshal)
      encode decode fine 0 prompt steering ready.view socket (codes "x") (codes "boot")
      (codes "{boot") 1 waiting (λ id until s. refl) waiting-Arrives
