-- ===== src/McpServer/Tests.antt =====
-- The theorems on the tools at concrete inputs.
use packer_qemu_mcp_server.Prelude.{
  pos, ◌≡◌, refl, arith, false, [], literal-IsLine, none, some, Text, codes, err,
}
use packer_qemu_mcp_server.Builds.Starts.{Effects, start}
use packer_qemu_mcp_server.Builds.StartTests
use packer_qemu_mcp_server.Builds.StartTests.{service, request, template, ready, encode}
use packer_qemu_mcp_server.Supervisor.Loop
use packer_qemu_mcp_server.McpServer.Arguments.{default_wait, wait_for}
use packer_qemu_mcp_server.McpServer.Durations.{IsWait, wait_for-IsWait, wait_for_overflow}
use packer_qemu_mcp_server.Builds.Reports.{Summary}
use packer_qemu_mcp_server.McpServer.Lines.{IsPlain}
use packer_qemu_mcp_server.McpServer.Tools.{Builds, StartInput}

wait_for-IsWait_example : IsWait (wait_for (pos 100000000000))
wait_for-IsWait_example = wait_for-IsWait (pos 100000000000)

wait_for_overflow_example : wait_for (pos 10000000000) ≡ pos default_wait
wait_for_overflow_example = wait_for_overflow 10000000000 (omega arith) (omega arith)

-- A service that starts the build of the tests of the package builds, and does nothing else.
abbrev starting : Builds Effects Text
starting = record {
  start = λ r e. ((start service r ready encode).1, (start service r ready encode).0);
  list = λ all e. (e, err (codes "no list"));
  status = λ id lines e. (e, err (codes "no status"));
  wait_for_pause = λ id within lines e. (e, err (codes "no wait"));
  screenshot = λ id e. (e, err (codes "no screen"));
  send_keys = λ id text keys hold e. (e, some (codes "no keyboard"));
  click = λ id x y button times e. (e, err (codes "no mouse"));
  continue = λ id until e. (e, none);
  abort = λ id lines e. (e, err (codes "no abort"));
}

abbrev input : StartInput
input = record {
  template = codes "t.hcl";
  vars = [];
  var_files = [];
  working_dir = [];
  env = [];
  extra_args = [];
  debug = none;
  monitor_var = none;
  freeze = none;
  settle_ms = pos 250;
}

abbrev plain_summary : Summary
plain_summary = record {
  id = codes "20260102-t";
  template = codes "/t/t.hcl";
  started_at = 1;
  elapsed = codes "5s";
  step = [];
  label = [];
  paused = false;
  awaiting = codes "one\ntwo";
  frozen = false;
  finished = false;
  finished_at = 0;
  exit_code = pos 0;
}

plain_summary-IsPlain : IsPlain plain_summary
plain_summary-IsPlain = record {
  id_line = literal-IsLine plain_summary.id refl;
  elapsed_line = literal-IsLine plain_summary.elapsed refl;
  template_line = literal-IsLine plain_summary.template refl;
}
