-- ===== src/McpServer/AdapterTests.antt =====
-- A call of the tool `continue` by a client, and of a service that does nothing else.
use packer_qemu_mcp_server.Prelude.{
  ◌≡◌, ◌⊎◌, false, List, [], some, none, Text, codes, eq_text, eq_text_sound, subst, arith, inl,
  inr, Bool-cases, if◌then◌else◌, ◌∷◌, Outcome, ok, err, All,
}
use packer_qemu_mcp_server.Supervisor.Machine.{Supervisor}
use packer_qemu_mcp_server.Supervisor.Tests.{waiting}
use packer_qemu_mcp_server.McpServer.SteeringTests.{steering}
use packer_qemu_mcp_server.McpServer.Registry.{
  Decoders, Failure, Result, Tool, Lookup, IsLookup, IsIn, here, there, new, call_tool,
}
use packer_qemu_mcp_server.McpServer.Asking.{Asked, tool_names, logged, IsOneCall, IsRejected}
use packer_qemu_mcp_server.McpServer.Adapter.{call_tool-IsOneCall}

abbrev nothing_else : {A : Type 0} → Text → Outcome Text A
nothing_else text = err (codes "no such input")

abbrev decoders : Decoders
decoders = record {
  start = nothing_else;
  list = nothing_else;
  status = nothing_else;
  wait = nothing_else;
  build = nothing_else;
  keys = nothing_else;
  click = nothing_else;
  continue = λ text. ok (record { build_id = codes "x"; until_label = text });
  abort = nothing_else;
}

unfoldable find_tool : Lookup (Supervisor × List Asked) Text
find_tool name [] = none
find_tool name (t ∷ ts) =
    let rest = find_tool name ts in if eq_text t.name name then some t else rest

find_tool_found :
    (name : Text) (ts : List (Tool (Supervisor × List Asked) Text))
    (t : Tool (Supervisor × List Asked) Text)
    → find_tool name ts ≡ some t
    → IsIn t ts × (t.name ≡ name)
unfolding find_tool
find_tool_found name [] t h = cc h
find_tool_found name (u ∷ ts) t h = elim (Bool-cases (eq_text u.name name)) [
  | inl e ↦
      let first : some u ≡ some t = (rw (find_tool, e) at h) in
      let same : u ≡ t = cc first in
      subst (λ x. IsIn x (u ∷ ts) × (x.name ≡ name)) same (here, eq_text_sound u.name name e)
  | inr e ↦
      let (inside, named) = find_tool_found name ts t (rw (find_tool, e) at h) in
      (there inside, named)
]

find_tool_missing :
    (name : Text) (ts : List (Tool (Supervisor × List Asked) Text))
    → find_tool name ts ≡ none
    → All (λ t. eq_text t.name name ≡ false) ts
unfolding find_tool
find_tool_missing name [] h = tt
find_tool_missing name (u ∷ ts) h = elim (Bool-cases (eq_text u.name name)) [
  | inl e ↦ absurd (ground (arith, h, e))
  | inr e ↦ (e, find_tool_missing name ts (rw (find_tool, e) at h))
]

find_tool-IsLookup : IsLookup find_tool
find_tool-IsLookup = record { found = find_tool_found; missing = find_tool_missing }

call_tool-IsOneCall_example :
    let answer =
      call_tool find_tool
        (new decoders (logged steering) (codes "1.0"))
        (codes "continue")
        (codes "boot")
        (waiting, []) in
    ((answer ≡ none) × All (λ n. eq_text n (codes "continue") ≡ false) tool_names)
    ⊎ ((x : (Supervisor × List Asked) × Outcome (Failure Text) Result) × (answer ≡ some x)
        × (IsRejected steering waiting [] x ⊎ IsOneCall steering waiting [] (codes "continue") x))
call_tool-IsOneCall_example =
    call_tool-IsOneCall steering waiting [] find_tool decoders (codes "1.0") (codes "continue")
      (codes "boot") find_tool-IsLookup
