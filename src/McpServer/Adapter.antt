-- ===== src/McpServer/Adapter.antt =====
-- internal/mcpserver/mcpserver.go: every tool is one call into the build service.
use packer_qemu_mcp_server.Prelude.{
  scale64, ◌≡◌, ◌⊎◌, inl, inr, refl, false, List, none, some, Text, codes, eq_text, subst, Outcome,
  Outcome-cases, Option-cases, All,
}
use packer_qemu_mcp_server.McpServer.Arguments.{log_lines, wait_for, button, times, millisecond}
use packer_qemu_mcp_server.McpServer.Descriptions.{listing}
use packer_qemu_mcp_server.McpServer.Tools.{
  Builds, StartInput, request_of, started as started_answer, described, typed,
  clicked as clicked_answer, photographed, continued, aborted, start_tool, list_tool, status_tool,
  wait_tool, send_keys_tool, click_tool, screenshot_tool, resume_tool, abort_tool,
}
use packer_qemu_mcp_server.McpServer.Registry.{
  ListInput, StatusInput, WaitInput, BuildInput, KeysInput, ClickInput, ContinueInput, AbortInput,
  Decoders, started, listed, reported, captured, done, clicked, Result, Failure, Handler, Tool,
  said, taking, tools_of, new, Lookup, IsIn, here, there, IsLookup, call_tool,
}
use packer_qemu_mcp_server.McpServer.Asking.{
  Asked, start, list, status, wait_for_pause, screenshot, send_keys, click, continue, abort,
  tool_of, tool_names, ask, logged, IsOneCall, IsRejected, answered-IsOneCall, acted-IsOneCall,
}

module _ {ℓ κ} {S : Type ℓ} {E : Type κ} (b : Builds S E) (s : S) (log : List Asked) where
  -- What holds of a handler that takes its arguments and asks the service one thing.
  abbrev IsAdapter : Text → Handler (S × List Asked) E → Type (ℓ ⊔ κ)
  IsAdapter tool handler =
      (text : Text)
      → IsRejected b s log (handler text (s, log)) ⊎ IsOneCall b s log tool (handler text (s, log))

  taking-IsAdapter {ι} :
      {In : Type ι} (tool : Text) (decode : Text → Outcome Text In)
      (run : In → S × List Asked → (S × List Asked) × Outcome (Failure E) Result)
      → ((i : In) → IsOneCall b s log tool (run i (s, log)))
      → IsAdapter tool (taking decode run)
  unfolding taking
  taking-IsAdapter tool decode run h text = elim (Outcome-cases (decode text)) [
    | inl (i, e) ↦ inr (rw (taking, e) (h i))
    | inr (e, e1) ↦ inl (rw (taking, e1) (record { reason = e; idle = refl }))
  ]

  start_tool-IsOneCall :
      (i : StartInput)
      → IsOneCall b s log (codes "start_build") (said started (start_tool (logged b) i (s, log)))
  unfolding start_tool ask tool_of
  start_tool-IsOneCall i =
      answered-IsOneCall b s log started started_answer (start (request_of i))
        (b.start (request_of i) s) refl

  list_tool-IsOneCall :
      (i : ListInput)
      → IsOneCall b s log (codes "list_builds") (said listed (list_tool (logged b) i.all (s, log)))
  unfolding list_tool ask tool_of
  list_tool-IsOneCall i =
      answered-IsOneCall b s log listed (λ found. (listing found, found)) (list i.all)
        (b.list i.all s) refl

  status_tool-IsOneCall :
      (i : StatusInput)
      → IsOneCall b s log
          (codes "status")
          (said reported (status_tool (logged b) i.build_id i.log_lines (s, log)))
  unfolding status_tool ask tool_of
  status_tool-IsOneCall i =
      answered-IsOneCall b s log reported described (status i.build_id (log_lines i.log_lines))
        (b.status i.build_id (log_lines i.log_lines) s) refl

  wait_tool-IsOneCall :
      (i : WaitInput)
      → IsOneCall b s log
          (codes "wait_for_pause")
          (said reported (wait_tool (logged b) i.build_id i.seconds i.log_lines (s, log)))
  unfolding wait_tool ask tool_of
  wait_tool-IsOneCall i =
      answered-IsOneCall b s log reported described
        (wait_for_pause i.build_id (wait_for i.seconds) (log_lines i.log_lines))
        (b.wait_for_pause i.build_id (wait_for i.seconds) (log_lines i.log_lines) s) refl

  screenshot_tool-IsOneCall :
      (i : BuildInput)
      → IsOneCall b s log
          (codes "screenshot")
          (said captured (screenshot_tool (logged b) i.build_id (s, log)))
  unfolding screenshot_tool ask tool_of
  screenshot_tool-IsOneCall i =
      answered-IsOneCall b s log captured (photographed i.build_id) (screenshot i.build_id)
        (b.screenshot i.build_id s) refl

  send_keys_tool-IsOneCall :
      (i : KeysInput)
      → IsOneCall b s log
          (codes "send_keys")
          (said done (send_keys_tool (logged b) i.build_id i.text i.keys i.hold_ms (s, log)))
  unfolding send_keys_tool ask tool_of
  send_keys_tool-IsOneCall i =
      acted-IsOneCall b s log done (typed i.build_id)
        (send_keys i.build_id i.text i.keys (scale64 millisecond i.hold_ms))
        (b.send_keys i.build_id i.text i.keys (scale64 millisecond i.hold_ms) s) refl

  click_tool-IsOneCall :
      (i : ClickInput)
      → IsOneCall b s log
          (codes "click")
          (said clicked (click_tool (logged b) i.build_id i.x i.y i.button i.times (s, log)))
  unfolding click_tool ask tool_of
  click_tool-IsOneCall i =
      answered-IsOneCall b s log clicked clicked_answer
        (click i.build_id i.x i.y (button i.button) (times i.times))
        (b.click i.build_id i.x i.y (button i.button) (times i.times) s) refl

  resume_tool-IsOneCall :
      (i : ContinueInput)
      → IsOneCall b s log
          (codes "continue")
          (said done (resume_tool (logged b) i.build_id i.until_label (s, log)))
  unfolding resume_tool ask tool_of
  resume_tool-IsOneCall i =
      acted-IsOneCall b s log done (continued i.build_id i.until_label)
        (continue i.build_id i.until_label) (b.continue i.build_id i.until_label s) refl

  abort_tool-IsOneCall :
      (i : AbortInput)
      → IsOneCall b s log
          (codes "abort")
          (said reported (abort_tool (logged b) i.build_id i.log_lines (s, log)))
  unfolding abort_tool ask tool_of
  abort_tool-IsOneCall i =
      answered-IsOneCall b s log reported (aborted i.build_id)
        (abort i.build_id (log_lines i.log_lines)) (b.abort i.build_id (log_lines i.log_lines) s)
        refl

  tools_of-IsAdapter :
      (d : Decoders) → All (λ t. IsAdapter t.name t.handler) (tools_of d (logged b))
  unfolding tools_of
  tools_of-IsAdapter d = (
    taking-IsAdapter (codes "start_build") d.start (λ i x. said started (start_tool (logged b) i x))
        start_tool-IsOneCall,
    (
      taking-IsAdapter (codes "list_builds") d.list
          (λ i x. said listed (list_tool (logged b) i.all x)) list_tool-IsOneCall,
      (
        taking-IsAdapter (codes "status") d.status
            (λ i x. said reported (status_tool (logged b) i.build_id i.log_lines x))
            status_tool-IsOneCall,
        (
          taking-IsAdapter (codes "wait_for_pause") d.wait
              (λ i x. said reported (wait_tool (logged b) i.build_id i.seconds i.log_lines x))
              wait_tool-IsOneCall,
          (
            taking-IsAdapter (codes "screenshot") d.build
                (λ i x. said captured (screenshot_tool (logged b) i.build_id x))
                screenshot_tool-IsOneCall,
            (
              taking-IsAdapter (codes "send_keys") d.keys
                  (λ i x.
                    said done (send_keys_tool (logged b) i.build_id i.text i.keys i.hold_ms x))
                  send_keys_tool-IsOneCall,
              (
                taking-IsAdapter (codes "click") d.click
                    (λ i x.
                      said clicked (click_tool (logged b) i.build_id i.x i.y i.button i.times x))
                    click_tool-IsOneCall,
                (
                  taking-IsAdapter (codes "continue") d.continue
                      (λ i x. said done (resume_tool (logged b) i.build_id i.until_label x))
                      resume_tool-IsOneCall,
                  (
                    taking-IsAdapter (codes "abort") d.abort
                        (λ i x. said reported (abort_tool (logged b) i.build_id i.log_lines x))
                        abort_tool-IsOneCall,
                    tt,
                  ),
                ),
              ),
            ),
          ),
        ),
      ),
    ),
  )

  All-IsIn {μ ν} : {A : Type μ} (P : A → Type ν) {a : A} {xs : List A} → IsIn a xs → All P xs → P a
  All-IsIn P here (h, hs) = h
  All-IsIn P (there i) (h, hs) = All-IsIn P i hs

  -- A call of a tool, by whatever name and with whatever arguments, of a library that finds tools
  -- by their names: the name is none of the nine,
  -- and there is no such tool; or its arguments cannot be decoded, and the service is not asked; or
  -- the service is asked exactly one thing, the one that the tool of that name is for, leaves what
  -- it leaves when it is asked that alone, and its error, or that it gave none, is what the client
  -- is answered.
  pub call_tool-IsOneCall :
      (find : Lookup (S × List Asked) E) (d : Decoders) (version name text : Text)
      → IsLookup find
      → let answer = call_tool find (new d (logged b) version) name text (s, log) in
        ((answer ≡ none) × All (λ n. eq_text n name ≡ false) tool_names)
        ⊎ ((x : (S × List Asked) × Outcome (Failure E) Result) × (answer ≡ some x)
            × (IsRejected b s log x ⊎ IsOneCall b s log name x))
  unfolding call_tool new tools_of
  call_tool-IsOneCall find d version name text law =
      let ts = tools_of d (logged b) in
      elim (Option-cases (find name ts)) [
        | inl none_found ↦
            inl (rw (call_tool, new, none_found) refl, law.missing name ts none_found)
        | inr (t, found) ↦
            let (inside, named) = law.found name ts t found in
            let result = t.handler text (s, log) in
            inr (
              result,
              rw (call_tool, new, found) refl,
              subst (λ n. IsRejected b s log result ⊎ IsOneCall b s log n result) named
                  (All-IsIn (λ (u : Tool (S × List Asked) E). IsAdapter u.name u.handler) inside
                    (tools_of-IsAdapter d) text),
            )
      ]
