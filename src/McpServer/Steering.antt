-- ===== src/McpServer/Steering.antt =====
-- internal/mcpserver/mcpserver.go, internal/builds/builds.go, internal/control/control.go and
-- internal/supervisor/supervisor.go: the tool that lets a build carry on, from its call to what the
-- supervisor does.
use packer_qemu_mcp_server.Prelude.{
  ℕ, ◌≤◌, ◌≡◌, ap, ◌∙◌, refl, true, false, [], ◌∷◌, Option, none, some, Text, codes, is_empty,
  Outcome, ok, err, eq_text,
}
use packer_qemu_mcp_server.Control.Messages.{Request, Codec, IsFaithful}
use packer_qemu_mcp_server.Control.Servers.{Handler, serve}
use packer_qemu_mcp_server.Control.Clients.{encode_params}
use packer_qemu_mcp_server.Control.Exchanges.{served_wire, Carries, told, call_served}
use packer_qemu_mcp_server.Supervisor.Machine.{Answers, Supervisor}
use packer_qemu_mcp_server.Supervisor.Handlers.{
  Result, nothing, resume, instructions, answer_error, dispatch,
}
use packer_qemu_mcp_server.Supervisor.Queue.{
  Passage, deadline, before_end, in_time, outcome, handle,
}
use packer_qemu_mcp_server.Supervisor.Patience.{handle-in_time}
use packer_qemu_mcp_server.Builds.Reports.{View, tell}
use packer_qemu_mcp_server.Builds.Telling.{error_of, tell_over, continue_over, refused}
use packer_qemu_mcp_server.McpServer.Tools.{Builds, continued, acted, resume_tool}

-- The supervisor behind a connection that a request has been sent over.
abbrev pub reached : Codec Result → Handler Supervisor Result → Request → Supervisor → Supervisor
reached codec handler req s = elim (codec.write_request req) [
  | err e ↦ s
  | ok text ↦ (serve codec handler (text ∷ []) s).0
]

abbrev pub continue_request : Text → Request
continue_request encoded = record { id = 1; method = codes "continue"; params = encoded }

abbrev pub steered :
    Codec Result → Handler Supervisor Result → Outcome Text Text → Supervisor → Supervisor
steered codec handler (err e) s = s
steered codec handler (ok encoded) s = reached codec handler (continue_request encoded) s

pub reached_written :
    (codec : Codec Result) (handler : Handler Supervisor Result) (req : Request) (text : Text)
    (s u : Supervisor)
    → codec.write_request req ≡ ok text
    → (serve codec handler (text ∷ []) s).0 ≡ u
    → reached codec handler req s ≡ u
reached_written codec handler req text s u written left = rw (reached, written) left

tell-told :
    (v : View) (method : Text) (result : Outcome Text Result) (e : Option Text)
    → result ≡ outcome (ok (nothing, e))
    → tell v method (error_of (told method false result)) ≡ refused method e
unfolding tell
tell-told v method result none h = ap (λ r. tell v method (error_of (told method false r))) h
tell-told v method result (some e) h = ap (λ r. tell v method (error_of (told method false r))) h

dispatch-continue :
    (decode : Text → Option Text) (o : Answers) (until encoded : Text) (s : Supervisor)
    → is_empty encoded ≡ false
    → decode encoded ≡ some until
    → dispatch decode o (codes "continue") encoded s ≡ answer_error (resume o until s)
unfolding dispatch eq_text instructions
dispatch-continue decode o until encoded s he hd =
    let w : instructions decode encoded ≡ until = rw (instructions, he, hd) refl in
    ap (λ x. answer_error (resume o x s)) w

module _ (codec : Codec Result) (IsString IsMessage : Text → Type 0)
    (law : IsFaithful codec IsString IsMessage) (encode : Text → Outcome Text Text)
    (decode : Text → Option Text) (o : Answers) (start : ℕ) (p : Passage) where
  -- A service whose `Continue` is that of the package builds, over the socket of a supervisor.
  abbrev pub Continues : Builds Supervisor Text → View → Text → Type 0
  Continues builds v socket =
      (id until : Text) (s : Supervisor)
      → builds.continue id until s ≡ (
        steered codec (handle decode o start p) (encode until) s,
        continue_over codec encode (ok v) (served_wire codec (handle decode o start p) s socket)
            until,
      )

  -- The instructions that a label is sent as, in a request that is handled in time.
  pub record Arrives (until encoded : Text) (t : ℕ) (reply : Option Text) : Type 0 where
    pub encodes : encode until ≡ ok encoded
    pub decodes : decode encoded ≡ some until
    pub sent : is_empty encoded ≡ false
    pub method_string : IsString (codes "continue")
    pub params_message : IsMessage encoded
    pub taken : p.taken ≡ some t
    pub taken_by : t ≤ deadline start
    pub taken_before_end : before_end t p.stopped ≡ true
    pub handled : in_time start p t ≡ true
    pub carried : Carries codec IsString IsMessage false (outcome (ok (nothing, reply)))

  -- The tool `continue` of a build whose supervisor takes, looks at and answers the call in time:
  -- the supervisor has done what `resume` does with the label, and the tool says that the build
  -- runs on, or gives the error of `resume` behind `continue failed`. The messages are ones that
  -- the codec carries.
  pub resume_tool-resume :
      (builds : Builds Supervisor Text) (v : View) (socket id until encoded : Text) (t : ℕ)
      (s : Supervisor)
      → Continues builds v socket
      → Arrives until encoded t (resume o until s).1
      → resume_tool builds id until s
        ≡ acted
            (continued id until)
            ((resume o until s).0, refused (codes "continue") (resume o until s).1)
  unfolding resume_tool continue_over tell_over encode_params
  resume_tool-resume builds v socket id until encoded t s continues a =
      let handler = handle decode o start p in
      let (u, e) = resume o until s in
      let handled : handler (codes "continue") encoded s ≡ (u, outcome (ok (nothing, e))) =
        handle-in_time decode o start t p (codes "continue") encoded s a.taken a.taken_by
          a.taken_before_end a.handled
        ∙ ap (λ x. (x.0, outcome (ok x.1)))
            (dispatch-continue decode o until encoded s a.sent a.decodes) in
      let (answer, (text, written, left)) =
        call_served codec IsString IsMessage law handler socket (codes "continue") encoded
          (some (encode until)) false s u (outcome (ok (nothing, e)))
          (ap (λ x. encode_params (some x)) a.encodes) handled a.method_string a.params_message
          a.carried in
      let told =
        ap (λ x. tell v (codes "continue") (error_of x)) answer
        ∙ tell-told v (codes "continue") (outcome (ok (nothing, e))) e refl in
      let after : steered codec handler (encode until) s ≡ u =
        ap (λ x. steered codec handler x s) a.encodes
        ∙ reached_written codec handler (continue_request encoded) text s u written left in
      ap (acted (continued id until)) (continues id until s ∙ (λ i. (after i, told i)))
