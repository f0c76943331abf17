-- ===== src/McpServer/Registry.antt =====
-- internal/mcpserver/mcpserver.go: `New`, which registers the tools, and their inputs.
--
-- The library of the protocol is a parameter: how it finds a tool by its name, and decodes what the
-- client sends into the tool's input.
use packer_qemu_mcp_server.Prelude.{
  ℤ, Bool, List, [], ◌∷◌, Option, none, some, Text, codes, eq_text, ◌≡◌, false, All, Outcome, ok,
  err,
}
use packer_qemu_mcp_server.Builds.Reports.{Report, Listing}
use packer_qemu_mcp_server.Builds.Input.{Clicked}
use packer_qemu_mcp_server.McpServer.Manuals.{
  start_build_text, list_builds_text, status_text, wait_for_pause_text, screenshot_text,
  send_keys_text, click_text, continue_text, abort_text,
}
use packer_qemu_mcp_server.McpServer.Tools.{
  Builds, StartInput, StartOutput, ScreenshotOutput, ActionOutput, start_tool, list_tool,
  status_tool, wait_tool, send_keys_tool, click_tool, screenshot_tool, resume_tool, abort_tool,
}

pub record ListInput : Type 0 where
  pub all : Bool

pub record StatusInput : Type 0 where
  pub build_id : Text
  pub log_lines : ℤ

pub record WaitInput : Type 0 where
  pub build_id : Text
  pub seconds : ℤ
  pub log_lines : ℤ

pub record BuildInput : Type 0 where
  pub build_id : Text

pub record KeysInput : Type 0 where
  pub build_id : Text
  pub text : Text
  pub keys : List Text
  pub hold_ms : ℤ

pub record ClickInput : Type 0 where
  pub build_id : Text
  pub x : ℤ
  pub y : ℤ
  pub button : Text
  pub times : ℤ

pub record ContinueInput : Type 0 where
  pub build_id : Text
  pub until_label : Text

pub record AbortInput : Type 0 where
  pub build_id : Text
  pub log_lines : ℤ

-- What the library makes of the arguments that a client sends, for each type of input.
pub record Decoders : Type 0 where
  pub start : Text → Outcome Text StartInput
  pub list : Text → Outcome Text ListInput
  pub status : Text → Outcome Text StatusInput
  pub wait : Text → Outcome Text WaitInput
  pub build : Text → Outcome Text BuildInput
  pub keys : Text → Outcome Text KeysInput
  pub click : Text → Outcome Text ClickInput
  pub continue : Text → Outcome Text ContinueInput
  pub abort : Text → Outcome Text AbortInput

-- The structured output of a tool.
pub data Output : Type 0 where
  started : StartOutput → Output
  listed : Listing → Output
  reported : Report → Output
  captured : ScreenshotOutput → Output
  done : ActionOutput → Output
  clicked : Clicked → Output

-- What a client is answered: the text of `said`, with the output.
pub record Result : Type 0 where
  pub content : Text
  pub output : Output

-- Why it is answered an error: its arguments, or the service.
pub data Failure {κ} (E : Type κ) : Type κ where
  rejected : Text → Failure E
  failed : E → Failure E

abbrev pub Handler {ℓ κ} : Type ℓ → Type κ → Type (ℓ ⊔ κ)
Handler S E = Text → S → S × Outcome (Failure E) Result

pub record Tool {ℓ κ} (S : Type ℓ) (E : Type κ) : Type (ℓ ⊔ κ) where
  pub name : Text
  pub description : Text
  pub handler : Handler S E

pub record Server {ℓ κ} (S : Type ℓ) (E : Type κ) : Type (ℓ ⊔ κ) where
  pub name : Text
  pub version : Text
  pub tools : List (Tool S E)

abbrev pub said {ℓ κ μ} :
    {S : Type ℓ} {E : Type κ} {Out : Type μ}
    → (Out → Output)
    → S × Outcome E (Text × Out)
    → S × Outcome (Failure E) Result
said form (s, ok (text, out)) = (s, ok (record { content = text; output = form out }))
said form (s, err e) = (s, err (failed e))

-- A tool behind the decoder of its input.
unfoldable pub taking {ℓ κ ι} :
    {S : Type ℓ} {E : Type κ} {In : Type ι}
    → (Text → Outcome Text In)
    → (In → S → S × Outcome (Failure E) Result)
    → Handler S E
taking decode run text s = elim (decode text) [
  | err e ↦ (s, err (rejected e))
  | ok input ↦ run input s
]

abbrev tool {ℓ κ} : {S : Type ℓ} {E : Type κ} → Text → Text → Handler S E → Tool S E
tool name description handler = record { name = name; description = description; handler = handler }

-- `mcp.AddTool`, one behind the other.
unfoldable pub tools_of {ℓ κ} : {S : Type ℓ} {E : Type κ} → Decoders → Builds S E → List (Tool S E)
unfolding taking
tools_of d b =
    tool (codes "start_build") start_build_text
      (taking d.start (λ i s. said started (start_tool b i s)))
    ∷ tool (codes "list_builds") list_builds_text
        (taking d.list (λ i s. said listed (list_tool b i.all s)))
    ∷ tool (codes "status") status_text
        (taking d.status (λ i s. said reported (status_tool b i.build_id i.log_lines s)))
    ∷ tool (codes "wait_for_pause") wait_for_pause_text
        (taking d.wait (λ i s. said reported (wait_tool b i.build_id i.seconds i.log_lines s)))
    ∷ tool (codes "screenshot") screenshot_text
        (taking d.build (λ i s. said captured (screenshot_tool b i.build_id s)))
    ∷ tool (codes "send_keys") send_keys_text
        (taking d.keys (λ i s. said done (send_keys_tool b i.build_id i.text i.keys i.hold_ms s)))
    ∷ tool (codes "click") click_text
        (taking d.click (λ i s. said clicked (click_tool b i.build_id i.x i.y i.button i.times s)))
    ∷ tool (codes "continue") continue_text
        (taking d.continue (λ i s. said done (resume_tool b i.build_id i.until_label s)))
    ∷ tool (codes "abort") abort_text
        (taking d.abort (λ i s. said reported (abort_tool b i.build_id i.log_lines s)))
    ∷ []

-- `New`
unfoldable pub new {ℓ κ} : {S : Type ℓ} {E : Type κ} → Decoders → Builds S E → Text → Server S E
new d b version = record {
  name = codes "packer-qemu-mcp-server";
  version = version;
  tools = tools_of d b;
}

-- How the library finds the tool of a name.
abbrev pub Lookup {ℓ κ} : Type ℓ → Type κ → Type (ℓ ⊔ κ)
Lookup S E = Text → List (Tool S E) → Option (Tool S E)

-- A client's call: the tool of that name, if there is one, on its arguments.
unfoldable pub call_tool {ℓ κ} :
    {S : Type ℓ} {E : Type κ}
    → Lookup S E
    → Server S E
    → Text
    → Text
    → S
    → Option (S × Outcome (Failure E) Result)
call_tool find server name arguments s = elim (find name server.tools) [
  | none ↦ none
  | some t ↦ some (t.handler arguments s)
]

pub data IsIn {ℓ} {A : Type ℓ} (a : A) : List A → Type ℓ where
  here : {xs : List A} → IsIn a (a ∷ xs)
  there : {x : A} {xs : List A} → IsIn a xs → IsIn a (x ∷ xs)

-- What is relied on: what is found is registered under the name, and what is not found is not.
pub record IsLookup {ℓ κ} {S : Type ℓ} {E : Type κ} (find : Lookup S E) : Type (ℓ ⊔ κ) where
  pub found :
      (name : Text) (ts : List (Tool S E)) (t : Tool S E)
      → find name ts ≡ some t
      → IsIn t ts × (t.name ≡ name)
  pub missing :
      (name : Text) (ts : List (Tool S E))
      → find name ts ≡ none
      → All (λ t. eq_text t.name name ≡ false) ts
