-- ===== src/McpServer/Asking.antt =====
-- internal/mcpserver/mcpserver.go: what the tools ask of the build service, written down.
use packer_qemu_mcp_server.Prelude.{
  ℤ, ◌≡◌, refl, ap, sym, Bool, List, [], ◌∷◌, Option, none, some, Text, codes, Outcome, ok, err,
}
use packer_qemu_mcp_server.Builds.Requests.{Request}
use packer_qemu_mcp_server.McpServer.Arguments.{button, times}
use packer_qemu_mcp_server.McpServer.Tools.{Builds, answered, acted}
use packer_qemu_mcp_server.McpServer.Registry.{Output, Result, Failure, rejected, failed, said}

-- What the service is asked.
pub data Asked : Type 0 where
  start : Request → Asked
  list : Bool → Asked
  status : Text → ℤ → Asked
  wait_for_pause : Text → ℤ → ℤ → Asked
  screenshot : Text → Asked
  send_keys : Text → Text → List Text → ℤ → Asked
  click : Text → ℤ → ℤ → Text → ℤ → Asked
  continue : Text → Text → Asked
  abort : Text → ℤ → Asked

-- The tool that asks it.
unfoldable pub tool_of : Asked → Text
tool_of (start r) = codes "start_build"
tool_of (list all) = codes "list_builds"
tool_of (status id lines) = codes "status"
tool_of (wait_for_pause id within lines) = codes "wait_for_pause"
tool_of (screenshot id) = codes "screenshot"
tool_of (send_keys id text keys hold) = codes "send_keys"
tool_of (click id x y button times) = codes "click"
tool_of (continue id until) = codes "continue"
tool_of (abort id lines) = codes "abort"

abbrev pub tool_names : List Text
tool_names =
    codes "start_build"
    ∷ codes "list_builds"
    ∷ codes "status"
    ∷ codes "wait_for_pause"
    ∷ codes "screenshot"
    ∷ codes "send_keys"
    ∷ codes "click"
    ∷ codes "continue"
    ∷ codes "abort"
    ∷ []

abbrev pub error_of {κ μ} : {E : Type κ} {A : Type μ} → Outcome E A → Option E
error_of (ok a) = none
error_of (err e) = some e

module _ {ℓ κ} {S : Type ℓ} {E : Type κ} (b : Builds S E) where
  -- What the service does when it is asked, and its error.
  unfoldable pub ask : Asked → S → S × Option E
  ask (start r) s = let x = b.start r s in (x.0, error_of x.1)
  ask (list all) s = let x = b.list all s in (x.0, error_of x.1)
  ask (status id lines) s = let x = b.status id lines s in (x.0, error_of x.1)
  ask (wait_for_pause id within lines) s =
      let x = b.wait_for_pause id within lines s in (x.0, error_of x.1)
  ask (screenshot id) s = let x = b.screenshot id s in (x.0, error_of x.1)
  ask (send_keys id text keys hold) s = b.send_keys id text keys hold s
  ask (click id x y button times) s = let r = b.click id x y button times s in (r.0, error_of r.1)
  ask (continue id until) s = b.continue id until s
  ask (abort id lines) s = let x = b.abort id lines s in (x.0, error_of x.1)

  -- The service, with what it is asked written down, the latest first.
  abbrev pub logged : Builds (S × List Asked) E
  logged = record {
    start = λ r x. let y = b.start r x.0 in ((y.0, start r ∷ x.1), y.1);
    list = λ all x. let y = b.list all x.0 in ((y.0, list all ∷ x.1), y.1);
    status = λ id lines x. let y = b.status id lines x.0 in ((y.0, status id lines ∷ x.1), y.1);
    wait_for_pause = λ id within lines x.
        let y = b.wait_for_pause id within lines x.0 in
        ((y.0, wait_for_pause id within lines ∷ x.1), y.1);
    screenshot = λ id x. let y = b.screenshot id x.0 in ((y.0, screenshot id ∷ x.1), y.1);
    send_keys = λ id text keys hold x.
        let y = b.send_keys id text keys hold x.0 in
        ((y.0, send_keys id text keys hold ∷ x.1), y.1);
    click = λ id h v button times x.
        let y = b.click id h v button times x.0 in ((y.0, click id h v button times ∷ x.1), y.1);
    continue =
        λ id until x. let y = b.continue id until x.0 in ((y.0, continue id until ∷ x.1), y.1);
    abort = λ id lines x. let y = b.abort id lines x.0 in ((y.0, abort id lines ∷ x.1), y.1);
  }

abbrev pub failed_with {κ} : {E : Type κ} → Option E → Option (Failure E)
failed_with none = none
failed_with (some e) = some (failed e)

module _ {ℓ κ} {S : Type ℓ} {E : Type κ} (b : Builds S E) (s : S) (log : List Asked) where
  -- The service was asked one thing, and its error is the answer's.
  pub record IsOneCall (tool : Text) (x : (S × List Asked) × Outcome (Failure E) Result)
      : Type (ℓ ⊔ κ) where
    pub asked : Asked
    pub fits : tool_of asked ≡ tool
    pub did : x.0 ≡ ((ask b asked s).0, asked ∷ log)
    pub passed_on : error_of x.1 ≡ failed_with (ask b asked s).1

  -- The arguments were of no use, and the service was not asked.
  pub record IsRejected (x : (S × List Asked) × Outcome (Failure E) Result) : Type (ℓ ⊔ κ) where
    pub reason : Text
    pub idle : x ≡ ((s, log), err (rejected reason))

  pub answered-IsOneCall {μ ν} :
      {A : Type μ} {Out : Type ν} (form : Out → Output) (f : A → Text × Out) (a : Asked)
      (x : S × Outcome E A)
      → ask b a s ≡ (x.0, error_of x.1)
      → IsOneCall (tool_of a) (said form (answered f ((x.0, a ∷ log), x.1)))
  answered-IsOneCall form f a (t, ok v) h = record {
    asked = a;
    fits = refl;
    did = ap (λ y. (y.0, a ∷ log)) (sym h);
    passed_on = ap (λ y. failed_with y.1) (sym h);
  }
  answered-IsOneCall form f a (t, err e) h = record {
    asked = a;
    fits = refl;
    did = ap (λ y. (y.0, a ∷ log)) (sym h);
    passed_on = ap (λ y. failed_with y.1) (sym h);
  }

  pub acted-IsOneCall {ν} :
      {Out : Type ν} (form : Out → Output) (out : Text × Out) (a : Asked) (x : S × Option E)
      → ask b a s ≡ x
      → IsOneCall (tool_of a) (said form (acted out ((x.0, a ∷ log), x.1)))
  acted-IsOneCall form out a (t, none) h = record {
    asked = a;
    fits = refl;
    did = ap (λ y. (y.0, a ∷ log)) (sym h);
    passed_on = ap (λ y. failed_with y.1) (sym h);
  }
  acted-IsOneCall form out a (t, some e) h = record {
    asked = a;
    fits = refl;
    did = ap (λ y. (y.0, a ∷ log)) (sym h);
    passed_on = ap (λ y. failed_with y.1) (sym h);
  }
