-- ===== src/Control/Tests.antt =====
-- A codec that keeps every text, with a server behind it, and the theorem of the exchange there.
use packer_qemu_mcp_server.Prelude.{
  ℕ, suc, zero, ◌≡◌, refl, ap, Bool, true, false, [], ◌∷◌, ◌++◌, some, Text, codes, Outcome, ok,
  err,
}
use packer_qemu_mcp_server.Control.Messages.{Request, Response, Codec, IsFaithful}
use packer_qemu_mcp_server.Control.Servers.{Handler, serve}
use packer_qemu_mcp_server.Control.Clients.{call}
use packer_qemu_mcp_server.Control.Exchanges.{served_wire, told, call_served}

-- A text that something follows.
unfoldable pub ended : Text → Text → Text
ended [] rest = 0 ∷ rest
ended (c ∷ t) rest = suc c ∷ ended t rest

abbrev with_code : ℕ → Text × Text → Text × Text
with_code c (t, rest) = (c ∷ t, rest)

unfoldable pub up_to_end : Text → Text × Text
up_to_end [] = ([], [])
up_to_end (zero ∷ rest) = ([], rest)
up_to_end (suc c ∷ rest) = with_code c (up_to_end rest)

up_to_end-ended : (t rest : Text) → up_to_end (ended t rest) ≡ (t, rest)
unfolding up_to_end ended
up_to_end-ended [] rest = refl
up_to_end-ended (c ∷ t) rest = ap (with_code c) (up_to_end-ended t rest)

abbrev flag : Bool → ℕ
flag true = 1
flag false = 0

unfoldable pub read_request : Text → Outcome Text Request
unfolding up_to_end
read_request [] = err []
read_request (n ∷ t) =
    let (method, params) = up_to_end t in ok (record { id = n; method = method; params = params })

unfoldable pub read_response : Text → Outcome Text Response
unfolding up_to_end
read_response [] = err []
read_response (n ∷ []) = err []
read_response (n ∷ zero ∷ t) =
    let (error, result) = up_to_end t in
    ok (record { id = n; is_ok = false; result = result; error = error })
read_response (n ∷ suc m ∷ t) =
    let (error, result) = up_to_end t in
    ok (record { id = n; is_ok = true; result = result; error = error })

abbrev pub codec_of {κ} : {V : Type κ} → (V → Outcome Text Text) → (Text → Outcome Text V) → Codec V
codec_of marshal unmarshal = record {
  write_request = λ r. ok (r.id ∷ ended r.method r.params);
  read_request = read_request;
  write_response = λ r. ok (r.id ∷ flag r.is_ok ∷ ended r.error r.result);
  read_response = read_response;
  marshal = marshal;
  unmarshal = unmarshal;
}

abbrev after_mark : Text → Outcome Text Text
after_mark [] = err []
after_mark (c ∷ t) = ok t

abbrev pub plain : Codec Text
plain = codec_of (λ t. ok (34 ∷ t)) after_mark

read_request-ended :
    (n : ℕ) (method params : Text)
    → read_request (n ∷ ended method params)
      ≡ ok (record { id = n; method = method; params = params })
unfolding read_request
read_request-ended n method params =
    ap (λ x. ok (record { id = n; method = x.0; params = x.1 })) (up_to_end-ended method params)

read_response-ended :
    (n : ℕ) (is_ok : Bool) (error result : Text)
    → read_response (n ∷ flag is_ok ∷ ended error result)
      ≡ ok (record { id = n; is_ok = is_ok; result = result; error = error })
unfolding read_response
read_response-ended n true error result =
    ap (λ x. ok (record { id = n; is_ok = true; result = x.1; error = x.0 }))
      (up_to_end-ended error result)
read_response-ended n false error result =
    ap (λ x. ok (record { id = n; is_ok = false; result = x.1; error = x.0 }))
      (up_to_end-ended error result)

pub codec_of-IsFaithful :
    {V : Type 0} (marshal : V → Outcome Text Text) (unmarshal : Text → Outcome Text V)
    → IsFaithful (codec_of marshal unmarshal) (λ t. Unit) (λ t. Unit)
codec_of-IsFaithful marshal unmarshal = record {
  no_string = tt;
  no_message = tt;
  request_text =
      λ r h k. (r.id ∷ ended r.method r.params, refl, read_request-ended r.id r.method r.params);
  response_text = λ r h k. (
    r.id ∷ flag r.is_ok ∷ ended r.error r.result,
    refl,
    read_response-ended r.id r.is_ok r.error r.result,
  );
}

-- A handler that counts its calls and gives back their parameters.
abbrev pub echo : Handler ℕ Text
echo method params n = (suc n, ok (method ++ params))

call_served_example :
    (call plain
        (served_wire plain echo 6 (codes "/b/s.sock"))
        (codes "send")
        (some (ok (codes "a")))
        true
      ≡ told (codes "send") true (ok (codes "senda")))
    × ((text : Text) × (plain.write_request
            (record { id = 1; method = codes "send"; params = codes "a" })
          ≡ ok text)
        × ((serve plain echo (text ∷ []) 6).0 ≡ 7))
unfolding packer_qemu_mcp_server.Control.Clients.encode_params
call_served_example =
    call_served plain (λ t. Unit) (λ t. Unit) (codec_of-IsFaithful (λ t. ok (34 ∷ t)) after_mark)
      echo (codes "/b/s.sock") (codes "send") (codes "a") (some (ok (codes "a"))) true 6 7
      (ok (codes "senda")) refl refl tt tt (codes "\"senda", tt, refl, λ e. (refl, refl))
