-- ===== src/Upload.antt =====
-- data_agent/security/upload_limit_middleware.py: the byte ceiling in front of the upload parser.
-- `bytes.lower` and `int` of a header are parameters; the messages of `receive` are a list, and
-- `waits` is a `receive` that has not been answered yet.
pub mod Body
mod Tests
use deep_data_agent.Prelude.{
  ℕ, Bool, true, false, ◌&&◌, ◌||◌, Option, none, some, List, [], ◌∷◌, ◌++◌, map, String, str_eq,
  ltb, length, keep, if◌then◌else◌,
}
use deep_data_agent.Prelude.Int.{ℤ, pos, negsuc}

-- An ASGI message. `more_body` and `body` are taken with their defaults.
pub data Message : Type 0 where
  disconnect : Message
  request : List ℕ → Bool → Message
  other : Message

pub record Header : Type 0 where
  pub key : String
  pub value : String

pub record Scope : Type 0 where
  pub kind : String
  pub method : Option String
  pub path : Option String
  pub headers : List Header

-- The `code` of `_reject`: status 400, 413 and 400.
pub data Code : Type 0 where
  invalid_content_length upload_request_too_large upload_disconnected : Code

-- Passed to the app as it came, with a body, or rejected.
pub data Verdict : Type 0 where
  passes waits : Verdict
  forwards : List ℕ → Verdict
  rejects : Code → Verdict

abbrev is_text : String → Option String → Bool
is_text t none = false
is_text t (some s) = str_eq s t

-- The complement of the first `if`.
unfoldable pub is_upload : Scope → Bool
is_upload scope =
    str_eq scope.kind "http"
    && is_text "POST" scope.method
    && (is_text "/api/files" scope.path || is_text "/api/files/" scope.path)

-- One declared length, parsed.
unfoldable pub judge : ℕ → Option ℤ → Option Code
judge limit none = some invalid_content_length
judge limit (some (negsuc n)) = some invalid_content_length
judge limit (some (pos n)) = if ltb limit n then some upload_request_too_large else none

-- The loop over `receive`, with `body` read so far.
unfoldable pub collect : ℕ → List Message → List ℕ → Verdict
collect limit [] body = waits
collect limit (disconnect ∷ ms) body = rejects upload_disconnected
collect limit (other ∷ ms) body = collect limit ms body
collect limit (request chunk more ∷ ms) body =
    let rest = collect limit ms (body ++ chunk) in
    if ltb limit (length (body ++ chunk))
    then rejects upload_request_too_large
    else if more
    then rest
    else forwards (body ++ chunk)

-- `replay_receive`, with `delivered`.
unfoldable pub replay : List ℕ → Bool → Message × Bool
replay body true = (disconnect, true)
replay body false = (request body false, true)

module _ (lower : String → String) (parse : String → Option ℤ) where
  -- `content_lengths`
  unfoldable pub content_lengths : List Header → List String
  content_lengths headers =
      map (λ h. h.value) (keep (λ h. str_eq (lower h.key) "content-length") headers)

  -- The checks of the declared length.
  unfoldable pub declared_error : ℕ → List Header → Option Code
  declared_error limit headers = elim (content_lengths headers) [
    | [] ↦ none
    | v ∷ [] ↦ judge limit (parse v)
    | v ∷ w ∷ vs ↦ some invalid_content_length
  ]

  -- `__call__`
  unfoldable pub call : ℕ → Scope → List Message → Verdict
  call limit scope ms =
      if is_upload scope
      then elim (declared_error limit scope.headers) [
        | some e ↦ rejects e
        | none ↦ collect limit ms []
      ]
      else passes
