-- ===== src/Upload/Tests.antt =====
-- Requests to the upload middleware under a limit of three bytes.
use deep_data_agent.Prelude.{
  ℕ, ◌≤◌, ◌≡◌, refl, ◌↔◌, true, false, Option, none, some, List, [], ◌∷◌, String, length,
}
use deep_data_agent.Prelude.Int.{ℤ, pos}
use deep_data_agent.Upload.{
  Message, request, Scope, forwards, is_upload, judge, collect, declared_error, content_lengths,
  call,
}
use deep_data_agent.Upload.Body.{complete, call_forwards_iff}

abbrev lower : String → String
lower t = t

abbrev parse : String → Option ℤ
parse t = some (pos 3)

abbrev upload : Scope
upload = record {
  kind = "http";
  method = some "POST";
  path = some "/api/files";
  headers = record { key = "content-length"; value = "3" } ∷ [];
}

abbrev bytes : List ℕ
bytes = 1 ∷ 2 ∷ 3 ∷ []

abbrev sent : List Message
sent = request (1 ∷ 2 ∷ []) true ∷ request (3 ∷ []) false ∷ []

forwards_small : call lower parse 3 upload sent ≡ forwards bytes
unfolding call is_upload declared_error content_lengths judge collect
forwards_small = refl

call_forwards_iff_example : (call lower parse 3 upload sent ≡ forwards bytes) ↔ (
    (is_upload upload ≡ true)
    × (declared_error lower parse 3 upload.headers ≡ none)
    × (complete sent ≡ some bytes)
    × (length bytes ≤ 3))
call_forwards_iff_example = call_forwards_iff lower parse 3 upload sent bytes

abbrev early : List Message
early = request (1 ∷ 2 ∷ []) true ∷ request (3 ∷ 4 ∷ []) true ∷ []
