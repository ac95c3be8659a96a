-- ===== src/JsonHttp/Answers.antt =====
-- What a client gets from the handlers.
use juju_utils.Common.{
  ℕ, ◌≡◌, refl, arith, ap, sym, ◌∙◌, Bool, true, false, ◌||◌, Option, none, some, List, [], ◌∷◌,
  ◌++◌, append_assoc, append-nil, if◌then◌else◌, Bool-cases, inl, inr,
}
use juju_utils.Common.Bytes.{Bytes}
use juju_utils.Common.Results.{Result, ok, err}
use juju_utils.JsonHttp.{
  Call, sets_header, writes_header, writes, flushes, Web, ResponseWriter, on_writer, on_writer_all,
  wrapped, ErrorToResponse, marshalled, write_json, write_error, handle_errors, headers_set,
  handle_json,
}

-- Whether a call begins the response.
abbrev pub begins : Call → Bool
begins (sets_header key value) = false
begins (writes_header code) = true
begins (writes text) = true
begins flushes = true

abbrev pub any_begins : List Call → Bool
any_begins [] = false
any_begins (c ∷ cs) = begins c || any_begins cs

-- The calls that reach a writer that can be flushed, or not.
abbrev pub passed_on : Bool → List Call → List Call
passed_on can_flush [] = []
passed_on can_flush (sets_header key value ∷ cs) = sets_header key value ∷ passed_on can_flush cs
passed_on can_flush (writes_header code ∷ cs) = writes_header code ∷ passed_on can_flush cs
passed_on can_flush (writes text ∷ cs) = writes text ∷ passed_on can_flush cs
passed_on can_flush (flushes ∷ cs) =
    let rest = passed_on can_flush cs in if can_flush then flushes ∷ rest else rest

on_writer_all_lem :
    (can_flush : Bool) (cs : List Call) (w : ResponseWriter)
    → let w' = on_writer_all can_flush cs w in
      (w'.header_written ≡ (w.header_written || any_begins cs))
      × (w'.calls ≡ w.calls ++ passed_on can_flush cs)
unfolding on_writer_all
on_writer_all_lem can_flush [] w = (ground arith, sym (append-nil w.calls))
on_writer_all_lem can_flush (sets_header key value ∷ cs) w =
    let (written, calls) =
      on_writer_all_lem can_flush cs (on_writer can_flush (sets_header key value) w) in
    (
      ground arith,
      calls ∙ append_assoc w.calls (sets_header key value ∷ []) (passed_on can_flush cs),
    )
on_writer_all_lem can_flush (writes_header code ∷ cs) w =
    let (written, calls) =
      on_writer_all_lem can_flush cs (on_writer can_flush (writes_header code) w) in
    (ground arith, calls ∙ append_assoc w.calls (writes_header code ∷ []) (passed_on can_flush cs))
on_writer_all_lem can_flush (writes text ∷ cs) w =
    let (written, calls) = on_writer_all_lem can_flush cs (on_writer can_flush (writes text) w) in
    (ground arith, calls ∙ append_assoc w.calls (writes text ∷ []) (passed_on can_flush cs))
on_writer_all_lem true (flushes ∷ cs) w =
    let (written, calls) = on_writer_all_lem true cs (on_writer true flushes w) in
    (ground arith, calls ∙ append_assoc w.calls (flushes ∷ []) (passed_on true cs))
on_writer_all_lem false (flushes ∷ cs) w =
    let (written, calls) = on_writer_all_lem false cs (on_writer false flushes w) in
    (ground arith, calls)

-- The status and the body of a response, as net/http has them: the first call that begins the response
-- decides the status, which is 200 without a call of `WriteHeader`.
abbrev pub status : List Call → ℕ
status [] = 200
status (sets_header key value ∷ cs) = status cs
status (writes_header code ∷ cs) = code
status (writes text ∷ cs) = 200
status (flushes ∷ cs) = 200

abbrev pub body : List Call → Bytes
body [] = []
body (sets_header key value ∷ cs) = body cs
body (writes_header code ∷ cs) = body cs
body (writes text ∷ cs) = text ++ body cs
body (flushes ∷ cs) = body cs

abbrev pub response : List Call → ℕ × Bytes
response cs = (status cs, body cs)

-- Calls that do not begin a response leave it to those that follow.
response_begun_later :
    (can_flush : Bool) (cs ds : List Call)
    → any_begins cs ≡ false
    → response (passed_on can_flush cs ++ ds) ≡ response ds
response_begun_later can_flush [] ds h = refl
response_begun_later can_flush (sets_header key value ∷ cs) ds h =
    response_begun_later can_flush cs ds h
response_begun_later can_flush (writes_header code ∷ cs) ds h = absurd (ground arith)
response_begun_later can_flush (writes text ∷ cs) ds h = absurd (ground arith)
response_begun_later can_flush (flushes ∷ cs) ds h = absurd (ground arith)

any_begins-append : (cs ds : List Call) → any_begins (cs ++ ds) ≡ (any_begins cs || any_begins ds)
any_begins-append [] ds = refl
any_begins-append (c ∷ cs) ds = ground (arith, any_begins-append cs ds)

headers_begin_nothing : (headers : List (Bytes × Bytes)) → any_begins (headers_set headers) ≡ false
headers_begin_nothing [] = refl
headers_begin_nothing ((key, value) ∷ headers) = headers_begin_nothing headers

headers_passed_on :
    (can_flush : Bool) (headers : List (Bytes × Bytes)) (cs : List Call)
    → response (passed_on can_flush (headers_set headers ++ cs)) ≡ response (passed_on can_flush cs)
headers_passed_on can_flush [] cs = refl
headers_passed_on can_flush ((key, value) ∷ headers) cs = headers_passed_on can_flush headers cs

module _ (web : Web) (err_to_resp : ErrorToResponse web) where
  open web use {Value, Error, marshal, mask, mask_any}

  -- The response with an error; an error whose value cannot be marshalled gives an empty one.
  abbrev pub error_response : ℕ → Result Error Bytes → ℕ × Bytes
  error_response code (ok text) = (code, text)
  error_response code (err e) = (200, [])

  abbrev pub reply : Option Error → ℕ × Bytes
  reply none = (200, [])
  reply (some e) = error_response (err_to_resp e).0 (marshal (err_to_resp e).1)

  abbrev error_calls : Option Error → List Call
  error_calls none = []
  error_calls (some e) = write_error web err_to_resp e

  marshalled-response :
      (code : ℕ) (r : Result Error Bytes)
      → response (marshalled web code r).0 ≡ error_response code r
  marshalled-response code (ok text) = ap (λ (b : Bytes). (code, b)) (append-nil text)
  marshalled-response code (err e) = refl

  error_calls-response :
      (returned : Option Error) → response (error_calls returned) ≡ reply returned
  unfolding write_error write_json
  error_calls-response none = refl
  error_calls-response (some e) = marshalled-response (err_to_resp e).0 (marshal (err_to_resp e).1)

  handled_lem :
      (can_flush : Bool) (cs : List Call) (returned : Option Error)
      → handle_errors web can_flush err_to_resp (cs, returned)
        ≡ passed_on can_flush cs ++ (if any_begins cs then [] else error_calls returned)
  unfolding handle_errors
  handled_lem can_flush cs none =
      (on_writer_all_lem can_flush cs wrapped).1
      ∙ sym (elim (Bool-cases (any_begins cs)) [
        | inl begun ↦ rw begun (append-nil (passed_on can_flush cs))
        | inr later ↦ rw later (append-nil (passed_on can_flush cs))
      ])
  handled_lem can_flush cs (some e) =
      let (written, calls) = on_writer_all_lem can_flush cs wrapped in
      rw (calls, written)
        (elim (Bool-cases (any_begins cs)) [
          | inl begun ↦ rw begun refl
          | inr later ↦ rw later refl
        ])

  -- If a handler has begun its response, this is all that the client gets, whatever it returns. If it has
  -- not, then for no error the client gets an empty response with the status 200, and for an error the
  -- status and the marshalled value that `errToResp` gives for it; but if this value cannot be marshalled,
  -- the client gets an empty response with the status 200.
  pub handle_errors-response :
      (can_flush : Bool) (cs : List Call) (returned : Option Error)
      → response (handle_errors web can_flush err_to_resp (cs, returned))
        ≡ (if any_begins cs then response (passed_on can_flush cs) else reply returned)
  handle_errors-response can_flush cs returned =
      rw (handled_lem can_flush cs returned) (elim (Bool-cases (any_begins cs)) [
        | inl begun ↦ rw (begun, append-nil (passed_on can_flush cs)) refl
        | inr later ↦ rw later (
            response_begun_later can_flush cs (error_calls returned) later
            ∙ error_calls-response returned)
      ])

  -- The response that a `JSONHandler` means.
  abbrev pub value_response : Result Error Bytes → ℕ × Bytes
  value_response (ok text) = (200, text)
  value_response (err e) = reply (some (mask e))

  abbrev pub meant : Result Error Value → ℕ × Bytes
  meant (err e) = reply (some (mask_any e))
  meant (ok value) = value_response (marshal value)

  json-response :
      (can_flush : Bool) (headers : List (Bytes × Bytes)) (r : Result Error Bytes)
      → let (calls, returned) = marshalled web 200 r in
        response (handle_errors web can_flush err_to_resp (headers_set headers ++ calls, returned))
        ≡ value_response r
  json-response can_flush headers (err e) = rw (append-nil (headers_set headers)) (
      rw
        (
          handle_errors-response can_flush (headers_set headers) (some (mask e)),
          headers_begin_nothing headers,
        )
        refl)
  json-response can_flush headers (ok text) =
      let calls : List Call = (marshalled web 200 (ok text)).0 in
      rw
        (
          handle_errors-response can_flush (headers_set headers ++ calls) none,
          any_begins-append (headers_set headers) calls,
          headers_begin_nothing headers,
        )
        (headers_passed_on can_flush headers calls ∙ ap (λ (b : Bytes). (200, b)) (append-nil text))

  -- The client of a `JSONHandler` gets the marshalled value with the status 200. If the handler returns an
  -- error, or its value cannot be marshalled, the client gets the status and the marshalled value that
  -- `errToResp` gives for this error, whatever value it is; and if that cannot be marshalled either, an empty
  -- response with the status 200.
  pub handle_json-response :
      (can_flush : Bool) (headers : List (Bytes × Bytes)) (r : Result Error Value)
      → response (handle_json web can_flush err_to_resp (headers, r)) ≡ meant r
  unfolding handle_json write_json
  handle_json-response can_flush headers (err e) =
      rw
        (
          handle_errors-response can_flush (headers_set headers) (some (mask_any e)),
          headers_begin_nothing headers,
        )
        refl
  handle_json-response can_flush headers (ok value) =
      json-response can_flush headers (marshal value)
