-- ===== src/JsonHttp.antt =====
-- jsonhttp/jsonhttp.go: handlers that return errors and values. `Web` is what it uses of encoding/json
-- and of gopkg.in/errgo.v1.
pub mod Answers
use juju_utils.Common.{
  ℕ, Bool, true, false, ◌&&◌, ◌||◌, not, Option, none, some, List, [], ◌∷◌, ◌++◌, if◌then◌else◌,
}
use juju_utils.Common.Bytes.{Bytes, codes}
use juju_utils.Common.Results.{Result, ok, err}

-- The calls on an `http.ResponseWriter` and its header, in their order.
pub data Call : Type 0 where
  sets_header : Bytes → Bytes → Call
  writes_header : ℕ → Call
  writes : Bytes → Call
  flushes : Call

pub record Web : Type 1 where
  pub Value : Type 0
  pub Error : Type 0
  pub marshal : Value → Result Error Bytes
  -- `errgo.Mask(err)` and `errgo.Mask(err, errgo.Any)`
  pub mask : Error → Error
  pub mask_any : Error → Error

-- `responseWriter`, with the calls that it has passed on.
pub record ResponseWriter : Type 0 where
  pub header_written : Bool
  pub calls : List Call

-- A call on it. `can_flush` says whether the writer that it wraps is a Flusher.
unfoldable pub on_writer : Bool → Call → ResponseWriter → ResponseWriter
on_writer can_flush (sets_header key value) w = record w {
  calls = w.calls ++ sets_header key value ∷ [];
}
on_writer can_flush (writes_header code) w = record {
  header_written = true;
  calls = w.calls ++ writes_header code ∷ [];
}
on_writer can_flush (writes text) w = record {
  header_written = true;
  calls = w.calls ++ writes text ∷ [];
}
on_writer can_flush flushes w = record {
  header_written = true;
  calls = if can_flush then w.calls ++ flushes ∷ [] else w.calls;
}

unfoldable pub on_writer_all : Bool → List Call → ResponseWriter → ResponseWriter
unfolding on_writer
on_writer_all can_flush [] w = w
on_writer_all can_flush (c ∷ cs) w = on_writer_all can_flush cs (on_writer can_flush c w)

abbrev pub wrapped : ResponseWriter
wrapped = record { header_written = false; calls = [] }

-- The header that a `JSONHandler` sets.
abbrev pub headers_set : List (Bytes × Bytes) → List Call
headers_set [] = []
headers_set ((key, value) ∷ headers) = sets_header key value ∷ headers_set headers

module _ (web : Web) where
  open web use {Value, Error, marshal, mask, mask_any}

  -- `ErrorToResponse`.
  abbrev pub ErrorToResponse : Type 0
  ErrorToResponse = Error → ℕ × Value

  -- What a handler does with its writer for one request, and what it returns.
  abbrev pub ErrorHandler : Type 0
  ErrorHandler = List Call × Option Error

  -- `WriteJSON`: the calls on the writer, and the error.
  abbrev pub marshalled : ℕ → Result Error Bytes → List Call × Option Error
  marshalled code (err e) = ([], some (mask e))
  marshalled code (ok text) = (
    sets_header (codes "content-type") (codes "application/json")
        ∷ writes_header code
        ∷ writes text
        ∷ [],
    none,
  )

  unfoldable pub write_json : ℕ → Value → List Call × Option Error
  write_json code value = marshalled code (marshal value)

  -- `WriteError`; the error of `WriteJSON` is dropped.
  unfoldable pub write_error : ErrorToResponse → Error → List Call
  unfolding write_json
  write_error err_to_resp e = let (status, resp) = err_to_resp e in (write_json status resp).0

  abbrev pub handled : ErrorToResponse → ResponseWriter → Option Error → List Call
  handled err_to_resp w none = w.calls
  handled err_to_resp w (some e) =
      w.calls ++ (if not w.header_written then write_error err_to_resp e else [])

  -- `HandleErrors`: the calls on the writer of the server.
  unfoldable pub handle_errors : Bool → ErrorToResponse → ErrorHandler → List Call
  unfolding on_writer_all write_error
  handle_errors can_flush err_to_resp (calls, returned) =
      handled err_to_resp (on_writer_all can_flush calls wrapped) returned

  -- `JSONHandler`: the headers that it sets, and what it returns.
  abbrev pub JsonHandler : Type 0
  JsonHandler = List (Bytes × Bytes) × Result Error Value

  -- The handler that `HandleJSON` makes for `HandleErrors`.
  abbrev pub as_error_handler : JsonHandler → ErrorHandler
  as_error_handler (headers, err e) = (headers_set headers, some (mask_any e))
  as_error_handler (headers, ok value) =
      let (calls, returned) = write_json 200 value in (headers_set headers ++ calls, returned)

  -- `HandleJSON`.
  unfoldable pub handle_json : Bool → ErrorToResponse → JsonHandler → List Call
  unfolding handle_errors write_json
  handle_json can_flush err_to_resp handler =
      handle_errors can_flush err_to_resp (as_error_handler handler)
