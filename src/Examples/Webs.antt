-- ===== src/Examples/Webs.antt =====
-- HTTP at concrete inputs. A value is its text, or nothing that can be marshalled.
use juju_utils.Common.{
  ◌≢◌, ℕ, ◌≡◌, refl, arith, true, false, Option, none, some, List, [], ◌∷◌, if◌then◌else◌,
}
use juju_utils.Common.Bytes.{Bytes, codes}
use juju_utils.Common.Results.{Result, ok, err}
use juju_utils.JsonHttp.{
  Call, writes, flushes, Web, handle_errors, handle_json, on_writer_all, on_writer, write_error,
  write_json,
}
use juju_utils.JsonHttp.Answers.{
  response, any_begins, passed_on, reply, meant, handle_errors-response, handle_json-response,
}

abbrev marshal_option : Option Bytes → Result ℕ Bytes
marshal_option none = err 1
marshal_option (some text) = ok text

abbrev texts : Web
texts = record {
  Value = Option Bytes;
  Error = ℕ;
  marshal = marshal_option;
  mask = λ e. e;
  mask_any = λ e. e;
}

abbrev err_to_resp : ℕ → ℕ × Option Bytes
err_to_resp e = (e, some (codes "no"))

handle_json-response_example :
    response
      (handle_json texts true err_to_resp ((codes "X", codes "y") ∷ [], ok (some (codes "1"))))
    ≡ meant texts err_to_resp (ok (some (codes "1")))
handle_json-response_example =
    handle_json-response texts err_to_resp true ((codes "X", codes "y") ∷ [])
      (ok (some (codes "1")))

abbrev half_written : List Call
half_written = writes (codes "{") ∷ []

handle_errors-response_example :
    response (handle_errors texts true err_to_resp (half_written, some 500)) ≡ (
      if any_begins half_written
      then response (passed_on true half_written)
      else reply texts err_to_resp (some 500))
handle_errors-response_example =
    handle_errors-response texts err_to_resp true half_written (some 500)

-- A flush that does nothing keeps the error from the client.
error_lost : response (handle_errors texts false err_to_resp (flushes ∷ [], some 500)) ≡ (200, [])
unfolding handle_errors on_writer_all on_writer
error_lost = refl

-- As an error whose value cannot be marshalled.
error_unmarshalled : response (handle_errors texts true (λ e. (e, none)) ([], some 500)) ≡ (200, [])
unfolding handle_errors on_writer_all write_error write_json
error_unmarshalled = refl

m_is_no_colon : ◌≢◌ {A = ℕ} 109 58
m_is_no_colon h = ground arith

e_is_no_colon : ◌≢◌ {A = ℕ} 101 58
e_is_no_colon h = ground arith
