-- ===== src/Errors/Status.antt =====
-- The status of an error through the conversions.
use nanocl.Prelude.{ℕ, Text, ◌≡◌, ◌≤◌, ◌<◌, refl, arith}
use nanocl.Io.{IoError, ErrorKind}
use nanocl.Http.{HttpError}
use nanocl.Errors.{
  capitalize, http_of_kind, http_of_io, io_of_http, io_to_string, http_to_string, HttpClientError,
  io_error, http_error, http_of_client, client_in_context, io_in_context, http_in_context,
}

http_of_kind-bounds :
    (k : ErrorKind) (m : Text)
    → (400 ≤ (http_of_kind k m).status) × ((http_of_kind k m).status < 600)
unfolding http_of_kind
http_of_kind-bounds ErrorKind.not_found m = omega arith
http_of_kind-bounds ErrorKind.already_exists m = omega arith
http_of_kind-bounds ErrorKind.connection_aborted m = omega arith
http_of_kind-bounds ErrorKind.connection_refused m = omega arith
http_of_kind-bounds ErrorKind.invalid_data m = omega arith
http_of_kind-bounds ErrorKind.invalid_input m = omega arith
http_of_kind-bounds ErrorKind.interrupted m = omega arith
http_of_kind-bounds ErrorKind.timed_out m = omega arith
http_of_kind-bounds ErrorKind.other m = omega arith

-- Every error that is no answer of a server becomes an answer whose status is that of an error,
-- from 400 to 599.
pub http_of_io-bounds :
    (e : IoError) → (400 ≤ (http_of_io e).status) × ((http_of_io e).status < 600)
unfolding http_of_io
http_of_io-bounds e = http_of_kind-bounds e.kind (io_to_string e)

-- An answer that passes through an error of the other sort, and back, has the status 400, whatever
-- it had, and its old status stands in the message.
pub http_of_io-io_of_http :
    (show_status : ℕ → Text) (e : HttpError)
    → http_of_io (io_of_http show_status e)
      ≡ record { msg = http_to_string show_status e; status = 400 }
unfolding http_of_io io_of_http http_of_kind io_to_string http_to_string capitalize
http_of_io-io_of_http show_status e = refl

pub kind_status :
    (k : ErrorKind) (m n : Text) → (http_of_kind k m).status ≡ (http_of_kind k n).status
unfolding http_of_kind
kind_status ErrorKind.not_found m n = refl
kind_status ErrorKind.already_exists m n = refl
kind_status ErrorKind.connection_aborted m n = refl
kind_status ErrorKind.connection_refused m n = refl
kind_status ErrorKind.invalid_data m n = refl
kind_status ErrorKind.invalid_input m n = refl
kind_status ErrorKind.interrupted m n = refl
kind_status ErrorKind.timed_out m n = refl
kind_status ErrorKind.other m n = refl

-- The error of a client keeps its status, with and without a context.
pub http_of_client-client_in_context :
    (context : Text) (e : HttpClientError)
    → (http_of_client (client_in_context context e)).status ≡ (http_of_client e).status
unfolding http_of_client client_in_context io_in_context http_in_context http_of_io
http_of_client-client_in_context context (io_error e) = kind_status e.kind _ _
http_of_client-client_in_context context (http_error e) = refl
