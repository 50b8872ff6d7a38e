-- ===== src/Errors.antt =====
-- The errors of crates/nanocl_error and the conversions between them: io.rs, http.rs, http_client.rs.
-- Errors have no code of the operating system, whose messages io.rs makes uniform.
pub mod Status
use nanocl.Prelude.{
  ℕ, Text, codes, leb, ◌-◌, ◌&&◌, ltb, Option, none, some, List, [], ◌∷◌, ◌++◌, if◌then◌else◌,
}
use nanocl.Io.{IoError, ErrorKind, with_context}
use nanocl.Http.{HttpError, bad_request, not_found, internal_server_error, conflict, bad_gateway}
use nanocl.Backend.{DockerError, response, failed}

-- the first letter, if it is one of ASCII, as a capital
unfoldable pub capitalize : Text → Text
capitalize [] = []
capitalize (c ∷ text) = (if leb b'a' c && leb c b'z' then c - 32 else c) ∷ text

abbrev in_front : Option Text → Text → Text
in_front none m = m
in_front (some ctx) m = ctx ++ (codes ": " ++ m)

-- `Display` of an `IoError`
unfoldable pub io_to_string : IoError → Text
io_to_string e = in_front e.context (capitalize e.message)

-- `HttpError::from` an `IoError`
unfoldable pub http_of_kind : ErrorKind → Text → HttpError
http_of_kind ErrorKind.not_found m = not_found m
http_of_kind ErrorKind.already_exists m = conflict m
http_of_kind ErrorKind.connection_aborted m = bad_gateway m
http_of_kind ErrorKind.connection_refused m = bad_gateway m
http_of_kind ErrorKind.invalid_data m = bad_request m
http_of_kind ErrorKind.invalid_input m = bad_request m
http_of_kind ErrorKind.interrupted m = internal_server_error m
http_of_kind ErrorKind.timed_out m = internal_server_error m
http_of_kind ErrorKind.other m = internal_server_error m

unfoldable pub http_of_io : IoError → HttpError
http_of_io e = http_of_kind e.kind (io_to_string e)

-- `map_err_context` of an `IoError` and of an `HttpError`
unfoldable pub io_in_context : Text → IoError → IoError
io_in_context context e = record e { context = some context }

unfoldable pub http_in_context : Text → HttpError → HttpError
http_in_context context e = record e { msg = context ++ (codes ": " ++ e.msg) }

-- `HttpError::from` an error of Docker; a status that is none becomes 500
unfoldable pub http_of_docker : DockerError → HttpError
http_of_docker (response status m) =
    if leb 100 status && ltb status 1000
    then record { msg = m; status = status }
    else internal_server_error m
http_of_docker (failed m) = internal_server_error m

-- `diesel::result::Error`: nothing was found, a violation of uniqueness or another error of the
-- database with its details, or another error with its text
pub data DieselError : Type 0 where
  absent_row : Text → DieselError
  unique_violation database_error : Option Text → DieselError
  diesel_error : Text → DieselError

abbrev details : Option Text → Text
details none = []
details (some m) = m

unfoldable pub io_of_diesel : Text → DieselError → IoError
io_of_diesel context (absent_row m) = with_context ErrorKind.not_found context m
io_of_diesel context (unique_violation m) =
    with_context ErrorKind.already_exists context (details m)
io_of_diesel context (database_error m) = with_context ErrorKind.invalid_data context (details m)
io_of_diesel context (diesel_error m) = with_context ErrorKind.invalid_data context m

-- an error of a request: it took too long, the connection ended or could not be made, or another
-- one; with its text
pub data SendRequestError : Type 0 where
  timeout disconnected not_connected send_error : Text → SendRequestError

unfoldable pub io_of_send : Text → SendRequestError → IoError
io_of_send context (timeout m) = with_context ErrorKind.timed_out context m
io_of_send context (disconnected m) = with_context ErrorKind.connection_aborted context m
io_of_send context (not_connected m) = with_context ErrorKind.connection_refused context m
io_of_send context (send_error m) = with_context ErrorKind.interrupted context m

pub data HttpClientError : Type 0 where
  io_error : IoError → HttpClientError
  http_error : HttpError → HttpClientError

-- `HttpError::from` a client's error
unfoldable pub http_of_client : HttpClientError → HttpError
http_of_client (io_error e) = http_of_io e
http_of_client (http_error e) = e

unfoldable pub client_in_context : Text → HttpClientError → HttpClientError
client_in_context context (io_error e) = io_error (io_in_context context e)
client_in_context context (http_error e) = http_error (http_in_context context e)

-- with the text of a status
module _ (show_status : ℕ → Text) where
  -- `Display` of an `HttpError`
  unfoldable pub http_to_string : HttpError → Text
  http_to_string e = codes "[" ++ (show_status e.status ++ (codes "] " ++ e.msg))

  -- `IoError::from` an `HttpError`
  unfoldable pub io_of_http : HttpError → IoError
  io_of_http e = record {
    context = none;
    kind = ErrorKind.invalid_data;
    message = http_to_string e;
  }

  -- `IoError::from` a client's error
  unfoldable pub io_of_client : HttpClientError → IoError
  io_of_client (io_error e) = e
  io_of_client (http_error e) = io_of_http e
