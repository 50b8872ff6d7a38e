-- ===== src/Tests/Errors.antt =====
-- A conflict that passes through an `IoError`.
use nanocl.Prelude.{codes, show, ◌≡◌}
use nanocl.Io.{IoError, with_context, ErrorKind}
use nanocl.Http.{HttpError, conflict}
use nanocl.Errors.{http_of_io, io_of_http, http_to_string}
use nanocl.Errors.Status.{http_of_io-io_of_http}

abbrev taken : HttpError
taken = conflict (codes "Vm image box already used")

http_of_io-io_of_http_example :
    http_of_io (io_of_http show taken) ≡ record { msg = http_to_string show taken; status = 400 }
http_of_io-io_of_http_example = http_of_io-io_of_http show taken

abbrev aborted : IoError
aborted = with_context ErrorKind.connection_aborted (codes "Client") (codes "closed")
