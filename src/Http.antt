-- ===== src/Http.antt =====
-- Errors of crates/nanocl_error/src/http.rs.
pub mod Effect
use nanocl.Prelude.{ℕ, Text, ◌≡◌, refl, ◌⊎◌, inl, inr}

pub record HttpError : Type 0 where
  pub msg : Text
  pub status : ℕ

pub data HttpResult {ℓ} (A : Type ℓ) : Type ℓ where
  ok : A → HttpResult A
  err : HttpError → HttpResult A

-- `HttpError::bad_request`
abbrev pub bad_request : Text → HttpError
bad_request m = record { msg = m; status = 400 }

abbrev pub not_found : Text → HttpError
not_found m = record { msg = m; status = 404 }

abbrev pub internal_server_error : Text → HttpError
internal_server_error m = record { msg = m; status = 500 }

abbrev pub conflict : Text → HttpError
conflict m = record { msg = m; status = 409 }

abbrev pub bad_gateway : Text → HttpError
bad_gateway m = record { msg = m; status = 502 }

pub HttpResult-cases {ℓ} :
    {A : Type ℓ} (r : HttpResult A)
    → ((a : A) × (r ≡ HttpResult.ok a)) ⊎ ((e : HttpError) × (r ≡ HttpResult.err e))
HttpResult-cases (ok a) = inl (a, refl)
HttpResult-cases (err e) = inr (e, refl)
