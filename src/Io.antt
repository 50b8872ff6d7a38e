-- ===== src/Io.antt =====
-- Errors of crates/nanocl_error/src/io.rs, and results that may be one.
use nanocl.Prelude.{Text, Option, some, ◌≡◌, refl, ◌⊎◌, inl, inr}

-- `std::io::ErrorKind`, as far as the program tells kinds apart
pub data ErrorKind : Type 0 where
  invalid_data invalid_input not_found interrupted other already_exists connection_aborted
        connection_refused timed_out :
      ErrorKind

pub record IoError : Type 0 where
  pub context : Option Text
  pub kind : ErrorKind
  pub message : Text

pub data Result {ℓ} (A : Type ℓ) : Type ℓ where
  ok : A → Result A
  err : IoError → Result A

infixl 5 ◌>>=◌ ◌>>◌
abbrev pub ◌>>=◌ {ℓ κ} : {A : Type ℓ} {B : Type κ} → Result A → (A → Result B) → Result B
ok a >>= f = f a
err e >>= f = err e

abbrev pub ◌>>◌ {ℓ κ} : {A : Type ℓ} {B : Type κ} → Result A → Result B → Result B
m >> k = m >>= λ _. k

abbrev pub map_ok : {A B : Type 0} → (A → B) → Result A → Result B
map_ok f (ok a) = ok (f a)
map_ok f (err e) = err e

-- `IoError::with_context` over a new `std::io::Error`
abbrev pub with_context : ErrorKind → Text → Text → IoError
with_context k c m = record { context = some c; kind = k; message = m }

pub Result-cases {ℓ} :
    {A : Type ℓ} (r : Result A) → ((a : A) × (r ≡ ok a)) ⊎ ((e : IoError) × (r ≡ err e))
Result-cases (ok a) = inl (a, refl)
Result-cases (err e) = inr (e, refl)
