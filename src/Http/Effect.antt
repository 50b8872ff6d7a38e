-- ===== src/Http/Effect.antt =====
-- Computations whose errors are answers of the HTTP interface.
use nanocl.Io.{Result, ok, err}
use nanocl.Http.{HttpError, HttpResult}
use nanocl.Effect.{Effect}
use nanocl.Errors.{http_of_io}

abbrev pub HttpEffect : Type 0 → Type 0 → Type 0
HttpEffect World A = World → HttpResult A × World

module _ {A : Type 0} where
  abbrev pub converted : Result A → HttpResult A
  converted (ok a) = HttpResult.ok a
  converted (err e) = HttpResult.err (http_of_io e)

module _ {World A : Type 0} where
  abbrev pub pure : A → HttpEffect World A
  pure a w = (HttpResult.ok a, w)

  abbrev pub raise : HttpError → HttpEffect World A
  raise e w = (HttpResult.err e, w)

  -- `m?` where `m` fails with an `IoError`
  abbrev pub io : Effect World A → HttpEffect World A
  io m w = (converted (m w).0, (m w).1)

  -- a call that only reads
  abbrev pub reading : (World → HttpResult A) → HttpEffect World A
  reading f w = (f w, w)

module _ {World A B : Type 0} where
  abbrev pub continue : HttpResult A → (A → HttpEffect World B) → HttpEffect World B
  continue (HttpResult.ok a) f w = f a w
  continue (HttpResult.err e) f w = (HttpResult.err e, w)

  infixl 5 ◌>>=◌ ◌>>◌
  abbrev pub ◌>>=◌ : HttpEffect World A → (A → HttpEffect World B) → HttpEffect World B
  ◌>>=◌ m f w = continue (m w).0 f (m w).1

  abbrev pub ◌>>◌ : HttpEffect World A → HttpEffect World B → HttpEffect World B
  ◌>>◌ m n w = continue (m w).0 (λ _. n) (m w).1
