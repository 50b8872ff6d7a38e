-- ===== src/Status/Conversion.antt =====
-- Storing a status and reading it.
use nanocl.Prelude.{ℕ, ◌≡◌}
use nanocl.Io.{ok}
use nanocl.System.Status.{from_str-to_string}
use nanocl.Status.{ObjPsStatusPartial, try_from, from_partial}

-- The row of a new status is read as that status, with the time of its creation.
pub try_from-from_partial :
    (now : ℕ) (p : ObjPsStatusPartial)
    → try_from (from_partial now p)
      ≡ ok (record {
        updated_at = now;
        wanted = p.wanted;
        prev_wanted = p.prev_wanted;
        actual = p.actual;
        prev_actual = p.prev_actual;
      })
unfolding try_from from_partial
try_from-from_partial now p = rw (
  from_str-to_string p.wanted,
  from_str-to_string p.prev_wanted,
  from_str-to_string p.actual,
  from_str-to_string p.prev_actual,
)
