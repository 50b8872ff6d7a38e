-- ===== src/Status.antt =====
-- Rows of the status table: bin/nanocld/src/models/object_process_status.rs.
pub mod Conversion
pub mod Table
use nanocl.Prelude.{ℕ, Text, Option, none, some, unwrap_or}
use nanocl.Io.{Result, ok, ◌>>=◌}
use nanocl.System.Status
use nanocl.System.Status.{ObjPsStatusKind}
use nanocl.Workload.{ObjPsStatus}

pub record ObjPsStatusDb : Type 0 where
  pub key : Text
  pub created_at : ℕ
  pub updated_at : ℕ
  pub wanted : Text
  pub prev_wanted : Text
  pub actual : Text
  pub prev_actual : Text

-- The columns that an update sets; the others keep their values.
pub record ObjPsStatusUpdate : Type 0 where
  pub wanted : Option Text
  pub prev_wanted : Option Text
  pub actual : Option Text
  pub prev_actual : Option Text

pub record ObjPsStatusPartial : Type 0 where
  pub key : Text
  pub wanted : ObjPsStatusKind
  pub prev_wanted : ObjPsStatusKind
  pub actual : ObjPsStatusKind
  pub prev_actual : ObjPsStatusKind

-- `ObjPsStatusUpdate::default()`
abbrev pub no_update : ObjPsStatusUpdate
no_update = record { wanted = none; prev_wanted = none; actual = none; prev_actual = none }

-- `ObjPsStatus::try_from`
unfoldable pub try_from : ObjPsStatusDb → Result ObjPsStatus
try_from value = do
  wanted ← Status.from_str value.wanted
  prev_wanted ← Status.from_str value.prev_wanted
  actual ← Status.from_str value.actual
  prev_actual ← Status.from_str value.prev_actual
  ok (record {
    updated_at = value.updated_at;
    wanted = wanted;
    prev_wanted = prev_wanted;
    actual = actual;
    prev_actual = prev_actual;
  })

-- `ObjPsStatusDb::from`, at the time `now`
unfoldable pub from_partial : ℕ → ObjPsStatusPartial → ObjPsStatusDb
from_partial now partial = record {
  key = partial.key;
  created_at = now;
  updated_at = now;
  wanted = Status.to_string partial.wanted;
  prev_wanted = Status.to_string partial.prev_wanted;
  actual = Status.to_string partial.actual;
  prev_actual = Status.to_string partial.prev_actual;
}
