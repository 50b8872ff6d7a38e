-- ===== src/Backend/Laws.antt =====
-- What the daemon relies on: the parts of the world that the theorems speak of, and which calls
-- change them.
use nanocl.Prelude.{
  Text, ◌=ₜ◌, Option, none, some, List, [], ◌∷◌, ◌++◌, ◌≡◌, if◌then◌else◌, unwrap_or,
}
use nanocl.Io.{IoError, ok, err}
use nanocl.System.Event.{Event, EventPartial}
use nanocl.Status.{ObjPsStatusDb, ObjPsStatusUpdate}
use nanocl.Backend.{Backend, DockerCall, Write}

-- the status columns of a row
pub record Columns : Type 0 where
  pub wanted : Text
  pub prev_wanted : Text
  pub actual : Text
  pub prev_actual : Text

-- The rows of the status table, the events sent to the event loop, and the calls made to Docker,
-- whether they succeeded or not.
pub record Seen : Type 0 where
  pub rows : Text → Option Columns
  pub sent : List EventPartial
  pub calls : List DockerCall

abbrev pub columns : ObjPsStatusDb → Columns
columns r = record {
  wanted = r.wanted;
  prev_wanted = r.prev_wanted;
  actual = r.actual;
  prev_actual = r.prev_actual;
}

abbrev pub set_columns : ObjPsStatusUpdate → Columns → Columns
set_columns u c = record {
  wanted = unwrap_or u.wanted c.wanted;
  prev_wanted = unwrap_or u.prev_wanted c.prev_wanted;
  actual = unwrap_or u.actual c.actual;
  prev_actual = unwrap_or u.prev_actual c.prev_actual;
}

abbrev pub update_row : ObjPsStatusUpdate → Option Columns → Option Columns
update_row u none = none
update_row u (some c) = some (set_columns u c)

abbrev pub set_rows : Text → ObjPsStatusUpdate → (Text → Option Columns) → Text → Option Columns
set_rows key u rows j = if key =ₜ j then update_row u (rows key) else rows j

-- an event without what the table adds to it
abbrev pub partial_of : Event → EventPartial
partial_of e = record {
  reporting_node = e.reporting_node;
  reporting_controller = e.reporting_controller;
  kind = e.kind;
  action = e.action;
  reason = e.reason;
  note = e.note;
  actor = e.actor;
  related = e.related;
  metadata = e.metadata;
}

abbrev pub add_sent : EventPartial → Seen → Seen
add_sent p s = record s { sent = s.sent ++ p ∷ [] }

abbrev pub add_call : DockerCall → Seen → Seen
add_call c s = record s { calls = s.calls ++ c ∷ [] }

pub record IsLawful {World : Type 0} (b : Backend World) : Type 0 where
  pub see : World → Seen
  pub read_ok :
      (key : Text) (w : World) (r : ObjPsStatusDb)
      → b.read_status key w ≡ ok r
      → (see w).rows key ≡ some (columns r)
  pub update_ok :
      (key : Text) (u : ObjPsStatusUpdate) (w : World)
      → (b.update_status key u w).0 ≡ ok tt
      → see (b.update_status key u w).1 ≡ record (see w) { rows = set_rows key u (see w).rows }
  pub update_err :
      (key : Text) (u : ObjPsStatusUpdate) (w : World) (e : IoError)
      → (b.update_status key u w).0 ≡ err e
      → see (b.update_status key u w).1 ≡ see w
  pub write_see : (x : Write) (w : World) → see (b.write x w).1 ≡ see w
  pub docker_see : (c : DockerCall) (w : World) → see (b.docker c w).1 ≡ add_call c (see w)
  pub store_see : (p : EventPartial) (w : World) → see (b.store_event p w).1 ≡ see w
  pub store_ok :
      (p : EventPartial) (w : World) (e : Event) → (b.store_event p w).0 ≡ ok e → partial_of e ≡ p
  pub send_ok :
      (e : Event) (w : World)
      → (b.send e w).0 ≡ none
      → see (b.send e w).1 ≡ add_sent (partial_of e) (see w)
  pub send_err :
      (e : Event) (w : World) (m : Text) → (b.send e w).0 ≡ some m → see (b.send e w).1 ≡ see w
