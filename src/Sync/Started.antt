-- ===== src/Sync/Started.antt =====
-- What the status table says of a cargo after the start of the daemon.
use mathlib.Core.Path.{fun_ext}
use nanocl.Prelude.{
  Text, ◌=ₜ◌, =ₜ_sound, Option, none, some, ◌≡◌, ap, sym, ◌∙◌, Option-cases, Bool-cases, inl, inr,
  if◌then◌else◌,
}
use nanocl.Io.{ok}
use nanocl.System.Status
use nanocl.System.Status.{ObjPsStatusKind}
use nanocl.Workload.{Cargo}
use nanocl.Backend.{Backend}
use nanocl.Backend.Laws.{Columns, IsLawful, set_rows}
use nanocl.Sync.{Inspection, Node, actual_of, and_then, report, report_update, sync_cargo_status}

-- What the container says is the actual status, and a start is what is wanted, whatever was wanted.
abbrev pub reported : Option ObjPsStatusKind → Option Columns → Option Columns
reported none row = row
reported (some actual) none = none
reported (some actual) (some c) =
    some (record c {
      wanted = Status.to_string ObjPsStatusKind.start;
      actual = Status.to_string actual;
    })

-- the rows with that of the key reported
abbrev pub report_row :
    Text → Option ObjPsStatusKind → (Text → Option Columns) → Text → Option Columns
report_row key actual rows j = if key =ₜ j then reported actual (rows key) else rows j

report_row-none : (key : Text) (rows : Text → Option Columns) → rows ≡ report_row key none rows
report_row-none key rows = fun_ext λ j. elim (Bool-cases (key =ₜ j)) [
  | inl e ↦ rw e (ap rows (sym (=ₜ_sound key j e)))
  | inr e ↦ rw e
]

report_row-some :
    (key : Text) (actual : ObjPsStatusKind) (rows : Text → Option Columns)
    → set_rows key (report_update actual) rows ≡ report_row key (some actual) rows
report_row-some key actual rows =
    fun_ext λ j. elim (Option-cases (rows key)) [ inl e ↦ rw e | inr (c, e) ↦ rw e ]

module _ {World Data : Type 0} (b : Backend World) (l : IsLawful b) (n : Node World Data) where
  report_lem :
      (key : Text) (actual : Option ObjPsStatusKind) (w : World)
      → (report b n key actual w).0 ≡ ok tt
      → l.see (report b n key actual w).1
        ≡ record (l.see w) { rows = report_row key actual (l.see w).rows }
  report_lem key none w h =
      ap (λ r. record (l.see w) { rows = r }) (report_row-none key (l.see w).rows)
  report_lem key (some actual) w h =
      l.update_ok key (report_update actual) w h
      ∙ ap (λ r. record (l.see w) { rows = r }) (report_row-some key actual (l.see w).rows)

  -- Where it succeeds, the status of a container goes into the row of its cargo and no other, with a
  -- start that is wanted whatever was wanted before; no event is sent, and Docker not called.
  pub sync_cargo_status-reported :
      (cargo : Cargo) (container : Inspection Data) (w : World)
      → (sync_cargo_status b n cargo container w).0 ≡ ok tt
      → l.see (sync_cargo_status b n cargo container w).1 ≡ record (l.see w) {
        rows = report_row cargo.cargo_key (and_then container.status actual_of) (l.see w).rows;
      }
  unfolding sync_cargo_status
  sync_cargo_status-reported cargo container w h =
      report_lem cargo.cargo_key (and_then container.status actual_of) w h
