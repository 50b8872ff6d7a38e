-- ===== src/Status/Table.antt =====
-- `ObjPsStatusDb::update_actual_status` of bin/nanocld/src/repositories/object_process_status.rs.
use nanocl.Prelude.{
  Text, ◌=ₜ◌, =ₜ_refl, true, false, sym, some, ◌≡◌, refl, ap, ◌∙◌, inl, inr, Bool-cases,
  if◌then◌else◌, some_injective,
}
use nanocl.Io.{IoError, ok, err, Result-cases}
use nanocl.System.Status
use nanocl.System.Status.{ObjPsStatusKind}
use nanocl.Effect.{Effect, pure, reading, ◌>>=◌, ◌>>◌}
use nanocl.Backend.{Backend}
use nanocl.Backend.Laws.{Seen, Columns, IsLawful, columns}
use nanocl.Status.{ObjPsStatusDb, ObjPsStatusUpdate, no_update}

module _ {World : Type 0} (b : Backend World) where
  unfoldable pub update_actual_status : Text → ObjPsStatusKind → Effect World (Unit {0})
  update_actual_status key status = do
    curr_status ← reading (b.read_status key)
    let status = Status.to_string status
    if curr_status.actual =ₜ status
        then pure tt
        else b.update_status key
            (record no_update { actual = some status; prev_actual = some curr_status.actual })

-- The columns after a status was reported: a change moves the old one to `prev_actual`.
abbrev pub report : ObjPsStatusKind → Columns → Columns
report status c =
    if c.actual =ₜ Status.to_string status
    then c
    else record c { actual = Status.to_string status; prev_actual = c.actual }

-- `after` is `before` with the columns of one row set; events and Docker calls are the same.
pub record IsReported (key : Text) (status : ObjPsStatusKind) (before after : Seen) : Type 0 where
  pub old : Columns
  pub found : before.rows key ≡ some old
  pub row : after.rows key ≡ some (report status old)
  pub other : (j : Text) → (key =ₜ j) ≡ false → after.rows j ≡ before.rows j
  pub sent : after.sent ≡ before.sent
  pub calls : after.calls ≡ before.calls

module _ {World : Type 0} (b : Backend World) (l : IsLawful b) where
  module _ (key : Text) (status : ObjPsStatusKind) (w : World) where
    abbrev changed : ObjPsStatusDb → ObjPsStatusUpdate
    changed r = record no_update {
      actual = some (Status.to_string status);
      prev_actual = some r.actual;
    }

    -- what the call is, in each of its three cases
    data Call : Type 0 where
      unread : (e : IoError) → update_actual_status b key status w ≡ (err e, w) → Call
      same :
          (r : ObjPsStatusDb)
          → b.read_status key w ≡ ok r
          → (r.actual =ₜ Status.to_string status) ≡ true
          → update_actual_status b key status w ≡ (ok tt, w)
          → Call
      new :
          (r : ObjPsStatusDb)
          → b.read_status key w ≡ ok r
          → (r.actual =ₜ Status.to_string status) ≡ false
          → update_actual_status b key status w ≡ b.update_status key (changed r) w
          → Call

    call : Call
    unfolding update_actual_status
    call = elim (Result-cases (b.read_status key w)) [
      | inr (e, h) ↦ unread e (rw h)
      | inl (r, h) ↦ elim (Bool-cases (r.actual =ₜ Status.to_string status)) [
        | inl k ↦ same r h k (rw (h, k))
        | inr k ↦ new r h k (rw (h, k))
      ]
    ]

    -- Reporting a status that succeeds sets the row of the key: `actual` becomes the status, and if
    -- it was another one, that becomes `prev_actual`. All other rows stay, and no event is sent.
    pub update_actual_status_lem :
        (update_actual_status b key status w).0 ≡ ok tt
        → IsReported key status (l.see w) (l.see (update_actual_status b key status w).1)
    update_actual_status_lem h = elim call [
      | unread e u ↦ cc (ap (λ r. r.0) u)
      | same r k t u ↦ rw u (record {
        old = columns r;
        found = l.read_ok key w r k;
        row = l.read_ok key w r k ∙ rw t;
        other = λ j _. refl;
        sent = refl;
        calls = refl;
      })
      | new r k t u ↦
          let after = l.update_ok key (changed r) w (sym (ap (λ r. r.0) u) ∙ h) in
          rw (u, after)
            (record {
              old = columns r;
              found = l.read_ok key w r k;
              row = rw (=ₜ_refl key, l.read_ok key w r k, t);
              other = λ j n. rw n;
              sent = refl;
              calls = refl;
            })
    ]

    -- One that fails changes nothing.
    pub update_actual_status-see_err :
        (e : IoError)
        → (update_actual_status b key status w).0 ≡ err e
        → l.see (update_actual_status b key status w).1 ≡ l.see w
    update_actual_status-see_err e h = elim call [
      | unread e' u ↦ rw u
      | same r k t u ↦ rw u
      | new r k t u ↦ rw u (l.update_err key (changed r) w e (sym (ap (λ r. r.0) u) ∙ h))
    ]

  -- a report, and then a computation that changes no row
  pub update_actual_status-then :
      (key : Text) (status : ObjPsStatusKind) (n : Effect World (Unit {0})) (w : World)
      (c : Columns)
      → ((v : World) → (l.see (n v).1).rows ≡ (l.see v).rows)
      → (l.see w).rows key ≡ some c
      → ((update_actual_status b key status >> n) w).0 ≡ ok tt
      → (l.see ((update_actual_status b key status >> n) w).1).rows key ≡ some (report status c)
  update_actual_status-then key status n w c keeps h k =
      elim (Result-cases (update_actual_status b key status w).0) [
        | inr (e, u) ↦ cc (rw u at k)
        | inl (_, u) ↦
            let v = update_actual_status_lem key status w u in
            rw u (
              ap (λ rows. rows key) (keeps (update_actual_status b key status w).1)
              ∙ v.row
              ∙ ap (λ c. some (report status c)) (some_injective (sym v.found ∙ h)))
      ]
