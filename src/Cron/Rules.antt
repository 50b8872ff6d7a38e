-- ===== src/Cron/Rules.antt =====
-- What adding and removing the rule of a job leaves in the crontab.
use nanocl.Prelude.{
  Text, codes, Bool, true, false, not, ◌||◌, List, [], ◌∷◌, ◌++◌, all, all-append, retain,
  retain-append, retain-all, join, lines, unlines, unlines-append, lines-unlines, is_line, contains,
  starts_with, starts_with-append, append-nil, append_assoc, ◌≡◌, refl, sym, ap, ap₂, ◌∙◌,
}
use nanocl.Io.{Result, ok, err}
use nanocl.Workload.{Job}
use nanocl.Cron.{
  Crontab, format_cron_job_command, cron_rule, add_cron_rule, without_rule, remove_cron_rule,
  exec_crontab,
}

contains_start : (t s : Text) → starts_with t s ≡ true → contains t s ≡ true
unfolding contains
contains_start t [] h = h
contains_start t (x ∷ s) h = rw h refl

or_true : (b : Bool) → (b || true) ≡ true
or_true true = refl
or_true false = refl

contains_append : (t s : Text) → contains t (s ++ t) ≡ true
unfolding contains
contains_append t [] =
    contains_start t t (ap (starts_with t) (sym (append-nil t)) ∙ starts_with-append t [])
contains_append t (x ∷ s) = rw (contains_append t s) (or_true (starts_with t (x ∷ s ++ t)))

join-unlines : (l : Text) (ls : List Text) → join (10 ∷ []) (l ∷ ls) ++ 10 ∷ [] ≡ unlines (l ∷ ls)
unfolding join unlines
join-unlines l [] = refl
join-unlines l (m ∷ ls) =
    append_assoc l (10 ∷ join (10 ∷ []) (m ∷ ls)) (10 ∷ [])
    ∙ ap (λ r. l ++ 10 ∷ r) (join-unlines m ls)

unlines-single : (l : Text) → unlines (l ∷ []) ≡ l ++ 10 ∷ []
unfolding unlines
unlines-single l = refl

module _ {A : Type 0} (p : A → Bool) (x : A) where
  all-single : p x ≡ true → all p (x ∷ []) ≡ true
  unfolding all
  all-single h = rw h refl

  retain-single : p x ≡ false → retain p (x ∷ []) ≡ []
  unfolding retain
  retain-single h = rw h refl

text_of : Result Text → Text
text_of (ok x) = x
text_of (err _) = []

module _ {World : Type 0} (t : Crontab World) where
  -- What the calls do to the file that is written where they succeed; a run of `crontab` that exits
  -- with success makes that file the table.
  pub record IsKept : Type 0 where
    pub written : World → Text
    pub copy_ok :
        (text : Text) (w : World)
        → t.table w ≡ ok text
        → (t.copy w).0 ≡ ok tt
        → written (t.copy w).1 ≡ text
    pub append_ok :
        (text : Text) (w : World)
        → (t.append text w).0 ≡ ok tt
        → written (t.append text w).1 ≡ written w ++ text
    pub write_ok :
        (text : Text) (w : World) → (t.write text w).0 ≡ ok tt → written (t.write text w).1 ≡ text
    pub crontab_ok :
        (w : World) → (t.crontab w).0 ≡ ok true → t.table (t.crontab w).1 ≡ ok (written w)

  -- a line that is not of the job
  abbrev pub spares : Job → Text → Bool
  spares job line = not (contains (format_cron_job_command t job) line)

  spares-cron_rule : (job : Job) (schedule : Text) → spares job (cron_rule t job schedule) ≡ false
  unfolding cron_rule
  spares-cron_rule job schedule =
      let cmd = format_cron_job_command t job in
      ap not (
        ap (contains cmd) (sym (append_assoc schedule (codes " ") cmd))
        ∙ contains_append cmd (schedule ++ codes " "))

  without_rule-added :
      (job : Job) (schedule : Text) (l : Text) (ls : List Text)
      → all is_line (l ∷ ls) ≡ true
      → is_line (cron_rule t job schedule) ≡ true
      → all (spares job) (l ∷ ls) ≡ true
      → without_rule t job (unlines (l ∷ ls) ++ (cron_rule t job schedule ++ 10 ∷ []))
        ≡ unlines (l ∷ ls)
  unfolding without_rule
  without_rule-added job schedule l ls lines_ok rule_ok spared =
      let rule = cron_rule t job schedule in
      let one : unlines (rule ∷ []) ≡ rule ++ 10 ∷ [] = unlines-single rule in
      let all_ok : all is_line ((l ∷ ls) ++ rule ∷ []) ≡ true =
        all-append is_line (l ∷ ls) (rule ∷ []) ∙ rw lines_ok (all-single is_line rule rule_ok) in
      let text : lines (unlines (l ∷ ls) ++ (rule ++ 10 ∷ [])) ≡ (l ∷ ls) ++ rule ∷ [] =
        ap lines (sym (unlines-append (l ∷ ls) (rule ∷ []) ∙ ap (λ x. unlines (l ∷ ls) ++ x) one))
        ∙ lines-unlines _ all_ok in
      let kept : retain (spares job) ((l ∷ ls) ++ rule ∷ []) ≡ l ∷ ls =
        retain-append (spares job) (l ∷ ls) (rule ∷ [])
        ∙ ap₂ (λ a b. a ++ b) (retain-all (spares job) (l ∷ ls) spared)
            (retain-single (spares job) rule (spares-cron_rule job schedule))
        ∙ append-nil (l ∷ ls) in
      ap (λ x. join (10 ∷ []) (retain (spares job) x) ++ 10 ∷ []) text
      ∙ ap (λ x. join (10 ∷ []) x ++ 10 ∷ []) kept
      ∙ join-unlines l ls

  module _ (job : Job) (schedule : Text) (w : World) where
    -- where the table with the rule was copied and written
    abbrev pub copied : World
    copied = (t.copy w).1

    abbrev pub appended : World
    appended = (t.append (cron_rule t job schedule ++ 10 ∷ []) copied).1

    abbrev pub after_add : World
    after_add = (t.crontab appended).1

    -- where the table without the rule was written
    abbrev pub rewritten : Text → World
    rewritten text = (t.write (without_rule t job text) after_add).1

    -- If a table of lines, of which there is one at least and none is of the job, is the table, and
    -- the rule of the job is one line, then after its rule was added and removed again, where the
    -- files could be written and `crontab` exited with success both times, the table is the same.
    pub remove_cron_rule-add_cron_rule :
        IsKept
        → (l : Text) (ls : List Text) → t.table w ≡ ok (unlines (l ∷ ls))
        → all is_line (l ∷ ls) ≡ true
        → is_line (cron_rule t job schedule) ≡ true
        → all (spares job) (l ∷ ls) ≡ true
        → (t.copy w).0 ≡ ok tt
        → (t.append (cron_rule t job schedule ++ 10 ∷ []) copied).0 ≡ ok tt
        → (t.crontab appended).0 ≡ ok true
        → (text : Text) → t.table after_add ≡ ok text
        → (t.write (without_rule t job text) after_add).0 ≡ ok tt
        → (t.crontab (rewritten text)).0 ≡ ok true
        → t.table (remove_cron_rule t job (add_cron_rule t job schedule w).1).1
          ≡ ok (unlines (l ∷ ls))
    unfolding add_cron_rule remove_cron_rule exec_crontab text_of
    remove_cron_rule-add_cron_rule kept l ls table lines_ok rule_ok spared copies appends runs text
          read writes reruns =
        let rule = cron_rule t job schedule ++ 10 ∷ [] in
        let new : kept.written appended ≡ unlines (l ∷ ls) ++ rule =
          kept.append_ok rule copied appends
          ∙ ap (λ x. x ++ rule) (kept.copy_ok (unlines (l ∷ ls)) w table copies) in
        let same : text ≡ unlines (l ∷ ls) ++ rule =
          ap text_of (sym read ∙ kept.crontab_ok appended runs) ∙ new in
        rw (copies, appends, read, writes)
          (kept.crontab_ok (rewritten text) reruns
            ∙ ap ok (
                kept.write_ok (without_rule t job text) after_add writes
                ∙ ap (without_rule t job) same
                ∙ without_rule-added job schedule l ls lines_ok rule_ok spared))
