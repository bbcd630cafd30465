-- ===== src/Db/Table/Consolidated.antt =====
-- What `ConsolidateDay` leaves in the table.
use Prim.Native.String.{String}
use text.Mathlib.TextEquality.{eq_iff}
use ve_xchange_api.Prelude.{
  ◌≡◌, ◌≢◌, refl, ap, ◌∙◌, ◌<◌, Bool, true, false, not, Option, none, some, List, [], ◌∷◌, ◌++◌,
  arith, if◌then◌else◌,
}
use mathlib.Core.Path.{subst}
use mathlib.Core.List.{append-nil}
use ve_xchange_api.GoTime.{Time}
use ve_xchange_api.Db.Table.{
  Row, Calls, DbError, in_window, select, delete, values, is_raw, is_old_average, average_row,
  begin_failed, avg_failed, delete_raw_failed, delete_average_failed, insert_failed, commit_failed,
  finish, consolidate_day,
}

module _ {ℓ} {F : Type ℓ} where
  select-append :
      (test : Row F → Bool) (xs ys : List (Row F))
      → select test (xs ++ ys) ≡ select test xs ++ select test ys
  unfolding select
  select-append test [] ys = refl
  select-append test (x ∷ xs) ys = ground (arith, select-append test xs ys)

  -- Nothing is left of what one of two deletions took.
  module _ (c : String) (from to : Time) where
    abbrev cleared : List (Row F) → List (Row F)
    cleared table = delete (is_old_average c from to) (delete (is_raw c from to) table)

    select-cleared : (table : List (Row F)) → select (in_window c from to) (cleared table) ≡ []
    unfolding select
    select-cleared [] = refl
    select-cleared (x ∷ xs) = ground (arith, select-cleared xs)

    delete-cleared :
        (table : List (Row F))
        → delete (in_window c from to) (cleared table) ≡ delete (in_window c from to) table
    unfolding select
    delete-cleared [] = refl
    delete-cleared (x ∷ xs) = ground (arith, delete-cleared xs)

    raw-cleared : (table : List (Row F)) → select (is_raw c from to) (cleared table) ≡ []
    unfolding select
    raw-cleared [] = refl
    raw-cleared (x ∷ xs) = ground (arith, raw-cleared xs)

  -- What a run leaves: the table as it was, with an error or because the window has no raw row, or the
  -- average of the window's raw rows in place of the window's rows.
  data Outcome (avg : List F → F) (c : String) (from to : Time) (table : List (Row F))
      : Option DbError × List (Row F) → Type ℓ where
    failed : (e : DbError) → Outcome avg c from to table (some e, table)
    nothing :
        values (select (is_raw c from to) table) ≡ [] → Outcome avg c from to table (none, table)
    replaced :
        values (select (is_raw c from to) table) ≢ []
        → Outcome avg c from to table (
          none,
          cleared c from to table
              ++ (average_row c (avg (values (select (is_raw c from to) table))) from ∷ []),
        )

  module _ (avg : List F → F) (calls : Calls) (c : String) (from to : Time)
      (table : List (Row F)) where
    abbrev raw : List F
    raw = values (select (is_raw c from to) table)

    guarded :
        (succeeds : Bool) (e : DbError) {rest : Option DbError × List (Row F)}
        → Outcome avg c from to table rest
        → Outcome avg c from to table (if not succeeds then (some e, table) else rest)
    guarded true e o = o
    guarded false e o = failed e

    finish-Outcome :
        (vs : List F) → raw ≡ vs → Outcome avg c from to table (finish avg calls c from to table vs)
    finish-Outcome [] q = guarded calls.commits commit_failed (nothing q)
    finish-Outcome (v ∷ vs) q = guarded calls.deletes_raw delete_raw_failed (
        guarded calls.deletes_average delete_average_failed (
          guarded calls.inserts insert_failed (
            guarded calls.commits commit_failed (
              subst
                (λ l.
                  Outcome avg c from to table
                    (none, cleared c from to table ++ (average_row c (avg l) from ∷ [])))
                q (replaced λ empty. absurd (cc))))))

    consolidate_day-Outcome :
        Outcome avg c from to table (consolidate_day avg calls c from to table)
    unfolding consolidate_day
    consolidate_day-Outcome =
        guarded calls.begins begin_failed
          (guarded calls.averages avg_failed (finish-Outcome raw refl))

  abbrev raws : String → Time → Time → List (Row F) → List F
  raws c from to table = values (select (is_raw c from to) table)

  -- The row of the average.
  abbrev kept : String → Time → Time → List (Row F) → (List F → F) → Row F
  kept c from to table avg = average_row c (avg (raws c from to table)) from

  no_raw :
      (c : String) (from to : Time) (row : Row F)
      → row.is_average ≡ true
      → is_raw c from to row ≡ false
  no_raw c from to row h = ground arith

  in_window-average_row :
      (c : String) (v : F) (from to : Time)
      → from.ns < to.ns
      → in_window c from to (average_row c v from) ≡ true
  in_window-average_row c v from to h = ground (arith, eq_iff c c)

  select-none : (test : Row F → Bool) (row : Row F) → test row ≡ false → select test (row ∷ []) ≡ []
  unfolding select
  select-none test row h = rw h

  select-one :
      (test : Row F → Bool) (row : Row F) → test row ≡ true → select test (row ∷ []) ≡ row ∷ []
  unfolding select
  select-one test row h = rw h

  window-Outcome :
      {avg : List F → F} {c : String} {from to : Time} {table : List (Row F)}
      {o : Option DbError × List (Row F)}
      → from.ns < to.ns
      → Outcome avg c from to table o
      → delete (in_window c from to) o.1 ≡ delete (in_window c from to) table
  window-Outcome h (failed e) = refl
  window-Outcome h (nothing q) = refl
  window-Outcome {avg = avg} {c = c} {from = from} {to = to} {table = table} h (replaced q) =
      select-append (λ row. not (in_window c from to row)) (cleared c from to table) _
      ∙ rw
          (
            delete-cleared c from to table,
            select-none (λ row. not (in_window c from to row)) (kept c from to table avg)
                (ap not (in_window-average_row c (avg (raws c from to table)) from to h)),
          )
          (append-nil _)

  -- Whatever calls fail, the rows of other currencies and of times outside of the window, which is not
  -- empty, stay as they are.
  pub delete-consolidate_day :
      (avg : List F → F) (calls : Calls) (c : String) (from to : Time) (table : List (Row F))
      → from.ns < to.ns
      → delete (in_window c from to) (consolidate_day avg calls c from to table).1
        ≡ delete (in_window c from to) table
  delete-consolidate_day avg calls c from to table h =
      window-Outcome h (consolidate_day-Outcome avg calls c from to table)

  error_keeps :
      {avg : List F → F} {c : String} {from to : Time} {table : List (Row F)}
      {o : Option DbError × List (Row F)} (e : DbError)
      → Outcome avg c from to table o
      → o.0 ≡ some e
      → o.1 ≡ table
  error_keeps e (failed e') q = refl
  error_keeps e (nothing q') q = refl
  error_keeps e (replaced q') q = absurd (cc)

  -- A run with an error, whichever call failed, leaves the table as it was.
  consolidate_day_err :
      (avg : List F → F) (calls : Calls) (c : String) (from to : Time) (table : List (Row F))
      (e : DbError)
      → (consolidate_day avg calls c from to table).0 ≡ some e
      → (consolidate_day avg calls c from to table).1 ≡ table
  consolidate_day_err avg calls c from to table e =
      error_keeps e (consolidate_day-Outcome avg calls c from to table)

  window-replaced :
      {avg : List F → F} {c : String} {from to : Time} {table : List (Row F)}
      {o : Option DbError × List (Row F)}
      → from.ns < to.ns
      → Outcome avg c from to table o
      → values (select (is_raw c from to) table) ≢ []
      → o.0 ≡ none
      → select (in_window c from to) o.1
        ≡ average_row c (avg (values (select (is_raw c from to) table))) from ∷ []
  window-replaced h (failed e) ne q = absurd (cc)
  window-replaced h (nothing empty) ne q = absurd (ne empty)
  window-replaced {avg = avg} {c = c} {from = from} {to = to} {table = table} h (replaced q') ne q =
      select-append (in_window c from to) (cleared c from to table) _
      ∙ rw (
        select-cleared c from to table,
        select-one (in_window c from to) (kept c from to table avg)
            (in_window-average_row c (avg (raws c from to table)) from to h),
      )

  -- A run without an error on a window that is not empty and has a raw row leaves one row of the
  -- currency in the window, at its start: the average of the values of the raw rows that were there.
  pub consolidate_day_ok :
      (avg : List F → F) (calls : Calls) (c : String) (from to : Time) (table : List (Row F))
      → from.ns < to.ns
      → values (select (is_raw c from to) table) ≢ []
      → (consolidate_day avg calls c from to table).0 ≡ none
      → select (in_window c from to) (consolidate_day avg calls c from to table).1
        ≡ average_row c (avg (values (select (is_raw c from to) table))) from ∷ []
  consolidate_day_ok avg calls c from to table h =
      window-replaced h (consolidate_day-Outcome avg calls c from to table)

  -- A window without a raw row stays as it is.
  pub consolidate_day-no_raw :
      (avg : List F → F) (calls : Calls) (c : String) (from to : Time) (table : List (Row F))
      → values (select (is_raw c from to) table) ≡ []
      → (consolidate_day avg calls c from to table).1 ≡ table
  unfolding consolidate_day
  consolidate_day-no_raw avg calls c from to table empty = rw empty (ground arith)

  raw-after :
      {avg : List F → F} {c : String} {from to : Time} {table : List (Row F)}
      {o : Option DbError × List (Row F)}
      → Outcome avg c from to table o
      → o.0 ≡ none
      → values (select (is_raw c from to) o.1) ≡ []
  unfolding values
  raw-after (failed e) q = absurd (cc)
  raw-after (nothing empty) q = empty
  raw-after {avg = avg} {c = c} {from = from} {to = to} {table = table} (replaced q') q =
      ap values (select-append (is_raw c from to) (cleared c from to table) _)
      ∙ rw (
        raw-cleared c from to table,
        select-none (is_raw c from to) (kept c from to table avg)
            (no_raw c from to (kept c from to table avg) refl),
      )

  unchanged :
      {avg : List F → F} {c : String} {from to : Time} {table : List (Row F)}
      {o : Option DbError × List (Row F)}
      → Outcome avg c from to table o
      → values (select (is_raw c from to) table) ≡ []
      → o.1 ≡ table
  unchanged (failed e) q = refl
  unchanged (nothing empty) q = refl
  unchanged (replaced q') q = absurd (q' q)

  -- After a run without an error, another run of the same window changes nothing, whether it succeeds
  -- or not.
  pub consolidate_day_idem :
      (avg : List F → F) (calls calls' : Calls) (c : String) (from to : Time) (table : List (Row F))
      → (consolidate_day avg calls c from to table).0 ≡ none
      → let (error, table') = consolidate_day avg calls c from to table in
        (consolidate_day avg calls' c from to table').1 ≡ table'
  consolidate_day_idem avg calls calls' c from to table q =
      unchanged
        (consolidate_day-Outcome avg calls' c from to (consolidate_day avg calls c from to table).1)
        (raw-after (consolidate_day-Outcome avg calls c from to table) q)
