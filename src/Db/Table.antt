-- ===== src/Db/Table.antt =====
-- `InsertRate` and `ConsolidateDay` of internal/db/db.go on the rows of the table prices_history. The
-- SQL statements are written out as what they do to the rows, AVG is the argument `avg`, and `Calls`
-- says which calls of the database succeed; a transaction that is not committed leaves the table.
pub mod Consolidated
use Prim.Native.String.{String}
use text.Mathlib.Text.{◌==◌}
use ve_xchange_api.Prelude.{
  Bool, true, false, not, ◌&&◌, Option, none, some, List, [], ◌∷◌, ◌++◌, ltb, leb, if◌then◌else◌,
}
use ve_xchange_api.GoTime.{Time}

pub record Row {ℓ} (F : Type ℓ) : Type ℓ where
  pub currency : String
  pub value : F
  pub recorded_at : Time
  pub is_average : Bool

-- The calls of `ConsolidateDay`, true for those that succeed.
pub record Calls : Type 0 where
  pub begins : Bool
  pub averages : Bool
  pub deletes_raw : Bool
  pub deletes_average : Bool
  pub inserts : Bool
  pub commits : Bool

pub data DbError : Type 0 where
  begin_failed avg_failed delete_raw_failed delete_average_failed insert_failed commit_failed :
      DbError

-- currency = $1 AND recorded_at >= $2 AND recorded_at < $3
abbrev pub in_window {ℓ} : {F : Type ℓ} → String → Time → Time → Row F → Bool
in_window c from to row =
    (row.currency == c) && leb from.ns row.recorded_at.ns && ltb row.recorded_at.ns to.ns

module _ {ℓ} {F : Type ℓ} where
  -- SELECT and DELETE with a condition.
  unfoldable pub select : (Row F → Bool) → List (Row F) → List (Row F)
  select test [] = []
  select test (row ∷ rows) =
      let others = select test rows in if test row then row ∷ others else others

  abbrev pub delete : (Row F → Bool) → List (Row F) → List (Row F)
  delete test rows = select (λ row. not (test row)) rows

  unfoldable pub values : List (Row F) → List F
  values [] = []
  values (row ∷ rows) = row.value ∷ values rows

  -- The error, if any, and the table afterwards.
  unfoldable pub insert_rate : Bool → String → F → Time → List (Row F) → Bool × List (Row F)
  insert_rate succeeds c v t table =
      if succeeds
      then (
        true,
        table ++ (record { currency = c; value = v; recorded_at = t; is_average = false } ∷ []),
      )
      else (false, table)

  abbrev pub is_raw : String → Time → Time → Row F → Bool
  is_raw c from to row = in_window c from to row && not row.is_average

  abbrev pub is_old_average : String → Time → Time → Row F → Bool
  is_old_average c from to row = in_window c from to row && row.is_average

  abbrev pub average_row : String → F → Time → Row F
  average_row c v from = record { currency = c; value = v; recorded_at = from; is_average = true }

  -- The statements after the average was found.
  abbrev pub replace_rows :
      Calls → String → Time → Time → F → List (Row F) → Option DbError × List (Row F)
  replace_rows calls c from to v table =
      if not calls.deletes_raw
      then (some delete_raw_failed, table)
      else if not calls.deletes_average
      then (some delete_average_failed, table)
      else if not calls.inserts
      then (some insert_failed, table)
      else if not calls.commits
      then (some commit_failed, table)
      else (
        none,
        delete (is_old_average c from to) (delete (is_raw c from to) table)
            ++ (average_row c v from ∷ []),
      )

  -- The rest of the transaction for the raw values of the window: AVG is NULL if there are none.
  abbrev pub finish :
      (List F → F)
      → Calls
      → String
      → Time
      → Time
      → List (Row F)
      → List F
      → Option DbError × List (Row F)
  finish avg calls c from to table [] =
      if not calls.commits then (some commit_failed, table) else (none, table)
  finish avg calls c from to table (v ∷ vs) = replace_rows calls c from to (avg (v ∷ vs)) table

  unfoldable pub consolidate_day :
      (List F → F) → Calls → String → Time → Time → List (Row F) → Option DbError × List (Row F)
  consolidate_day avg calls c from to table =
      if not calls.begins
      then (some begin_failed, table)
      else if not calls.averages
      then (some avg_failed, table)
      else finish avg calls c from to table (values (select (is_raw c from to) table))
