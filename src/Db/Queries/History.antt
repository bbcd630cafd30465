-- ===== src/Db/Queries/History.antt =====
-- The history of a window that was consolidated.
use Prim.Native.String.{String}
use mathlib.Core.List.{Permᴰ, append_assoc, append-nil}
use ve_xchange_api.Prelude.{
  ◌<◌, ◌≡◌, ◌≢◌, refl, ap, ◌∙◌, ◌⊎◌, inl, inr, Bool, true, Option, none, some, List, [], ◌∷◌, ◌++◌,
}
use ve_xchange_api.GoTime.{Time}
use ve_xchange_api.Db as Db
use ve_xchange_api.Db.Table.{Row, Calls, in_window, is_raw, select, values, consolidate_day}
use ve_xchange_api.Db.Table.Consolidated.{consolidate_day_ok, consolidate_day-no_raw}
use ve_xchange_api.Db.Queries.{Pool, collect_history, get_history}
use ve_xchange_api.Db.Queries.Served.{all_read}

module _ {ℓ} {A : Type ℓ} where
  Permᴰ-nil : {xs ys : List A} → Permᴰ xs ys → ys ≡ [] → xs ≡ []
  Permᴰ-nil Permᴰ.nil e = refl
  Permᴰ-nil (Permᴰ.cons h p) e = absurd (cc)
  Permᴰ-nil (Permᴰ.swap h h') e = absurd (cc)
  Permᴰ-nil (Permᴰ.trans p q) e = Permᴰ-nil p (Permᴰ-nil q e)

  nil-cases : (xs : List A) → (xs ≡ []) ⊎ (xs ≢ [])
  nil-cases [] = inl refl
  nil-cases (x ∷ xs) = inr (λ e. cc)

  -- One row can be put in one order only.
  Permᴰ-one : {xs ys : List A} {x : A} → Permᴰ xs ys → ys ≡ x ∷ [] → xs ≡ x ∷ []
  Permᴰ-one Permᴰ.nil e = absurd (cc)
  Permᴰ-one (Permᴰ.cons {l₁ = xs} {l₂ = ys} h p) e = let rest : xs ≡ [] = Permᴰ-nil p (cc) in cc
  Permᴰ-one (Permᴰ.swap h h') e = absurd (cc)
  Permᴰ-one (Permᴰ.trans p q) e = Permᴰ-one p (Permᴰ-one q e)

module _ {ℓ} {F : Type ℓ} where
  abbrev pub history_scans : List (Row F) → List (Option (F × Time × Bool))
  history_scans [] = []
  history_scans (row ∷ rows) =
      some (row.value, row.recorded_at, row.is_average) ∷ history_scans rows

  abbrev pub history_of : List (Row F) → List (Db.HistoryEntry F)
  history_of [] = []
  history_of (row ∷ rows) =
      record { value = row.value; recorded_at = row.recorded_at; is_average = row.is_average }
      ∷ history_of rows

  collect_history-scans :
      (rows : List (Row F)) (entries : List (Db.HistoryEntry F))
      → collect_history (history_scans rows) entries ≡ some (entries ++ history_of rows)
  unfolding collect_history
  collect_history-scans [] entries = rw (append-nil entries) refl
  collect_history-scans (row ∷ rows) entries =
      collect_history-scans rows _ ∙ ap some (append_assoc entries _ (history_of rows))

  -- The answer of `GetHistory` if each row is read.
  get_history-scans :
      (pool : Pool F) (c : String) (from to : Time) (rows : List (Row F))
      → pool.query_history c from to ≡ all_read (history_scans rows)
      → get_history pool c from to ≡ some (history_of rows)
  unfolding get_history
  get_history-scans pool c from to rows e = rw (get_history, e, collect_history-scans rows []) refl

  -- After a run of `ConsolidateDay` without an error on a window that is not empty, if the query of the
  -- window's history reads, in some order, the rows of the currency that are then in the window: either
  -- the window had no raw row, the table is as it was, and `GetHistory` gives the rows that were read,
  -- in their order; or it had one, and `GetHistory` gives a single entry, the average of the raw values
  -- that were there, at the start of the window and marked as an average.
  pub get_history-consolidate_day :
      (avg : List F → F) (calls : Calls) (c : String) (from to : Time) (table rows : List (Row F))
      (pool : Pool F)
      → from.ns < to.ns
      → (consolidate_day avg calls c from to table).0 ≡ none
      → pool.query_history c from to ≡ all_read (history_scans rows)
      → Permᴰ rows (select (in_window c from to) (consolidate_day avg calls c from to table).1)
      → ((values (select (is_raw c from to) table) ≡ [])
          × ((consolidate_day avg calls c from to table).1 ≡ table)
          × (get_history pool c from to ≡ some (history_of rows)))
        ⊎ ((values (select (is_raw c from to) table) ≢ [])
            × (get_history pool c from to
                ≡ some (
                    record {
                      value = avg (values (select (is_raw c from to) table));
                      recorded_at = from;
                      is_average = true;
                    }
                    ∷ [])))
  get_history-consolidate_day avg calls c from to table rows pool h done read order =
      let found = get_history-scans pool c from to rows read in
      elim (nil-cases (values (select (is_raw c from to) table))) [
        | inl empty ↦ inl (empty, consolidate_day-no_raw avg calls c from to table empty, found)
        | inr raw ↦
            let one = Permᴰ-one order (consolidate_day_ok avg calls c from to table h raw done) in
            inr (raw, found ∙ rw one refl)
      ]
