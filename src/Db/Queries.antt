-- ===== src/Db/Queries.antt =====
-- `GetLatestRates` and `GetHistory` of `DBStore`, in internal/db/db.go. What a query gives is an
-- argument: the rows that `rows.Next()` comes to, each scanned or not, and whether `rows.Err()` is an
-- error; `none` is an error of the query.
pub mod History
pub mod Served
use Prim.Native.String.{String}
use ve_xchange_api.Prelude.{Bool, false, Option, none, some, List, [], ◌∷◌, ◌++◌, if◌then◌else◌}
use ve_xchange_api.Prelude.Dict.{Dict, insert}
use ve_xchange_api.GoTime.{Time}
use ve_xchange_api.Db as Db

pub record Rows {ℓ} (T : Type ℓ) : Type ℓ where
  pub scans : List (Option T)
  pub has_err : Bool

-- The answers to the two queries.
pub record Pool {ℓ} (F : Type ℓ) : Type ℓ where
  -- SELECT DISTINCT ON (currency) currency, value, recorded_at … ORDER BY currency, recorded_at DESC
  pub query_latest : Option (Rows (String × F × Time))
  -- SELECT value, recorded_at, is_average … WHERE currency = $1 AND recorded_at >= $2
  -- AND recorded_at < $3 ORDER BY recorded_at ASC
  pub query_history : String → Time → Time → Option (Rows (F × Time × Bool))

-- What a method returns after its loop.
abbrev pub unless_err {κ} : {A : Type κ} → Bool → Option A → Option A
unless_err has_err none = none
unless_err has_err (some a) = if has_err then none else some a

module _ {ℓ} {F : Type ℓ} where
  -- The loop of `GetLatestRates`; `none` is an error of `rows.Scan`.
  pub collect_latest :
      List (Option (String × F × Time))
      → Dict (Db.HistoryEntry F)
      → Option (Dict (Db.HistoryEntry F))
  collect_latest [] result = some result
  collect_latest (none ∷ scans) result = none
  collect_latest (some (currency, value, t) ∷ scans) result =
      collect_latest scans
        (insert currency (record { value = value; recorded_at = t; is_average = false }) result)

  -- The loop of `GetHistory`.
  pub collect_history :
      List (Option (F × Time × Bool)) → List (Db.HistoryEntry F) → Option (List (Db.HistoryEntry F))
  collect_history [] entries = some entries
  collect_history (none ∷ scans) entries = none
  collect_history (some (value, t, average) ∷ scans) entries =
      collect_history scans
        (entries ++ (record { value = value; recorded_at = t; is_average = average } ∷ []))

  pub get_latest_rates : Pool F → Option (Dict (Db.HistoryEntry F))
  get_latest_rates pool = elim pool.query_latest [
    | none ↦ none
    | some rows ↦ unless_err rows.has_err (collect_latest rows.scans [])
  ]

  pub get_history : Pool F → String → Time → Time → Option (List (Db.HistoryEntry F))
  get_history pool currency from to = elim (pool.query_history currency from to) [
    | none ↦ none
    | some rows ↦ unless_err rows.has_err (collect_history rows.scans [])
  ]

  -- The reading half of a `DBStore`.
  abbrev pub db_store : Pool F → Db.Store F
  db_store pool = record {
    get_history = get_history pool;
    get_latest_rates = get_latest_rates pool;
  }
