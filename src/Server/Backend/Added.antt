-- ===== src/Server/Backend/Added.antt =====
-- The newest rows of a table that two rows were added to, each if the database took it.
use mathlib.Core.List.{Memᴰ}
use mathlib.Core.List.Memᴰ
use ve_xchange_api.Prelude.{
  ◌<◌, ◌≡◌, ◌≢◌, refl, ◌∙◌, sym, ap, Bool, true, false, List, [], ◌∷◌, ◌++◌, ◌⊎◌, inl, inr, arith,
  Bool-cases,
}
use ve_xchange_api.Api.Currency.{Currency}
use ve_xchange_api.Db.Table.{Row}
use ve_xchange_api.Db.Queries.Served.{Newest}

module _ {ℓ} {F : Type ℓ} where
  -- A row if it is written, and two of them.
  abbrev pub row_if : Bool → Row F → List (Row F)
  row_if true x = x ∷ []
  row_if false x = []

  row_if-mem : (b : Bool) (x y : Row F) → Memᴰ y (row_if b x) → (b ≡ true) × (y ≡ x)
  row_if-mem true x y (Memᴰ.head e) = (refl, e)
  row_if-mem true x y (Memᴰ.tail i) = elim i [ ]
  row_if-mem false x y i = elim i [ ]

  mem-row_if : (b : Bool) (x : Row F) → b ≡ true → Memᴰ x (row_if b x)
  mem-row_if true x e = Memᴰ.head refl
  mem-row_if false x e = absurd (cc)

  abbrev pub rows_if : Bool → Row F → Bool → Row F → List (Row F)
  rows_if b x b' y = row_if b x ++ row_if b' y

  -- A row that was added is one of the two.
  rows_if-mem :
      (b b' : Bool) (x x' y : Row F)
      → Memᴰ y (rows_if b x b' x')
      → ((b ≡ true) × (y ≡ x)) ⊎ ((b' ≡ true) × (y ≡ x'))
  rows_if-mem b b' x x' y i = elim (Memᴰ.append_cases (row_if b x) i) [
    | inl first ↦ inl (row_if-mem b x y first)
    | inr second ↦ inr (row_if-mem b' x' y second)
  ]

  -- A newest row of a table with rows added, one of which is the only one of the currency and newer than
  -- the table, or none of which has the currency.
  Newest-added :
      (table added : List (Row F)) (c : Currency) (x : Row F)
      → ((old : Row F) → Memᴰ old table → old.recorded_at.ns < x.recorded_at.ns)
      → Memᴰ x added
      → x.currency ≡ c
      → ((y : Row F) → Memᴰ y added → y.currency ≡ c → y ≡ x)
      → (n : Newest (table ++ added) c) → n.row ≡ x
  Newest-added table added c x older among own only n = elim (Memᴰ.append_cases table n.among) [
    | inl before ↦
        absurd (omega (arith, older n.row before, n.newest x (Memᴰ.append_right table among) own))
    | inr new ↦ only n.row new n.own
  ]

  Newest-kept :
      (table added : List (Row F)) (c : Currency)
      → ((y : Row F) → Memᴰ y added → y.currency ≢ c)
      → (n : Newest (table ++ added) c) → (m : Newest table c) × (m.row ≡ n.row)
  Newest-kept table added c other n = elim (Memᴰ.append_cases table n.among) [
    | inr new ↦ absurd (other n.row new n.own)
    | inl before ↦ (
      record {
        row = n.row;
        among = before;
        own = n.own;
        newest = λ y mem own. n.newest y (Memᴰ.append_left added mem) own;
      },
      refl,
    )
  ]

  -- What is newest after the rows of two currencies were added, if they were written, for the first.
  pub Newest-first :
      (table : List (Row F)) (b b' : Bool) (x x' : Row F)
      → x.currency ≢ x'.currency
      → ((old : Row F) → Memᴰ old table → old.recorded_at.ns < x.recorded_at.ns)
      → (n : Newest (table ++ rows_if b x b' x') x.currency)
      → ((b ≡ true) × (n.row ≡ x))
        ⊎ ((b ≡ false) × ((m : Newest table x.currency) × (m.row ≡ n.row)))
  Newest-first table b b' x x' apart older n = elim (Bool-cases b) [
    | inl written ↦ inl (
      written,
      Newest-added table (rows_if b x b' x') x.currency x older
          (Memᴰ.append_left (row_if b' x') (mem-row_if b x written)) refl
          (λ y i own. elim (rows_if-mem b b' x x' y i) [
            | inl (w, e) ↦ e
            | inr (w, e) ↦ absurd (apart (sym own ∙ ap (λ (z : Row F). z.currency) e))
          ])
          n,
    )
    | inr failed ↦ inr (
      failed,
      Newest-kept table (rows_if b x b' x') x.currency
          (λ y i own. elim (rows_if-mem b b' x x' y i) [
            | inl (w, e) ↦ cc
            | inr (w, e) ↦ apart (sym own ∙ ap (λ (z : Row F). z.currency) e)
          ])
          n,
    )
  ]

  -- And for the second.
  pub Newest-second :
      (table : List (Row F)) (b b' : Bool) (x x' : Row F)
      → x.currency ≢ x'.currency
      → ((old : Row F) → Memᴰ old table → old.recorded_at.ns < x'.recorded_at.ns)
      → (n : Newest (table ++ rows_if b x b' x') x'.currency)
      → ((b' ≡ true) × (n.row ≡ x'))
        ⊎ ((b' ≡ false) × ((m : Newest table x'.currency) × (m.row ≡ n.row)))
  Newest-second table b b' x x' apart older n = elim (Bool-cases b') [
    | inl written ↦ inl (
      written,
      Newest-added table (rows_if b x b' x') x'.currency x' older
          (Memᴰ.append_right (row_if b x) (mem-row_if b' x' written)) refl
          (λ y i own. elim (rows_if-mem b b' x x' y i) [
            | inl (w, e) ↦ absurd (apart (sym (ap (λ (z : Row F). z.currency) e) ∙ own))
            | inr (w, e) ↦ e
          ])
          n,
    )
    | inr failed ↦ inr (
      failed,
      Newest-kept table (rows_if b x b' x') x'.currency
          (λ y i own. elim (rows_if-mem b b' x x' y i) [
            | inl (w, e) ↦ apart (sym (ap (λ (z : Row F). z.currency) e) ∙ own)
            | inr (w, e) ↦ cc
          ])
          n,
    )
  ]
