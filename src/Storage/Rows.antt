-- ===== src/Storage/Rows.antt =====
-- What the statements of the storage do to the rows of a table, when its cluster names are unique.
use qumomf.Prelude.{
  String, ◌==◌, eq_iff, eq_refl, ◌≡◌, refl, sym, ◌≢◌, Bool, true, false, Option, none, some, List,
  [], ◌∷◌, ◌++◌, Memᴰ, All, Ordered, filter, if◌then◌else◌, Bool-cases, inl, inr, ◌∙◌, some_eq,
}
use mathlib.Core.Path.{subst}
use qumomf.Storage.{Row, upsert, last_row, later_or, rows_of}

pub not-eq : (a b : String) → a ≢ b → (a == b) ≡ false
not-eq a b h = elim (Bool-cases (a == b)) [ inl e ↦ absurd (h ((eq_iff a b).0 e)) | inr e ↦ e ]
  where
    absurd : ⊥ → (a == b) ≡ false
    absurd f = elim f [ ]

pub both : {b : Bool} → b ≡ true → b ≡ false → ⊥
both t f = cc

module _ {Bytes : Type 0} where
  abbrev Differ : Row Bytes → Row Bytes → Type 0
  Differ a b = b.cluster_name ≢ a.cluster_name

  abbrev pub IsUnique : List (Row Bytes) → Type 0
  IsUnique rows = Ordered Differ rows

  abbrev NotNamed : String → List (Row Bytes) → Type 0
  NotNamed name rows = All (λ (row : Row Bytes). row.cluster_name ≢ name) rows

  -- The row that has the name of the new one is the one that changes, and no name does.
  upsert-NotNamed :
      (name : String) (new : Row Bytes) (rows : List (Row Bytes))
      → new.cluster_name ≢ name
      → NotNamed name rows
      → NotNamed name (upsert new rows)
  unfolding upsert
  upsert-NotNamed name new [] d h = (d, tt)
  upsert-NotNamed name new (row ∷ rows) d h =
      elim (Bool-cases (row.cluster_name == new.cluster_name)) [
        | inl e ↦ rw e (h.0, h.1)
        | inr e ↦ rw e (h.0, upsert-NotNamed name new rows d h.1)
      ]

  -- The statement keeps what UNIQUE asks for.
  pub upsert-IsUnique :
      (new : Row Bytes) (rows : List (Row Bytes)) → IsUnique rows → IsUnique (upsert new rows)
  unfolding upsert
  upsert-IsUnique new [] h = (tt, tt)
  upsert-IsUnique new (row ∷ rows) h = elim (Bool-cases (row.cluster_name == new.cluster_name)) [
    | inl e ↦ rw e h
    | inr e ↦
        rw e (upsert-NotNamed row.cluster_name new rows (other e) h.0, upsert-IsUnique new rows h.1)
  ]
    where
      other : (row.cluster_name == new.cluster_name) ≡ false → new.cluster_name ≢ row.cluster_name
      other e q = both ((eq_iff row.cluster_name new.cluster_name).1 (sym q)) e

  last_row-none :
      (name : String) (rows : List (Row Bytes)) → NotNamed name rows → last_row name rows ≡ none
  unfolding last_row
  last_row-none name [] h = refl
  last_row-none name (row ∷ rows) h =
      rw (last_row-none name rows h.1, not-eq row.cluster_name name h.0) refl

  -- The row that a query returns has the name that it asks for, and is in the table.
  pub last_row-mem :
      (name : String) (rows : List (Row Bytes)) {row : Row Bytes}
      → last_row name rows ≡ some row
      → Memᴰ row rows × (row.cluster_name ≡ name)
  unfolding last_row
  last_row-mem name [] h = cc
  last_row-mem name (x ∷ rows) {row} h =
      at (λ r. last_row-mem name rows {row = r}) (last_row name rows) refl (x.cluster_name == name)
        refl h
    where
      at :
          ((r : Row Bytes) → last_row name rows ≡ some r → Memᴰ r rows × (r.cluster_name ≡ name))
          → (o : Option (Row Bytes)) → last_row name rows ≡ o
          → (b : Bool) → (x.cluster_name == name) ≡ b
          → later_or o (if b then some x else none) ≡ some row
          → Memᴰ row (x ∷ rows) × (row.cluster_name ≡ name)
      at ih (some y) e b f k = let (m, n) = ih row (e ∙ k) in (Memᴰ.tail m, n)
      at ih none e true f k =
          (Memᴰ.head (sym (some_eq k)), rw (← some_eq k) ((eq_iff x.cluster_name name).0 f))
      at ih none e false f k = cc

  pub mem-last_row :
      (rows : List (Row Bytes)) {row : Row Bytes}
      → IsUnique rows
      → Memᴰ row rows
      → last_row row.cluster_name rows ≡ some row
  unfolding last_row
  mem-last_row [] h m = elim m [ ]
  mem-last_row (x ∷ rows) h (Memᴰ.head q) =
      subst (λ (r : Row Bytes). last_row r.cluster_name (x ∷ rows) ≡ some r) (sym q)
        (rw (last_row-none x.cluster_name rows h.0, eq_refl x.cluster_name) refl)
  mem-last_row (x ∷ rows) h (Memᴰ.tail m) = rw (mem-last_row rows h.1 m) refl

  -- The row of the new name shows the new bytes.
  pub last_row-upsert_same :
      (new : Row Bytes) (rows : List (Row Bytes))
      → IsUnique rows
      → (row : Row Bytes) × (last_row new.cluster_name (upsert new rows) ≡ some row)
        × (row.bytes ≡ new.bytes)
  unfolding last_row upsert
  last_row-upsert_same new [] h = (new, rw (eq_refl new.cluster_name) refl, refl)
  last_row-upsert_same new (row ∷ rows) h =
      elim (Bool-cases (row.cluster_name == new.cluster_name)) [
        | inl e ↦ hit e ((eq_iff row.cluster_name new.cluster_name).0 e)
        | inr e ↦ missed e (last_row-upsert_same new rows h.1)
      ]
    where
      Goal : Type 0
      Goal =
          (r : Row Bytes) × (last_row new.cluster_name (upsert new (row ∷ rows)) ≡ some r)
          × (r.bytes ≡ new.bytes)

      hit :
          (row.cluster_name == new.cluster_name) ≡ true → row.cluster_name ≡ new.cluster_name → Goal
      hit e q = (
        record row { created_at = new.created_at; bytes = new.bytes },
        rw e (rw (last_row-none new.cluster_name rows (rw (← q) h.0), e) refl),
        refl,
      )

      missed :
          (row.cluster_name == new.cluster_name) ≡ false
          → (r : Row Bytes) × (last_row new.cluster_name (upsert new rows) ≡ some r)
            × (r.bytes ≡ new.bytes)
          → Goal
      missed e (r, l, k) = (r, rw e (rw l refl), k)

  -- Every other name keeps its row.
  pub last_row-upsert_other :
      (name : String) (new : Row Bytes) (rows : List (Row Bytes))
      → new.cluster_name ≢ name
      → last_row name (upsert new rows) ≡ last_row name rows
  unfolding last_row upsert
  last_row-upsert_other name new [] d = rw (not-eq new.cluster_name name d) refl
  last_row-upsert_other name new (row ∷ rows) d =
      elim (Bool-cases (row.cluster_name == new.cluster_name)) [
        | inl e ↦ rw e (
            rw
              (not-eq row.cluster_name name
                (moved ((eq_iff row.cluster_name new.cluster_name).0 e)))
              refl)
        | inr e ↦ rw e (rw (last_row-upsert_other name new rows d) refl)
      ]
    where
      moved : row.cluster_name ≡ new.cluster_name → row.cluster_name ≢ name
      moved q k = d (sym q ∙ k)

  -- A row that is appended shows in the rows of its own name only.
  pub rows_of-append :
      (name : String) (rows : List (Row Bytes)) (new : Row Bytes)
      → rows_of name (rows ++ new ∷ [])
        ≡ rows_of name rows ++ (if new.cluster_name == name then new ∷ [] else [])
  unfolding rows_of filter
  rows_of-append name [] new = refl
  rows_of-append name (row ∷ rows) new = elim (Bool-cases (row.cluster_name == name)) [
    | inl e ↦ rw e (rw (rows_of-append name rows new) refl)
    | inr e ↦ rw e (rows_of-append name rows new)
  ]
