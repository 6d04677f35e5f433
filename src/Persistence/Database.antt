-- ===== src/Persistence/Database.antt =====
-- A table of the database as the stores use it, and what `save` and the loads of the stores
-- (backend/persistence/*_store.py) have in common.
use polyfast.Base.{
  String, Bool, true, ◌≡◌, ◌≢◌, ◌↔◌, ◌⊎◌, inl, inr, Option, none, some, List, [], ◌∷◌, refl, sym,
  ap, ◌∙◌, arith, Option-cases, subst,
}
use polyfast.Base.Lists.{IsIn, in_head, in_tail}
use polyfast.Persistence.Columns.{◌>>=◌}

-- SQLite on a table of rows `R` with the primary key `key`. A statement and its commit raise or
-- succeed; the order of a query's rows is not looked at.
pub record Database (R T : Type 0) (key : R → String) : Type 0 where
  pub rows : T → List R
  -- `INSERT OR REPLACE` and `commit`: whether both went through, and the table afterwards.
  pub insert_or_replace : R → T → Bool × T
  -- `SELECT * … WHERE`; `none` where it raises.
  pub query : (R → Bool) → T → Option (List R)
  -- `DELETE … WHERE key = ?` and `commit`
  pub delete : String → T → Bool × T
  pub insert_or_replace-rows :
      (r : R) (t t' : T)
      → insert_or_replace r t ≡ (true, t')
      → (x : R) → IsIn x (rows t') ↔ ((x ≡ r) ⊎ (IsIn x (rows t) × (key x ≢ key r)))
  pub query-rows :
      (p : R → Bool) (t : T) (rs : List R)
      → query p t ≡ some rs
      → (x : R) → IsIn x rs ↔ (IsIn x (rows t) × (p x ≡ true))
  pub delete-rows :
      (k : String) (t t' : T)
      → delete k t ≡ (true, t')
      → (x : R) → IsIn x (rows t') ↔ (IsIn x (rows t) × (key x ≢ k))

-- `[self._row_to_record(row) for row in rows]`; one row that cannot be read raises.
unfoldable pub read_rows : {A R : Type 0} → (R → Option A) → List R → Option (List A)
read_rows of_row [] = some []
read_rows of_row (r ∷ rs) = do a ← of_row r; rest ← read_rows of_row rs; some (a ∷ rest)

module _ {A R T : Type 0} {key : R → String} (db : Database R T key) (of_row : R → Option A) where
  unfoldable pub try_load : (R → Bool) → T → Option (List A)
  try_load p t = do rs ← db.query p t; read_rows of_row rs

  -- The loads: any exception gives an empty list.
  unfoldable pub load_where : (R → Bool) → T → List A
  load_where p t = elim (try_load p t) [ none ↦ [] | some found ↦ found ]

module _ {A R : Type 0} (of_row : R → Option A) where
  read_rows-cons :
      (r : R) (rs : List R) (found : List A)
      → read_rows of_row (r ∷ rs) ≡ some found
      → (a : A) × (rest : List A) × (of_row r ≡ some a)
        × (read_rows of_row rs ≡ some rest)
        × (found ≡ a ∷ rest)
  unfolding read_rows
  read_rows-cons r rs found e = elim (Option-cases (of_row r)) [
    | inl bad ↦ absurd (ground (arith, bad))
    | inr (a, ea) ↦ elim (Option-cases (read_rows of_row rs)) [
      | inl bad ↦ absurd (ground (arith, ea, bad))
      | inr (rest, erest) ↦ (a, rest, ea, erest, ground (arith, ea, erest))
    ]
  ]

  -- What was read comes from a row, and every row was read.
  pub read_rows-from :
      (rs : List R) (found : List A)
      → read_rows of_row rs ≡ some found
      → (b : A) → IsIn b found
      → (r : R) × IsIn r rs × (of_row r ≡ some b)
  unfolding read_rows
  read_rows-from [] found e b i = elim (subst (IsIn b) {y = []} (ground arith) i) [ ]
  read_rows-from (r ∷ rs) found e b i =
      let (a, rest, ea, erest, ef) = read_rows-cons r rs found e in
      elim (subst (IsIn b) {y = a ∷ rest} ef i) [
        | in_head eb ↦ (r, in_head refl, ea ∙ ap some (sym eb))
        | in_tail j ↦
            let (q, iq, found_) = read_rows-from rs rest erest b j in (q, in_tail iq, found_)
      ]

  pub read_rows-to :
      (rs : List R) (found : List A)
      → read_rows of_row rs ≡ some found
      → (r : R) → IsIn r rs
      → (b : A) × IsIn b found × (of_row r ≡ some b)
  unfolding read_rows
  read_rows-to [] found e r i = elim i [ ]
  read_rows-to (q ∷ rs) found e r (in_head same) =
      let (a, rest, ea, erest, ef) = read_rows-cons q rs found e in
      rw ef (a, in_head refl, ap of_row same ∙ ea)
  read_rows-to (q ∷ rs) found e r (in_tail j) =
      let (a, rest, ea, erest, ef) = read_rows-cons q rs found e in
      let (b, ib, eb) = read_rows-to rs rest erest r j in rw ef (b, in_tail ib, eb)

  pub read_rows-total :
      (rs : List R)
      → ((r : R) → IsIn r rs → (b : A) × (of_row r ≡ some b))
      → (found : List A) × (read_rows of_row rs ≡ some found)
  unfolding read_rows
  read_rows-total [] all = ([], refl)
  read_rows-total (r ∷ rs) all =
      let (b, eb) = all r (in_head refl) in
      let (rest, erest) = read_rows-total rs (λ q i. all q (in_tail i)) in
      (b ∷ rest, rw (eb, erest) refl)

  read_rows-unreadable :
      (rs : List R) (r : R) → IsIn r rs → of_row r ≡ none → read_rows of_row rs ≡ none
  unfolding read_rows
  read_rows-unreadable [] r i bad = elim i [ ]
  read_rows-unreadable (q ∷ rs) r (in_head same) bad = rw (sym (ap of_row same) ∙ bad) refl
  read_rows-unreadable (q ∷ rs) r (in_tail i) bad = elim (Option-cases (of_row q)) [
    | inl none_ ↦ rw none_ refl
    | inr (b, eb) ↦ rw (eb, read_rows-unreadable rs r i bad) refl
  ]

-- One row that cannot be read makes a load give nothing.
module _ {A R T : Type 0} {key : R → String} (db : Database R T key) (of_row : R → Option A) where
  pub load_where-unreadable :
      (p : R → Bool) (t : T) (rs : List R) (r : R)
      → db.query p t ≡ some rs
      → IsIn r rs
      → of_row r ≡ none
      → load_where db of_row p t ≡ []
  unfolding load_where try_load
  load_where-unreadable p t rs r asked i bad =
      ground (arith, asked, read_rows-unreadable of_row rs r i bad)
