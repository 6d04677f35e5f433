-- ===== src/Persistence/Stored.antt =====
-- What the loads of a store give after a save, for any store whose rows can be read back.
use polyfast.Base.{
  String, Bool, true, ◌≡◌, ◌≢◌, ◌↔◌, ◌⊎◌, inl, inr, Option, some, List, refl, sym, ap, ◌∙◌, arith,
  Option-cases, subst,
}
use polyfast.Base.Lists.{IsIn}
use polyfast.Persistence.Database.{
  Database, read_rows, try_load, load_where, read_rows-from, read_rows-to, read_rows-total,
}

-- What a load finds after `a` was saved, where it found `before` before: `a` itself if the load
-- asks for it, and the others that were there.
pub IsSaved : {A : Type 0} → (A → String) → Bool → A → List A → List A → Type 0
IsSaved {A} key_of asked a before after =
    (b : A) → IsIn b after ↔ (((b ≡ a) × (asked ≡ true)) ⊎ (IsIn b before × (key_of b ≢ key_of a)))

module _ {A R T : Type 0} {key : R → String} (db : Database R T key) (of_row : R → Option A) where
  read_same : (r : R) (b c : A) → of_row r ≡ some b → of_row r ≡ some c → b ≡ c
  read_same r b c eb ec = ground arith

  try_load-rows :
      (p : R → Bool) (t : T) (found : List A)
      → try_load db of_row p t ≡ some found
      → (rs : List R) × (db.query p t ≡ some rs) × (read_rows of_row rs ≡ some found)
  unfolding try_load
  try_load-rows p t found e = elim (Option-cases (db.query p t)) [
    | inl bad ↦ absurd (ground (arith, bad))
    | inr (rs, ers) ↦ (rs, ers, ground (arith, ers))
  ]

  load_where-found :
      (p : R → Bool) (t : T) (found : List A)
      → try_load db of_row p t ≡ some found
      → load_where db of_row p t ≡ found
  unfolding load_where
  load_where-found p t found e = ground arith

  module _ (key_of : A → String)
      (key-of_row : (r : R) (a : A) → of_row r ≡ some a → key_of a ≡ key r) (a : A) (row : R)
      (row_read : of_row row ≡ some a) (p : R → Bool) (t t' : T)
      (saved : db.insert_or_replace row t ≡ (true, t')) where
    -- A row that is asked for afterwards is the new one, or was asked for before and has another key.
    asked_after :
        (rs rs' : List R)
        → db.query p t ≡ some rs
        → db.query p t' ≡ some rs'
        → (r : R) → IsIn r rs' ↔ (((r ≡ row) × (p row ≡ true)) ⊎ (IsIn r rs × (key r ≢ key row)))
    asked_after rs rs' e e' r =
        let now_ = db.query-rows p t' rs' e' r in
        let then_ = db.query-rows p t rs e r in
        let wrote = db.insert_or_replace-rows row t t' saved r in
        (
          λ i. elim (wrote.0 (now_.0 i).0) [
            | inl same ↦ inl (same, ap p (sym same) ∙ (now_.0 i).1)
            | inr (old, other) ↦ inr (then_.1 (old, (now_.0 i).1), other)
          ],
          λ h. elim h [
            | inl (same, asked) ↦ now_.1 (wrote.1 (inl same), ap p same ∙ asked)
            | inr (old, other) ↦ now_.1 (wrote.1 (inr ((then_.0 old).0, other)), (then_.0 old).1)
          ],
        )

    key-row : key_of a ≡ key row
    key-row = key-of_row row a row_read

    readable :
        (rs rs' : List R) (before : List A)
        → db.query p t ≡ some rs
        → db.query p t' ≡ some rs'
        → read_rows of_row rs ≡ some before
        → (r : R) → IsIn r rs'
        → (b : A) × (of_row r ≡ some b)
    readable rs rs' before e e' read r i = elim ((asked_after rs rs' e e' r).0 i) [
      | inl (same, asked) ↦ (a, ap of_row same ∙ row_read)
      | inr (old, other) ↦ let (b, ib, eb) = read_rows-to of_row rs before read r old in (b, eb)
    ]

    after-IsSaved :
        (rs rs' : List R) (before after : List A)
        → db.query p t ≡ some rs
        → db.query p t' ≡ some rs'
        → read_rows of_row rs ≡ some before
        → read_rows of_row rs' ≡ some after
        → IsSaved key_of (p row) a before after
    unfolding IsSaved
    after-IsSaved rs rs' before after e e' read read' b =
        let asked = asked_after rs rs' e e' in
        (
          λ i.
              let (r, ir, er) = read_rows-from of_row rs' after read' b i in
              elim ((asked r).0 ir) [
                | inl (same, yes_) ↦ inl (read_same r b a er (ap of_row same ∙ row_read), yes_)
                | inr (old, other) ↦
                    let (c, ic, ec) = read_rows-to of_row rs before read r old in
                    inr (
                      rw (read_same r b c er ec) ic,
                      λ h. other (sym (key-of_row r b er) ∙ h ∙ key-row),
                    )
              ],
          λ h. elim h [
            | inl (same, yes_) ↦
                let (c, ic, ec) =
                  read_rows-to of_row rs' after read' row ((asked row).1 (inl (refl, yes_))) in
                rw (same ∙ read_same row a c row_read ec) ic
            | inr (old, other) ↦
                let (r, ir, er) = read_rows-from of_row rs before read b old in
                let new_key : key r ≢ key row = λ h. other (key-of_row r b er ∙ h ∙ sym key-row) in
                let (c, ic, ec) =
                  read_rows-to of_row rs' after read' r ((asked r).1 (inr (ir, new_key))) in
                rw (read_same r b c er ec) ic
          ],
        )

    try_load-IsSaved :
        (before : List A) (rs' : List R)
        → try_load db of_row p t ≡ some before
        → db.query p t' ≡ some rs'
        → (after : List A) × (try_load db of_row p t' ≡ some after)
          × IsSaved key_of (p row) a before after
    unfolding try_load
    try_load-IsSaved before rs' loaded e' =
        let (rs, e, read) = try_load-rows p t before loaded in
        let (after, read') = read_rows-total of_row rs' (readable rs rs' before e e' read) in
        (after, rw (e', read') refl, after-IsSaved rs rs' before after e e' read read')

    pub load_where-IsSaved :
        (before : List A) (rs' : List R)
        → try_load db of_row p t ≡ some before
        → db.query p t' ≡ some rs'
        → IsSaved key_of (p row) a before (load_where db of_row p t')
    load_where-IsSaved before rs' loaded e' =
        let (after, e, done) = try_load-IsSaved before rs' loaded e' in
        subst (IsSaved key_of (p row) a before) (sym (load_where-found p t' after e)) done
