-- ===== src/Persistence/Tests.antt =====
-- The stores over a table that is a list of rows, with times written in strokes.
use Prim.Native.String as Str
use polyfast.Base.{
  ℕ, zero, suc, String, Bool, true, false, not, ◌≡◌, ◌≢◌, ◌↔◌, ◌⊎◌, inl, inr, Option, none, some,
  List, [], ◌∷◌, refl, str_eq, eq_iff, arith, ap, sym, ◌∙◌, if◌then◌else◌, Bool-cases, false≢true,
}
use polyfast.Base.Lists.{IsIn, in_head, in_tail, select, IsIn-select, select-IsIn}
use polyfast.Position.State.{ForceSellTrigger, time, pnl}
use polyfast.Position.Tracker.{new_record}
use polyfast.Position.Samples.{pending_five, open_five}
use polyfast.Persistence.Columns.{
  Texts, member_of, state_value, read_time, time_column, claim_status_value, outcome_value,
}
use polyfast.Persistence.Database.{Database, try_load, read_rows}
use polyfast.Base.Int.{ℤ}
use polyfast.Float.Fixed.{fixed}
use polyfast.Claims.Record.{ClaimRecord, new_claim}
use polyfast.Persistence.Stored.{IsSaved}
use polyfast.Persistence.Claims
use polyfast.Persistence.Claims.{ClaimRow, claim_key, claim_row, row_to_claim, load_pending-save}
use polyfast.Persistence.Positions
use polyfast.Persistence.Positions.Row.{
  PositionRow, position_key, position_row, row_to_position, read_reason, read_triggers,
}
use polyfast.Persistence.Positions.{load_all-save, load_all-unknown_state}

abbrev strokes : ℕ → String
strokes zero = Str.[]
strokes (suc n) = Str.◌∷◌ "|" (strokes n)

abbrev count_strokes : String → ℕ
count_strokes Str.[] = zero
count_strokes (Str.◌∷◌ c s) = suc (count_strokes s)

-- A time is a stroke more than its number.
abbrev read_strokes : String → Option ℕ
read_strokes Str.[] = none
read_strokes (Str.◌∷◌ c s) = some (count_strokes s)

abbrev trigger_text : List ForceSellTrigger → String
trigger_text [] = "."
trigger_text (time ∷ ts) = Str.◌∷◌ "t" (trigger_text ts)
trigger_text (pnl ∷ ts) = Str.◌∷◌ "p" (trigger_text ts)

abbrev read_trigger_text : String → List ForceSellTrigger
read_trigger_text Str.[] = []
read_trigger_text (Str.◌∷◌ c s) =
    let rest = read_trigger_text s in
    if str_eq (Str.◌∷◌ c Str.[]) "t"
    then time ∷ rest
    else if str_eq (Str.◌∷◌ c Str.[]) "p"
    then pnl ∷ rest
    else []

count-strokes : (n : ℕ) → count_strokes (strokes n) ≡ n
count-strokes zero = refl
count-strokes (suc n) = ap suc (count-strokes n)

read-trigger_text : (ts : List ForceSellTrigger) → read_trigger_text (trigger_text ts) ≡ ts
read-trigger_text [] = refl
read-trigger_text (time ∷ ts) = ap (λ r. time ∷ r) (read-trigger_text ts)
read-trigger_text (pnl ∷ ts) = ap (λ r. pnl ∷ r) (read-trigger_text ts)

-- A text with a first character is not empty.
filled : String → Bool
filled Str.[] = false
filled (Str.◌∷◌ c s) = true

filled-nonempty : (s : String) → filled s ≡ true → str_eq s "" ≡ false
unfolding filled
filled-nonempty s h = elim (Bool-cases (str_eq s "")) [
  | inl same ↦ absurd (false≢true (ap filled (sym ((eq_iff s "").0 same)) ∙ h))
  | inr other ↦ other
]

stroke_ne : (n : ℕ) → str_eq (strokes (suc n)) "" ≡ false
unfolding filled
stroke_ne n = filled-nonempty (strokes (suc n)) refl

trigger_ne : (ts : List ForceSellTrigger) → str_eq (trigger_text ts) "" ≡ false
unfolding filled
trigger_ne [] = refl
trigger_ne (time ∷ ts) = filled-nonempty (trigger_text (time ∷ ts)) refl
trigger_ne (pnl ∷ ts) = filled-nonempty (trigger_text (pnl ∷ ts)) refl

abbrev texts : Texts
texts = record {
  isoformat = λ n. strokes (suc n);
  fromisoformat = read_strokes;
  dumps = trigger_text;
  loads = λ s. some (read_trigger_text s);
  fromisoformat-isoformat = λ n. ap some (count-strokes n);
  isoformat-nonempty = stroke_ne;
  loads-dumps = λ ts. ap some (read-trigger_text ts);
  dumps-nonempty = trigger_ne;
}

-- A table that is a list of rows.
module _ {R : Type 0} (key : R → String) where
  abbrev is_other : String → R → Bool
  is_other k r = not (str_eq (key r) k)

  other_iff : (k : String) (r : R) → (is_other k r ≡ true) ↔ (key r ≢ k)
  other_iff k r = (λ h e. ground (arith, eq_iff (key r) k), λ ne. ground (arith, eq_iff (key r) k))

  replaced-rows :
      (r : R) (t t' : List R)
      → ◌≡◌ {A = Bool × List R} (true, r ∷ select (is_other (key r)) t) (true, t')
      → (x : R) → IsIn x t' ↔ ((x ≡ r) ⊎ (IsIn x t × (key x ≢ key r)))
  replaced-rows r t t' e x = rw (sym (ap (λ d. d.1) e)) (
    λ i. elim i [
      | in_head same ↦ inl same
      | in_tail j ↦
          let (k, h) = select-IsIn (is_other (key r)) x t j in inr (k, (other_iff (key r) x).0 h)
    ],
    λ h. elim h [
      | inl same ↦ in_head same
      | inr (k, ne) ↦ in_tail (IsIn-select (is_other (key r)) x t k ((other_iff (key r) x).1 ne))
    ],
  )

  asked-rows :
      (p : R → Bool) (t rs : List R)
      → ◌≡◌ {A = Option (List R)} (some (select p t)) (some rs)
      → (x : R) → IsIn x rs ↔ (IsIn x t × (p x ≡ true))
  asked-rows p t rs e x =
      let same : rs ≡ select p t = ground arith in
      rw same (select-IsIn p x t, λ h. IsIn-select p x t h.0 h.1)

  deleted-rows :
      (k : String) (t t' : List R)
      → ◌≡◌ {A = Bool × List R} (true, select (is_other k) t) (true, t')
      → (x : R) → IsIn x t' ↔ (IsIn x t × (key x ≢ k))
  deleted-rows k t t' e x = rw (sym (ap (λ d. d.1) e)) (
    λ i. let (j, h) = select-IsIn (is_other k) x t i in (j, (other_iff k x).0 h),
    λ h. IsIn-select (is_other k) x t h.0 ((other_iff k x).1 h.1),
  )

  abbrev table : Database R (List R) key
  table = record {
    rows = λ t. t;
    insert_or_replace = λ r t. (true, r ∷ select (is_other (key r)) t);
    query = λ p t. some (select p t);
    delete = λ k t. (true, select (is_other k) t);
    insert_or_replace-rows = replaced-rows;
    query-rows = asked-rows;
    delete-rows = deleted-rows;
  }

load_all-save_example :
    IsSaved
      (λ q. q.position_id)
      true
      open_five
      (pending_five ∷ [])
      (Positions.load_all texts (table position_key) (position_row texts 50 open_five ∷ []))
unfolding position_row row_to_position try_load read_rows member_of state_value read_time
    time_column select new_record read_reason read_triggers
load_all-save_example =
    load_all-save texts (table position_key) 50 open_five (position_row texts 40 pending_five ∷ [])
      (position_row texts 50 open_five ∷ []) (pending_five ∷ [])
      (position_row texts 50 open_five ∷ []) refl refl refl

-- A row whose state is no state of the program.
abbrev odd_row : PositionRow ℤ
odd_row = record (position_row texts 40 pending_five) { state = "open" }

load_all-unknown_state_example :
    Positions.load_all texts (table position_key) (position_row texts 50 open_five ∷ odd_row ∷ [])
    ≡ []
unfolding position_row member_of state_value select
load_all-unknown_state_example =
    load_all-unknown_state texts (table position_key)
      (position_row texts 50 open_five ∷ odd_row ∷ [])
      (position_row texts 50 open_five ∷ odd_row ∷ []) odd_row refl (in_tail (in_head refl)) refl

abbrev claim : String → ClaimRecord ℤ
claim id = new_claim id 300 "c1" "p1" "BTC" "UP"

load_pending-save_example :
    IsSaved
      (λ q. q.claim_id)
      true
      (claim "k2")
      (claim "k1" ∷ [])
      (Claims.load_pending texts
        (table claim_key)
        (claim_row texts 50 (claim "k2") ∷ claim_row texts 40 (claim "k1") ∷ []))
unfolding claim_row new_claim select try_load read_rows claim_status_value row_to_claim member_of
    outcome_value read_time time_column
load_pending-save_example =
    load_pending-save texts (table claim_key) 50 (claim "k2") (claim_row texts 40 (claim "k1") ∷ [])
      (claim_row texts 50 (claim "k2") ∷ claim_row texts 40 (claim "k1") ∷ []) (claim "k1" ∷ [])
      (claim_row texts 50 (claim "k2") ∷ claim_row texts 40 (claim "k1") ∷ []) refl refl refl
