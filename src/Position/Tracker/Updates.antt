-- ===== src/Position/Tracker/Updates.antt =====
-- How the counters' agreement with the records fares when one record is written.
use polyfast.Base.{
  one_if, ℕ, ◌+◌, ◌-◌, ◌<◌, String, ◌≡◌, none, some, str_eq, eq_iff, arith, inl, inr, subst,
}
use polyfast.Base.Dict.{Dict, get, put, get-put, get-put_cases}
use polyfast.Position.Record.{PositionRecord}
use polyfast.Position.Tracker.{get_or_zero, increment}
use polyfast.Position.Tracker.Counts.{count_if-put, count_if-put_new}
use polyfast.Position.Tracker.Discipline.{counts_for, is_filled, IsStamped, Consistent}

pub get_or_zero-increment :
    (d : Dict ℕ) (k j : String)
    → get_or_zero (increment d k) j ≡ get_or_zero d j + one_if (str_eq k j)
unfolding get_or_zero increment
get_or_zero-increment d k j = ground (arith, get-put d k j (get_or_zero d k + 1), eq_iff k j)

pub get_or_zero-lower :
    (d : Dict ℕ) (cid j : String)
    → 0 < get_or_zero d cid
    → get_or_zero (put d cid (get_or_zero d cid - 1)) j + one_if (str_eq cid j) ≡ get_or_zero d j
unfolding get_or_zero
get_or_zero-lower d cid j h = ground (arith, get-put d cid j (get_or_zero d cid - 1), eq_iff cid j)

module _ {N : Type 0} where
  stamps-put :
      (ps : Dict (PositionRecord N)) (pid : String) (new : PositionRecord N)
      → ((k : String) (r : PositionRecord N) → get ps k ≡ some r → IsStamped k r)
      → IsStamped pid new
      → (k : String) (r : PositionRecord N) → get (put ps pid new) k ≡ some r
      → IsStamped k r
  stamps-put ps pid new old fits k r h = elim (get-put_cases ps pid k new h) [
    | inl (same, written) ↦ subst (λ x. IsStamped x r) same (subst (IsStamped pid) written fits)
    | inr found ↦ old k r found
  ]

  -- A record is replaced.
  pub update-Consistent :
      {ps : Dict (PositionRecord N)} {fs gs : Dict ℕ} {n m : ℕ} (pid : String)
      (old new : PositionRecord N)
      → get ps pid ≡ some old
      → IsStamped pid new
      → ((cid : String)
          → get_or_zero gs cid + one_if (counts_for cid old)
            ≡ get_or_zero fs cid + one_if (counts_for cid new))
      → m + one_if (is_filled old) ≡ n + one_if (is_filled new)
      → Consistent ps fs n
      → Consistent (put ps pid new) gs m
  update-Consistent {ps} pid old new found fits fills trades c = record {
    fills_exact = λ cid.
        omega
          (arith, fills cid, c.fills_exact cid, count_if-put (counts_for cid) ps pid old new found);
    trades_exact =
        omega (arith, trades, c.trades_exact, count_if-put is_filled ps pid old new found);
    stamps = stamps-put ps pid new c.stamps fits;
  }

  -- A record is added.
  pub insert-Consistent :
      {ps : Dict (PositionRecord N)} {fs gs : Dict ℕ} {n m : ℕ} (pid : String)
      (new : PositionRecord N)
      → get ps pid ≡ none
      → IsStamped pid new
      → ((cid : String) → get_or_zero gs cid ≡ get_or_zero fs cid + one_if (counts_for cid new))
      → m ≡ n + one_if (is_filled new)
      → Consistent ps fs n
      → Consistent (put ps pid new) gs m
  insert-Consistent {ps} pid new fresh fits fills trades c = record {
    fills_exact = λ cid.
        omega
          (arith, fills cid, c.fills_exact cid, count_if-put_new (counts_for cid) ps pid new fresh);
    trades_exact =
        omega (arith, trades, c.trades_exact, count_if-put_new is_filled ps pid new fresh);
    stamps = stamps-put ps pid new c.stamps fits;
  }
