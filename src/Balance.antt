-- ===== src/Balance.antt =====
-- `BalanceManager` (backend/execution/balance_manager.py): the balance that orders are checked
-- against, its age, and the paper-mode bookings. Time is counted in a unit of the clock.
pub mod Laws
use polyfast.Base.{ℕ, ◌+◌, Bool, true, false, Option, none, some, if◌then◌else◌, ltb, List, [], ◌∷◌}
use polyfast.Float.{Float, ◌⊕◌, ◌⊖◌, ◌<?◌}

pub record Balance (N : Type 0) : Type 0 where
  pub available : N
  pub total : N
  pub updated_at : Option ℕ
  pub stale_threshold : ℕ
  pub fetch_count : ℕ

-- How the call of `_fetch_fn` ended. The function is the exchange's, and not part of the program.
pub data FetchReply (N : Type 0) : Type 0 where
  no_function : FetchReply N  -- `_fetch_fn` is not set
  raised : FetchReply N  -- it raised, or gave a dict whose `available` is no number
  nothing : FetchReply N  -- it returned None
  balances : N → N → FetchReply N  -- a dict with `available` and `total`
  half_read : N → FetchReply N  -- a dict with `available`, whose `total` is no number
  amount : N → FetchReply N  -- a number
  other_value : FetchReply N  -- a value of another type

module _ {N : Type 0} where
  unfoldable pub is_stale : ℕ → Balance N → Bool
  is_stale now b = elim b.updated_at [ none ↦ true | some at ↦ ltb (at + b.stale_threshold) now ]

  booked : N → N → ℕ → Balance N → Bool × Balance N
  booked available total now b = (
    true,
    record b {
      available = available;
      total = total;
      updated_at = some now;
      fetch_count = b.fetch_count + 1;
    },
  )

  unfoldable pub fetch : FetchReply N → ℕ → Balance N → Bool × Balance N
  unfolding booked
  fetch (balances available total) now b = booked available total now b
  fetch (amount x) now b = booked x x now b
  fetch no_function now b = (false, b)
  fetch raised now b = (false, b)
  fetch nothing now b = (false, b)
  fetch (half_read available) now b = (false, record b { available = available })
  fetch other_value now b = booked b.available b.total now b

  unfoldable pub update : N → Option N → ℕ → Balance N → Balance N
  update available none now b = record b {
    available = available;
    total = available;
    updated_at = some now;
  }
  update available (some total) now b = record b {
    available = available;
    total = total;
    updated_at = some now;
  }

module _ {N : Type 0} ⦃f : Float N⦄ where
  -- `max(0, x)`
  abbrev pub max_zero : N → N
  max_zero x = if f.zero_f <? x then x else f.zero_f

  unfoldable pub deduct : N → ℕ → Balance N → Balance N
  deduct x now b = record b { available = max_zero (b.available ⊖ x); updated_at = some now }

  -- `add`
  unfoldable pub add_amount : N → ℕ → Balance N → Balance N
  add_amount x now b = record b { available = b.available ⊕ x; updated_at = some now }
