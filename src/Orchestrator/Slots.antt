-- ===== src/Orchestrator/Slots.antt =====
-- The five-minute slots: the start that an event's slug ends in, and the slot of a time. Slugs
-- are read as ASCII. Times are whole Unix seconds.
use polyfast.Base.{
  ℕ, ◌+◌, ◌-◌, ◌*◌, ◌/◌, String, Bool, true, false, ◌&&◌, Option, none, some, List, [], ◌∷◌,
  if◌then◌else◌, ltb, leb, ◌==◌,
}
use polyfast.Base.Sets.{codes}
use mathlib.Core.List.{reverse}

-- `SLOT_SECONDS`
abbrev pub slot_seconds : ℕ
slot_seconds = 300

abbrev pub is_digit : ℕ → Bool
is_digit c = leb b'0' c && leb c b'9'

-- The number whose digits stand at the head, the last digit first, if there are ten or more of them
-- and a dash follows. The counters are the digits read so far, the weight of the next one, and
-- the value of those read.
unfoldable pub read_digits : List ℕ → ℕ → ℕ → ℕ → Option ℕ
read_digits [] count weight value = none
read_digits (c ∷ cs) count weight value =
    let rest = read_digits cs (count + 1) (weight * 10) (value + weight * (c - b'0')) in
    if is_digit c then rest else if c == b'-' && leb 10 count then some value else none

-- `$` also matches before a newline at the end.
abbrev pub drop_newline : List ℕ → List ℕ
drop_newline [] = []
drop_newline (c ∷ cs) = if c == 10 then cs else c ∷ cs

-- `re.search(r'-(\d{10,})$', slug)`, as the number of its group.
unfoldable pub slug_start : String → Option ℕ
unfolding read_digits
slug_start slug = read_digits (drop_newline (reverse (codes slug))) 0 1 0

-- `start <= now < start + 300`
unfoldable pub is_current : ℕ → ℕ → Bool
is_current now start = leb start now && ltb now (start + slot_seconds)

-- The slug of an event that is live now.
unfoldable pub is_live : ℕ → String → Bool
is_live now slug = elim (slug_start slug) [ none ↦ false | some start ↦ is_current now start ]

-- `_current_slot_start`
unfoldable pub current_slot_start : ℕ → ℕ
current_slot_start now = now / slot_seconds * slot_seconds

-- `_slot_remaining`, in whole seconds.
unfoldable pub slot_remaining : ℕ → ℕ
slot_remaining now = (now / slot_seconds + 1) * slot_seconds - now

-- `_is_current_or_upcoming`, with its lookahead of 30 minutes.
unfoldable pub is_current_or_upcoming : ℕ → String → Bool
is_current_or_upcoming now slug = elim (slug_start slug) [
  | none ↦ true
  | some start ↦ leb start (now + 1800) && leb now (start + slot_seconds)
]
