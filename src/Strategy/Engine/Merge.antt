-- ===== src/Strategy/Engine/Merge.antt =====
-- What the merge of the rules' results decides, whatever the rules are.
use polyfast.Base.{◌≡◌, Bool, ◌||◌, List, [], ◌∷◌, ◌++◌, refl, arith, if◌then◌else◌}
use polyfast.Base.Lists.{any}
use polyfast.Strategy.State.{entry, no_entry, wait, no_rules, RuleResult, passes, fails, waits}
use polyfast.Strategy.Engine.{Seen, see, see_all, decide, merge_decision}

see_all_lem :
    (rs : List RuleResult) (s : Seen)
    → see_all rs s ≡ record {
      has_fail = s.has_fail || any fails rs;
      has_waiting = s.has_waiting || any waits rs;
      has_pass = s.has_pass || any passes rs;
    }
unfolding see_all see any
see_all_lem [] s = ground arith
see_all_lem (r ∷ rs) s = ground (arith, see_all_lem rs (see r.state s))

-- The decision is no entry where any rule failed, else waiting where any waits, else entry where
-- any passed, else that no rule is switched on; disabled rules do not count.
pub merge_decision_lem :
    (rs : List RuleResult)
    → merge_decision rs ≡ (
        if any fails rs
        then no_entry
        else if any waits rs
        then wait
        else if any passes rs
        then entry
        else no_rules)
unfolding merge_decision decide
merge_decision_lem rs = rw (see_all_lem rs _) refl

any-append :
    {A : Type 0} (p : A → Bool) (xs ys : List A) → any p (xs ++ ys) ≡ (any p ys || any p xs)
unfolding any
any-append p [] ys = ground arith
any-append p (x ∷ xs) ys = ground (arith, any-append p xs ys)

-- The order of the rules has no say: two blocks of results may be exchanged anywhere.
pub merge_decision-exchange :
    (xs ys zs : List RuleResult)
    → merge_decision (xs ++ (ys ++ zs)) ≡ merge_decision (ys ++ (xs ++ zs))
merge_decision-exchange xs ys zs =
    rw (merge_decision_lem (xs ++ (ys ++ zs)), merge_decision_lem (ys ++ (xs ++ zs)))
      (ground (
        arith,
        any-append fails xs (ys ++ zs),
        any-append fails ys zs,
        any-append fails ys (xs ++ zs),
        any-append fails xs zs,
        any-append waits xs (ys ++ zs),
        any-append waits ys zs,
        any-append waits ys (xs ++ zs),
        any-append waits xs zs,
        any-append passes xs (ys ++ zs),
        any-append passes ys zs,
        any-append passes ys (xs ++ zs),
        any-append passes xs zs,
      ))
