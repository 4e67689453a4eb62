-- ===== src/Guards/Tests.antt =====
-- The guards on a Redis that keeps its entries in a function.
use inbox_pilot.Prelude.{◌≡◌, refl, true, false, [], ◌∷◌, arith}
use inbox_pilot.Guards.Memory.{memory, empty}
use inbox_pilot.Guards.Window.{FirstOnly}
use inbox_pilot.Guards.Replies.{answers, allow_reply_cap}
use inbox_pilot.Guards.Limits.{remaining, allow, allowed_at, allow-FirstOnly, allow_stuck}

allow_reply_cap_example :
    FirstOnly 5
      (answers memory "thread" (1000 ∷ 1001 ∷ 1002 ∷ 1003 ∷ 1004 ∷ 1005 ∷ 4599 ∷ []) empty)
allow_reply_cap_example =
    allow_reply_cap memory "thread" 1000 (1001 ∷ 1002 ∷ 1003 ∷ 1004 ∷ 1005 ∷ 4599 ∷ []) empty refl
      (omega arith, (omega arith, (omega arith, (omega arith, (omega arith, (omega arith, tt))))))

allow-FirstOnly_example :
    FirstOnly 2 (allowed_at memory "page" 2 60 (1000 ∷ 1001 ∷ 1059 ∷ []) empty)
allow-FirstOnly_example =
    allow-FirstOnly memory "page" 2 60 1000 (1001 ∷ 1059 ∷ []) empty refl
      (omega arith, (omega arith, tt))

one_left : remaining memory "page" 2 true 1001 (allow memory "page" 2 60 true true 1000 empty).1 ≡ 1
unfolding remaining allow
one_left = refl

-- An hour after an EXPIRE that failed.
allow_stuck_example : FirstOnly 1 (
    allowed_at memory "page" 2 60
      (1001 ∷ 4600 ∷ 4700 ∷ [])
      (allow memory "page" 2 60 true false 1000 empty).1)
allow_stuck_example = allow_stuck memory "page" 2 60 1000 (1001 ∷ 4600 ∷ 4700 ∷ []) empty refl
