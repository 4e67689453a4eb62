-- ===== src/Billing/Usage/Credits.antt =====
-- Runs of credits and reads: src/services/billing/usage.py.
use inbox_pilot.Prelude.{
  ℕ, ◌+◌, ◌==◌, ◌&&◌, ◌≡◌, Bool, true, Option, some, List, [], ◌∷◌, arith, find?-sound, DateTime,
  if◌then◌else◌, ◌∙◌,
}
use inbox_pilot.Billing.Usage.{
  Counter, Table, period_start_for, is_for, select_counter, insert_counter, get_or_create_counter,
  plus_bot, plus_drafts, credit, add_bot_seconds, add_drafts,
}
use inbox_pilot.Billing.Usage.Counts.{
  usage, IsKeyed, Adds, plus_bot-Adds, plus_drafts-Adds, plus_usage, update-usage, update-below,
  update-Distinct, insert-usage, insert-IsKeyed, select-insert,
}

abbrev pub same_period : ℕ → ℕ × ℕ → ℕ → ℕ × ℕ → Bool
same_period u p v q = v == u && (q.0 == p.0 && q.1 == p.1)

is_for-same_period :
    (u v : ℕ) (p q : ℕ × ℕ) (c : Counter) → is_for v q c ≡ true → is_for u p c ≡ same_period u p v q
unfolding is_for
is_for-same_period u v p q c h = ground arith

select-is_for :
    (v : ℕ) (q : ℕ × ℕ) (c : Counter) (rows : List Counter)
    → select_counter v q rows ≡ some c
    → is_for v q c ≡ true
unfolding select_counter
select-is_for v q c rows e = find?-sound (is_for v q) rows c e

module _ (change : Counter → Counter) (n m : ℕ) (a : Adds change n m) where
  abbrev credited : ℕ → DateTime → Table → Option Counter × Table
  credited v now t = credit (get_or_create_counter v now t) change

  credit-usage :
      (u v : ℕ) (p : ℕ × ℕ) (now : DateTime) (t : Table)
      → IsKeyed t
      → usage u p (credited v now t).1
        ≡ plus_usage (same_period u p v (period_start_for now)) n m (usage u p t)
  unfolding get_or_create_counter credit
  credit-usage u v p now t k =
      let q : ℕ × ℕ = period_start_for now in
      let (c, e) = select-insert v q t in
      rw e (
        update-usage change n m a v q u p c (insert_counter v q t).rows
          (insert-IsKeyed v q t k).distinct e
        ∙ cc (
          is_for-same_period u v p q c (select-is_for v q c (insert_counter v q t).rows e),
          insert-usage u v p q t,
        ))

  credit-IsKeyed : (v : ℕ) (now : DateTime) (t : Table) → IsKeyed t → IsKeyed (credited v now t).1
  unfolding get_or_create_counter credit
  credit-IsKeyed v now t k =
      let q : ℕ × ℕ = period_start_for now in
      let (c, e) = select-insert v q t in
      let k' : IsKeyed (insert_counter v q t) = insert-IsKeyed v q t k in
      rw e (record {
        below =
            update-below change n m a v q c.id (insert_counter v q t).next_id
              (insert_counter v q t).rows k'.below;
        distinct = update-Distinct change n m a v q c.id (insert_counter v q t).rows k'.distinct;
      })

-- What a caller of the counters does: credit seconds, credit drafts, or read.
pub data Call : Type 0 where
  bot : ℕ → ℕ → DateTime → Call
  drafts : ℕ → ℕ → DateTime → Call
  read : ℕ → DateTime → Call

unfoldable pub call : Call → Table → Table
call (bot user_id seconds now) t = (add_bot_seconds user_id seconds now t).1
call (drafts user_id count now) t = (add_drafts user_id count now t).1
call (read user_id now) t = (get_or_create_counter user_id now t).1

unfoldable pub calls : List Call → Table → Table
calls [] t = t
calls (c ∷ cs) t = calls cs (call c t)

-- What one call, and a run of them, credits to a user in a period.
abbrev pub credit_of : ℕ → ℕ × ℕ → Call → ℕ × ℕ
credit_of u p (bot v n now) = if same_period u p v (period_start_for now) then (n, 0) else (0, 0)
credit_of u p (drafts v n now) = if same_period u p v (period_start_for now) then (0, n) else (0, 0)
credit_of u p (read v now) = (0, 0)

abbrev pub credits : ℕ → ℕ × ℕ → List Call → ℕ × ℕ
credits u p [] = (0, 0)
credits u p (c ∷ cs) =
    let (b, d) = credit_of u p c in let (b', d') = credits u p cs in (b + b', d + d')

call-usage :
    (u : ℕ) (p : ℕ × ℕ) (c : Call) (t : Table)
    → IsKeyed t
    → usage u p (call c t)
      ≡ (let (b, d) = usage u p t in let (b', d') = credit_of u p c in (b + b', d + d'))
unfolding call add_bot_seconds add_drafts get_or_create_counter
call-usage u p (bot v n now) t k =
    ground (arith, credit-usage (plus_bot n) n 0 (plus_bot-Adds n) u v p now t k)
call-usage u p (drafts v n now) t k =
    ground (arith, credit-usage (plus_drafts n) 0 n (plus_drafts-Adds n) u v p now t k)
call-usage u p (read v now) t k = ground (arith, insert-usage u v p (period_start_for now) t)

call-IsKeyed : (c : Call) (t : Table) → IsKeyed t → IsKeyed (call c t)
unfolding call add_bot_seconds add_drafts get_or_create_counter
call-IsKeyed (bot v n now) t k = credit-IsKeyed (plus_bot n) n 0 (plus_bot-Adds n) v now t k
call-IsKeyed (drafts v n now) t k =
    credit-IsKeyed (plus_drafts n) 0 n (plus_drafts-Adds n) v now t k
call-IsKeyed (read v now) t k = insert-IsKeyed v (period_start_for now) t k

-- From a table whose keys are distinct, any run of credits and reads, in any order and by any
-- users, leaves each user's usage in each period at what it was plus what was credited to it, and
-- keys distinct.
pub calls-usage :
    (u : ℕ) (p : ℕ × ℕ) (cs : List Call) (t : Table)
    → IsKeyed t
    → (usage u p (calls cs t)
        ≡ (let (b, d) = usage u p t in let (b', d') = credits u p cs in (b + b', d + d')))
      × IsKeyed (calls cs t)
unfolding calls
calls-usage u p [] t k = (ground arith, k)
calls-usage u p (c ∷ cs) t k =
    let (rest, keyed) = calls-usage u p cs (call c t) (call-IsKeyed c t k) in
    (ground (arith, rest, call-usage u p c t k), keyed)
