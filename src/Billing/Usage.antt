-- ===== src/Billing/Usage.antt =====
-- Monthly usage counters: src/services/billing/usage.py, over a table of rows with a primary key.
-- `uuid4()` is a key that no row has yet. A period is the year and the month of its first day.
pub mod Counts
pub mod Credits
use inbox_pilot.Prelude.{
  ℕ, suc, ◌+◌, ◌==◌, ◌&&◌, Bool, true, false, Option, none, some, List, [], ◌∷◌, ◌++◌, map, find?,
  is_some, DateTime, if◌then◌else◌,
}

pub record Counter : Type 0 where
  pub id : ℕ
  pub user_id : ℕ
  pub period_year : ℕ
  pub period_month : ℕ
  pub bot_seconds_used : ℕ
  pub drafts_generated : ℕ

pub record Table : Type 0 where
  pub rows : List Counter
  pub next_id : ℕ

-- `date(now.year, now.month, 1)`
abbrev pub period_start_for : DateTime → ℕ × ℕ
period_start_for now = (now.year, now.month)

unfoldable pub is_for : ℕ → ℕ × ℕ → Counter → Bool
is_for user_id period c =
    c.user_id == user_id && (c.period_year == period.0 && c.period_month == period.1)

unfoldable pub select_counter : ℕ → ℕ × ℕ → List Counter → Option Counter
select_counter user_id period rows = find? (is_for user_id period) rows

abbrev pub new_counter : ℕ → ℕ → ℕ × ℕ → Counter
new_counter id user_id period = record {
  id = id;
  user_id = user_id;
  period_year = period.0;
  period_month = period.1;
  bot_seconds_used = 0;
  drafts_generated = 0;
}

-- INSERT ... ON CONFLICT DO NOTHING
unfoldable pub insert_counter : ℕ → ℕ × ℕ → Table → Table
insert_counter user_id period t =
    if is_some (select_counter user_id period t.rows) then t else record {
      rows = t.rows ++ new_counter t.next_id user_id period ∷ [];
      next_id = t.next_id + 1;
    }

-- `none` is the failed assertion.
unfoldable pub get_or_create_counter : ℕ → DateTime → Table → Option Counter × Table
get_or_create_counter user_id now t =
    let t' = insert_counter user_id (period_start_for now) t in
    (select_counter user_id (period_start_for now) t'.rows, t')

abbrev pub plus_bot : ℕ → Counter → Counter
plus_bot n c = record c { bot_seconds_used = c.bot_seconds_used + n }

abbrev pub plus_drafts : ℕ → Counter → Counter
plus_drafts n c = record c { drafts_generated = c.drafts_generated + n }

-- UPDATE ... SET x = x + n WHERE id = ..., for either column.
unfoldable pub update_where : ℕ → (Counter → Counter) → List Counter → List Counter
update_where id change [] = []
update_where id change (c ∷ rows) =
    (if c.id == id then change c else c) ∷ update_where id change rows

-- The counter that was read with its column as RETURNING gives it, and the rows. The row is still
-- there, so RETURNING sees the same number that the change makes of the counter just read.
credit : Option Counter × Table → (Counter → Counter) → Option Counter × Table
credit (none, t) change = (none, t)
credit (some c, t) change = (some (change c), record t { rows = update_where c.id change t.rows })

unfoldable pub add_bot_seconds : ℕ → ℕ → DateTime → Table → Option Counter × Table
unfolding credit
add_bot_seconds user_id seconds now t =
    credit (get_or_create_counter user_id now t) (plus_bot seconds)

unfoldable pub add_drafts : ℕ → ℕ → DateTime → Table → Option Counter × Table
unfolding credit
add_drafts user_id count now t = credit (get_or_create_counter user_id now t) (plus_drafts count)
