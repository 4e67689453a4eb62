-- ===== src/Billing/Plans.antt =====
-- The plan catalogue: src/core/plans.py and src/core/routine_slugs.py. The settings that hold the
-- payment provider's plan ids are an argument.
use inbox_pilot.Prelude.{
  ℕ, ◌*◌, ◌&&◌, String, str_eq, Bool, true, false, Option, none, some, List, [], ◌∷◌, if◌then◌else◌,
}

abbrev pub plan_starter : String
plan_starter = "starter"

abbrev pub plan_pro : String
plan_pro = "pro"

abbrev pub interval_monthly : String
interval_monthly = "monthly"

abbrev pub interval_annual : String
interval_annual = "annual"

abbrev pub routine_briefing : String
routine_briefing = "briefing"

abbrev pub all_routines : List String
all_routines =
    routine_briefing ∷ "newsletter_digest" ∷ "chase_threads" ∷ "reconnect" ∷ "deadline_scan"
    ∷ "catchup" ∷ "invoices" ∷ "double_bookings" ∷ "schedule_trusted" ∷ []

pub record Entitlements : Type 0 where
  pub bot_hours_per_month : ℕ
  pub drafts_per_month : Option ℕ
  pub allowed_routines : List String
  pub custom_categories : Bool
  pub video_retention_days : ℕ
  pub transcript_retention_days : ℕ

abbrev pub bot_seconds_per_month : Entitlements → ℕ
bot_seconds_per_month e = e.bot_hours_per_month * 3600

pub record Plan : Type 0 where
  pub id : String
  pub name : String
  pub monthly_price_cents : ℕ
  pub annual_price_cents : ℕ
  pub entitlements : Entitlements

abbrev pub starter : Plan
starter = record {
  id = plan_starter;
  name = "Starter";
  monthly_price_cents = 1900;
  annual_price_cents = 18000;
  entitlements = record {
    bot_hours_per_month = 5;
    drafts_per_month = some 20;
    allowed_routines = routine_briefing ∷ [];
    custom_categories = false;
    video_retention_days = 7;
    transcript_retention_days = 90;
  };
}

abbrev pub pro : Plan
pro = record {
  id = plan_pro;
  name = "Pro";
  monthly_price_cents = 3900;
  annual_price_cents = 34800;
  entitlements = record {
    bot_hours_per_month = 15;
    drafts_per_month = none;
    allowed_routines = all_routines;
    custom_categories = true;
    video_retention_days = 30;
    transcript_retention_days = 365;
  };
}

-- `none` is the KeyError.
unfoldable pub get_plan : String → Option Plan
get_plan plan_id =
    if str_eq plan_id plan_starter
    then some starter
    else if str_eq plan_id plan_pro
    then some pro
    else none

pub record PlanIds : Type 0 where
  pub starter_monthly : String
  pub starter_annual : String
  pub pro_monthly : String
  pub pro_annual : String

-- `none` is the KeyError.
unfoldable pub razorpay_plan_id_for : PlanIds → String → String → Option String
razorpay_plan_id_for settings plan_id interval =
    if str_eq plan_id plan_starter && str_eq interval interval_monthly
    then some settings.starter_monthly
    else if str_eq plan_id plan_starter && str_eq interval interval_annual
    then some settings.starter_annual
    else if str_eq plan_id plan_pro && str_eq interval interval_monthly
    then some settings.pro_monthly
    else if str_eq plan_id plan_pro && str_eq interval interval_annual
    then some settings.pro_annual
    else none
