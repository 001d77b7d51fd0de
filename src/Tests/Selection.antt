-- ===== src/Tests/Selection.antt =====
-- The feature flags and the dialog of tiers at concrete inputs.
use harmony_saas_multitenanc.Base.{String, true, false, none, [], ◌∷◌, List}
use harmony_saas_multitenanc.Payment.{SubscriptionTier}

abbrev basic_tier : SubscriptionTier
basic_tier = record {
  id = "tier1";
  code = "basic";
  display_name = "Basic";
  description = none;
  price_monthly = 100;
  price_yearly = 1000;
  currency = "IDR";
  max_users = 5;
  max_branches = 1;
  max_storage_gb = 1;
  features = "pos.shifts" ∷ "legacy" ∷ [];
  sort_order = 1;
  is_public = true;
  is_recommended = false;
  trial_days = 0;
  is_active = true;
  created_at = "2026-01-01";
  updated_at = none;
}

abbrev two_codes : List String
two_codes = "pos.shifts" ∷ "inventory.stock" ∷ []
