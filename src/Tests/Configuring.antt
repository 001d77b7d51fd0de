-- ===== src/Tests/Configuring.antt =====
-- The settings of a tenant, on a concrete tenant.
use harmony_saas_multitenanc.Base.{
  true, false, not, List, ◌≡◌, refl, none, some, [], ◌∷◌, ◌==◌, if◌then◌else◌, lookup,
}
use harmony_saas_multitenanc.Browser.{truthy}
use harmony_saas_multitenanc.Client.{success, failure}
use harmony_saas_multitenanc.Numerals.{Number, finite}
use harmony_saas_multitenanc.Format.{default_format_settings}
use harmony_saas_multitenanc.Settings.{
  TenantInfo, UsageData, Loaded, boolean, word, saves, saves_formats, first_settings_page,
  language_of, save_request, load_ends,
}
use harmony_saas_multitenanc.Settings.Controls.{
  SettingsEvent, can_happen, respond, Reach, start, after,
}
use harmony_saas_multitenanc.Settings.Saving.{
  respond_all, save_after_load, failed_load_saves_blanks,
}
use harmony_saas_multitenanc.Settings.Viewing.{IsViewed, Reach-IsViewed}
use harmony_saas_multitenanc.Tests.Sample.{offline}

abbrev five : Number
five = finite false 5 0

abbrev shop : TenantInfo
shop = record {
  id = "t1";
  name = "Shop";
  subdomain = "shop";
  logo_url = none;
  tier = "free";
  subscription_status = "active";
  max_users = five;
  max_branches = five;
  max_storage_gb = five;
  settings = ("theme", word "dark") ∷ ("language", word "en") ∷ ("beta", boolean true) ∷ [];
}

abbrev shop_usage : UsageData
shop_usage = record {
  tenant_id = "t1";
  tenant_name = "Shop";
  tier = "free";
  users_current = five;
  users_limit = five;
  users_available = five;
  users_percent = five;
  branches_current = five;
  branches_limit = five;
  branches_available = five;
  branches_percent = five;
  storage_used_gb = five;
  storage_limit_gb = five;
  storage_available_gb = five;
  storage_percent = five;
  is_user_limit_reached = false;
  is_branch_limit_reached = false;
  is_storage_limit_reached = false;
  can_upgrade = false;
  next_tier = none;
}

abbrev shop_loaded : Loaded
shop_loaded = record {
  tenant_data = shop;
  usage_data = shop_usage;
  tiers_data = record { tiers = []; current_tier = "free" };
  format_data = default_format_settings;
  sub_info_data = failure offline;
  upgrade_data = success [];
}

save_after_load_example :
    let sent =
      save_request (respond (SettingsEvent.loaded (success shop_loaded)) first_settings_page) in
    (sent.name ≡ "Shop")
    × (sent.logo_url ≡ truthy none)
    × (lookup "theme" sent.settings ≡ (
        if "language" == "theme"
        then some (language_of shop.settings)
        else lookup "theme" shop.settings))
unfolding respond load_ends
save_after_load_example = save_after_load first_settings_page shop_loaded "theme"

-- The user clicks before the load fails a second time.
abbrev clicked : List SettingsEvent
clicked =
    SettingsEvent.loaded (failure offline)
    ∷ SettingsEvent.save_clicked
    ∷ SettingsEvent.logo_uploaded
    ∷ []

failed_load_saves_blanks_example :
    let p =
      respond (SettingsEvent.loaded (failure offline)) (respond_all clicked first_settings_page) in
    (can_happen true true SettingsEvent.save_clicked p ≡ not p.saving)
    × (can_happen true true SettingsEvent.format_save_clicked p ≡ not p.format_saving)
    × ((respond SettingsEvent.save_clicked p).sent
        ≡ saves (record { name = ""; logo_url = none; settings = ("language", word "id") ∷ [] })
          ∷ p.sent)
    × ((respond SettingsEvent.format_save_clicked p).sent
        ≡ saves_formats default_format_settings ∷ p.sent)
failed_load_saves_blanks_example = failed_load_saves_blanks true clicked offline refl

shop_shown :
    Reach false false (respond (SettingsEvent.loaded (success shop_loaded)) first_settings_page)
unfolding can_happen first_settings_page
shop_shown = after (SettingsEvent.loaded (success shop_loaded)) start refl

Reach-IsViewed_example :
    IsViewed (respond (SettingsEvent.loaded (success shop_loaded)) first_settings_page)
Reach-IsViewed_example = Reach-IsViewed shop_shown
