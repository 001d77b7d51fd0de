-- ===== src/Tests/Renting.antt =====
-- The page of a tenant, on a concrete one.
use harmony_saas_multitenanc.Base.{
  String, Bool, true, false, ◌≡◌, refl, none, List, [], ◌∷◌, lookup, keys, contains,
}
use harmony_saas_multitenanc.Numerals.{Number, finite}
use harmony_saas_multitenanc.Tenants.{
  TenantDetail, TenantPage, first_tenant_page, tenant_arrives, click_save_subscription,
  shown_subscription, update_subscription, zero_number, is_feature_enabled, is_on,
  handle_save_features, update_features,
}
use harmony_saas_multitenanc.Tenants.Subscription.{save_sends_blanks_then_old}
use harmony_saas_multitenanc.Tenants.Features.{switch_all, untouched_features_not_saved}

abbrev ten : Number
ten = finite false 10 0

abbrev bakery : TenantDetail
bakery = record {
  id = "t1";
  name = "Bakery";
  subdomain = "bakery";
  domain = none;
  logo_url = none;
  tier = "basic";
  subscription_status = "active";
  max_users = ten;
  max_branches = ten;
  max_storage_gb = ten;
  user_count = 3;
  branch_count = 1;
  is_active = true;
  features = ("analytics", true) ∷ [];
}

save_sends_blanks_then_old_example :
    let chosen : TenantPage = record (tenant_arrives bakery first_tenant_page) {
      sub_tier = "premium";
    } in
    let saved = click_save_subscription chosen in
    (shown_subscription bakery chosen ≡ record {
      tier = "premium";
      subscription_status = "active";
      max_users = ten;
      max_branches = ten;
      max_storage_gb = ten;
    })
    × (saved.0
        ≡ update_subscription (record {
          tier = "premium";
          subscription_status = "";
          max_users = zero_number;
          max_branches = zero_number;
          max_storage_gb = zero_number;
        }))
    × ((click_save_subscription (tenant_arrives bakery saved.1)).0
        ≡ update_subscription (record {
          tier = "basic";
          subscription_status = "active";
          max_users = ten;
          max_branches = ten;
          max_storage_gb = ten;
        }))
save_sends_blanks_then_old_example = save_sends_blanks_then_old bakery bakery "premium" refl

abbrev one_switch : List (String × Bool)
one_switch = ("api_access", true) ∷ []

untouched_features_not_saved_example :
    let after = switch_all one_switch (tenant_arrives bakery first_tenant_page) in
    (is_feature_enabled bakery "analytics" after ≡ is_on (lookup "analytics" bakery.features))
    × (handle_save_features after ≡ update_features after.features)
    × (lookup "analytics" after.features ≡ none)
unfolding contains keys
untouched_features_not_saved_example =
    untouched_features_not_saved bakery one_switch "analytics" refl
