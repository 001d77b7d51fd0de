-- ===== src/Tenants/Subscription.antt =====
-- frontend/src/app/(auth)/admin/tenants/[id]/page.tsx: the form of the subscription, and what its button sends.
use harmony_saas_multitenanc.Base.{String, false, ◌≡◌, refl, ◌==◌}
use harmony_saas_multitenanc.Tenants.{
  TenantDetail, TenantPage, first_tenant_page, tenant_arrives, click_save_subscription,
  handle_save_subscription, initialize_subscription_form, update_subscription, shown_subscription,
  zero_number,
}

-- On a page that has just loaded, the user chooses another tier: the form shows that tier with the present
-- status and limits, but its button sends an empty status and no users, branches or storage. The form is then
-- set to the tenant as it was, so that the next click, also with the tenant loaded anew, sends the old values.
pub save_sends_blanks_then_old :
    (t renewed : TenantDetail) (tier : String)
    → (tier == "") ≡ false
    → let chosen : TenantPage = record (tenant_arrives t first_tenant_page) { sub_tier = tier } in
      let saved = click_save_subscription chosen in
      (shown_subscription t chosen ≡ record {
        tier = tier;
        subscription_status = t.subscription_status;
        max_users = t.max_users;
        max_branches = t.max_branches;
        max_storage_gb = t.max_storage_gb;
      })
      × (saved.0
          ≡ update_subscription (record {
            tier = tier;
            subscription_status = "";
            max_users = zero_number;
            max_branches = zero_number;
            max_storage_gb = zero_number;
          }))
      × ((click_save_subscription (tenant_arrives renewed saved.1)).0
          ≡ update_subscription (record {
            tier = t.tier;
            subscription_status = t.subscription_status;
            max_users = t.max_users;
            max_branches = t.max_branches;
            max_storage_gb = t.max_storage_gb;
          }))
unfolding click_save_subscription handle_save_subscription initialize_subscription_form
    tenant_arrives first_tenant_page shown_subscription
save_sends_blanks_then_old t renewed tier some_tier = (rw some_tier refl, refl, refl)
