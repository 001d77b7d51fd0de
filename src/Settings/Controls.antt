-- ===== src/Settings/Controls.antt =====
-- frontend/src/app/(dashboard)/settings/page.tsx: the controls of the page, and the replies of the server, as events.
use harmony_saas_multitenanc.Base.{String, Bool, true, false, not, ◌&&◌, ◌≡◌, Option, some, ltb}
use harmony_saas_multitenanc.Client.{Reply, Failure}
use harmony_saas_multitenanc.Format.{FormatSettings}
use harmony_saas_multitenanc.Public.{line}
use harmony_saas_multitenanc.Settings.{
  SettingsPage, TenantInfo, Loaded, FormatChange, word, first_settings_page, load_data, load_ends,
  handle_save, save_ends, handle_format_save, format_save_ends, update_format_setting, cancel_ends,
}

pub data SettingsEvent : Type 0 where
  name_typed language_chosen logo_failed : String → SettingsEvent
  format_changed : FormatChange → SettingsEvent
  save_clicked format_save_clicked logo_uploaded cancel_clicked : SettingsEvent
  success_over format_success_over : SettingsEvent
  loaded cancel_loaded : Reply Loaded → SettingsEvent
  saved : Reply TenantInfo → SettingsEvent
  format_saved : Reply FormatSettings → SettingsEvent
  cancelled : Option Failure → SettingsEvent

-- While the page loads nothing else is shown. `can_manage` is the permission to manage the billing.
unfoldable pub can_happen : Bool → Bool → SettingsEvent → SettingsPage → Bool
can_happen can_edit can_manage (SettingsEvent.name_typed s) p = can_edit && not p.loading
can_happen can_edit can_manage (SettingsEvent.language_chosen s) p = can_edit && not p.loading
can_happen can_edit can_manage (SettingsEvent.format_changed c) p = can_edit && not p.loading
can_happen can_edit can_manage SettingsEvent.save_clicked p =
    can_edit && not p.loading && not p.saving
can_happen can_edit can_manage SettingsEvent.format_save_clicked p =
    can_edit && not p.loading && not p.format_saving
can_happen can_edit can_manage SettingsEvent.logo_uploaded p = can_edit
can_happen can_edit can_manage (SettingsEvent.logo_failed s) p = can_edit
can_happen can_edit can_manage SettingsEvent.cancel_clicked p =
    can_manage && not p.loading && not p.cancelling_schedule
can_happen can_edit can_manage SettingsEvent.success_over p = true
can_happen can_edit can_manage SettingsEvent.format_success_over p = true
can_happen can_edit can_manage (SettingsEvent.loaded r) p = ltb 0 p.loads
can_happen can_edit can_manage (SettingsEvent.cancel_loaded r) p =
    p.cancelling_schedule && ltb 0 p.loads
can_happen can_edit can_manage (SettingsEvent.saved r) p = p.saving
can_happen can_edit can_manage (SettingsEvent.format_saved r) p = p.format_saving
can_happen can_edit can_manage (SettingsEvent.cancelled r) p = p.cancelling_schedule

-- After `cancel_loaded` the load that follows a cancellation is over.
unfoldable pub respond : SettingsEvent → SettingsPage → SettingsPage
respond (SettingsEvent.name_typed s) p = record p { form_name = s }
respond (SettingsEvent.language_chosen s) p = record p { form_language = word s }
respond (SettingsEvent.format_changed c) p = record p {
  format_settings = update_format_setting c p.format_settings;
}
respond SettingsEvent.save_clicked p = handle_save p
respond SettingsEvent.format_save_clicked p = handle_format_save p
respond SettingsEvent.logo_uploaded p = load_data p
respond (SettingsEvent.logo_failed s) p = record p { error = some (line s) }
respond SettingsEvent.cancel_clicked p = record p { cancelling_schedule = true }
respond SettingsEvent.success_over p = record p { save_success = false }
respond SettingsEvent.format_success_over p = record p { format_save_success = false }
respond (SettingsEvent.loaded r) p = load_ends r p
respond (SettingsEvent.cancel_loaded r) p = record (load_ends r p) { cancelling_schedule = false }
respond (SettingsEvent.saved r) p = save_ends r p
respond (SettingsEvent.format_saved r) p = format_save_ends r p
respond (SettingsEvent.cancelled r) p = cancel_ends r p

pub data Reach (can_edit can_manage : Bool) : SettingsPage → Type 0 where
  start : Reach can_edit can_manage first_settings_page
  after :
      {p : SettingsPage} (e : SettingsEvent)
      → Reach can_edit can_manage p
      → can_happen can_edit can_manage e p ≡ true
      → Reach can_edit can_manage (respond e p)
