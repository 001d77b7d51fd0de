-- ===== src/Settings/Viewing.antt =====
-- frontend/src/app/(dashboard)/settings/page.tsx: the page for a user who cannot edit the settings.
use harmony_saas_multitenanc.Base.{String, Bool, true, false, ◌≡◌, refl, Option, none, some}
use harmony_saas_multitenanc.Client.{Reply, success, failure, Failure}
use harmony_saas_multitenanc.Settings.{
  Json, word, SettingsPage, TenantInfo, Loaded, first_settings_page, load_ends, language_of,
  or_blank, load_data, cancel_ends,
}
use harmony_saas_multitenanc.Settings.Controls.{
  SettingsEvent, can_happen, respond, Reach, start, after,
}

-- The form shows what is stored, or nothing.
abbrev pub Shows : Option TenantInfo → String → String → Json → Type 0
Shows none name logo language = (name ≡ "") × (logo ≡ "") × (language ≡ word "id")
Shows (some t) name logo language =
    (name ≡ t.name) × (logo ≡ or_blank t.logo_url) × (language ≡ language_of t.settings)

abbrev pub IsViewed : SettingsPage → Type 0
IsViewed p =
    Shows p.tenant_info p.form_name p.form_logo_url p.form_language
    × (p.saving ≡ false)
    × (p.format_saving ≡ false)

load_ends-IsViewed : (r : Reply Loaded) (p : SettingsPage) → IsViewed p → IsViewed (load_ends r p)
unfolding load_ends
load_ends-IsViewed (success d) p h = ((refl, refl, refl), h.1, h.2)
load_ends-IsViewed (failure f) p h = h

cancel_ends-IsViewed :
    (f : Option Failure) (p : SettingsPage) → IsViewed p → IsViewed (cancel_ends f p)
unfolding cancel_ends load_data
cancel_ends-IsViewed none p h = h
cancel_ends-IsViewed (some f) p h = h

respond-IsViewed :
    (can_manage : Bool) (e : SettingsEvent) (p : SettingsPage)
    → can_happen false can_manage e p ≡ true
    → IsViewed p
    → IsViewed (respond e p)
unfolding respond can_happen load_data
respond-IsViewed m (SettingsEvent.name_typed s) p g h = absurd (cc g)
respond-IsViewed m (SettingsEvent.language_chosen s) p g h = absurd (cc g)
respond-IsViewed m (SettingsEvent.format_changed c) p g h = absurd (cc g)
respond-IsViewed m SettingsEvent.save_clicked p g h = absurd (cc g)
respond-IsViewed m SettingsEvent.format_save_clicked p g h = absurd (cc g)
respond-IsViewed m SettingsEvent.logo_uploaded p g h = absurd (cc g)
respond-IsViewed m (SettingsEvent.logo_failed s) p g h = absurd (cc g)
respond-IsViewed m SettingsEvent.cancel_clicked p g h = h
respond-IsViewed m SettingsEvent.success_over p g h = h
respond-IsViewed m SettingsEvent.format_success_over p g h = h
respond-IsViewed m (SettingsEvent.loaded r) p g h = load_ends-IsViewed r p h
respond-IsViewed m (SettingsEvent.cancel_loaded r) p g h = load_ends-IsViewed r p h
respond-IsViewed m (SettingsEvent.saved r) p g h = absurd (cc (g, h.1))
respond-IsViewed m (SettingsEvent.format_saved r) p g h = absurd (cc (g, h.2))
respond-IsViewed m (SettingsEvent.cancelled f) p g h = cancel_ends-IsViewed f p h

-- For a user who cannot edit the settings, whatever the server answers and when, nothing is being saved, and
-- the form shows the name, the logo and the language that were loaded last, or nothing where none were.
pub Reach-IsViewed : {can_manage : Bool} {p : SettingsPage} → Reach false can_manage p → IsViewed p
unfolding first_settings_page
Reach-IsViewed start = ((refl, refl, refl), refl, refl)
Reach-IsViewed {can_manage} (after {p} e r g) = respond-IsViewed can_manage e p g (Reach-IsViewed r)
