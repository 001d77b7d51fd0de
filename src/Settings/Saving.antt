-- ===== src/Settings/Saving.antt =====
-- frontend/src/app/(dashboard)/settings/page.tsx: what is saved after a load, and after a load that failed.
use harmony_saas_multitenanc.Base.{
  String, Bool, true, false, not, all, ◌≡◌, refl, Option, none, some, List, [], ◌∷◌, arith, ◌==◌,
  if◌then◌else◌, lookup, eq_iff, Bool-cases, inl, inr,
}
use harmony_saas_multitenanc.Browser.{truthy}
use harmony_saas_multitenanc.Client.{success, failure, Failure}
use harmony_saas_multitenanc.Format.{default_format_settings}
use harmony_saas_multitenanc.Settings.{
  Json, word, SettingsPage, SaveRequest, Loaded, saves, saves_formats, first_settings_page,
  load_data, load_ends, save_request, spread_with, language_of, or_blank, handle_save, save_ends,
  handle_format_save, format_save_ends, cancel_ends,
}
use harmony_saas_multitenanc.Settings.Controls.{SettingsEvent, can_happen, respond}

lookup-spread_with :
    (key wanted : String) (value : Json) (table : List (String × Json))
    → lookup wanted (spread_with key value table)
      ≡ (if key == wanted then some value else lookup wanted table)
unfolding lookup spread_with
lookup-spread_with key wanted value [] = refl
lookup-spread_with key wanted value ((k, v) ∷ rest) =
    let again = lookup-spread_with key wanted value rest in
    elim (Bool-cases (k == key)) [
      | inl e ↦ rw e (ground (arith, eq_iff k key, eq_iff k wanted, eq_iff key wanted))
      | inr e ↦ rw e (ground (arith, again, eq_iff k key, eq_iff k wanted, eq_iff key wanted))
    ]

truthy-or_blank : (o : Option String) → truthy (some (or_blank o)) ≡ truthy o
truthy-or_blank none = refl
truthy-or_blank (some s) = refl

-- Once the settings are loaded, whatever the page held before, saving sends the name and the logo that the
-- server has, and of the settings each one as it is, but the language, which is sent as the one that is
-- stored, or else as "id".
pub save_after_load :
    (p : SettingsPage) (d : Loaded) (key : String)
    → let sent = save_request (respond (SettingsEvent.loaded (success d)) p) in
      (sent.name ≡ d.tenant_data.name)
      × (sent.logo_url ≡ truthy d.tenant_data.logo_url)
      × (lookup key sent.settings ≡ (
          if "language" == key
          then some (language_of d.tenant_data.settings)
          else lookup key d.tenant_data.settings))
unfolding save_request respond load_ends
save_after_load p d key = (
  refl,
  truthy-or_blank d.tenant_data.logo_url,
  lookup-spread_with "language" key (language_of d.tenant_data.settings) d.tenant_data.settings,
)

-- What a user without a loaded tenant sends.
abbrev blank_request : SaveRequest
blank_request = record { name = ""; logo_url = none; settings = ("language", word "id") ∷ [] }

-- The form and the formats are those of the first page.
abbrev pub IsBlank : SettingsPage → Type 0
IsBlank p =
    (p.form_name ≡ "")
    × (p.form_logo_url ≡ "")
    × (p.form_language ≡ word "id")
    × (p.tenant_info ≡ none)
    × (p.format_settings ≡ default_format_settings)

-- An event that neither writes to the form nor brings an accepted answer of a load or of a save.
abbrev pub is_quiet : SettingsEvent → Bool
is_quiet (SettingsEvent.name_typed s) = false
is_quiet (SettingsEvent.language_chosen s) = false
is_quiet (SettingsEvent.format_changed c) = false
is_quiet (SettingsEvent.loaded (success d)) = false
is_quiet (SettingsEvent.cancel_loaded (success d)) = false
is_quiet (SettingsEvent.saved (success t)) = false
is_quiet (SettingsEvent.format_saved (success s)) = false
is_quiet _ = true

abbrev pub respond_all : List SettingsEvent → SettingsPage → SettingsPage
respond_all [] p = p
respond_all (e ∷ es) p = respond_all es (respond e p)

respond-IsBlank :
    (e : SettingsEvent) (p : SettingsPage) → is_quiet e ≡ true → IsBlank p → IsBlank (respond e p)
unfolding respond load_data load_ends handle_save save_ends handle_format_save format_save_ends
    cancel_ends
respond-IsBlank (SettingsEvent.name_typed s) p q h = absurd (cc q)
respond-IsBlank (SettingsEvent.language_chosen s) p q h = absurd (cc q)
respond-IsBlank (SettingsEvent.format_changed c) p q h = absurd (cc q)
respond-IsBlank SettingsEvent.save_clicked p q h = h
respond-IsBlank SettingsEvent.format_save_clicked p q h = h
respond-IsBlank SettingsEvent.logo_uploaded p q h = h
respond-IsBlank (SettingsEvent.logo_failed s) p q h = h
respond-IsBlank SettingsEvent.cancel_clicked p q h = h
respond-IsBlank SettingsEvent.success_over p q h = h
respond-IsBlank SettingsEvent.format_success_over p q h = h
respond-IsBlank (SettingsEvent.loaded (success d)) p q h = absurd (cc q)
respond-IsBlank (SettingsEvent.loaded (failure f)) p q h = h
respond-IsBlank (SettingsEvent.cancel_loaded (success d)) p q h = absurd (cc q)
respond-IsBlank (SettingsEvent.cancel_loaded (failure f)) p q h = h
respond-IsBlank (SettingsEvent.saved (success t)) p q h = absurd (cc q)
respond-IsBlank (SettingsEvent.saved (failure f)) p q h = h
respond-IsBlank (SettingsEvent.format_saved (success s)) p q h = absurd (cc q)
respond-IsBlank (SettingsEvent.format_saved (failure f)) p q h = h
respond-IsBlank (SettingsEvent.cancelled none) p q h = h
respond-IsBlank (SettingsEvent.cancelled (some f)) p q h = h

respond_all-IsBlank :
    (es : List SettingsEvent) (p : SettingsPage)
    → all is_quiet es ≡ true
    → IsBlank p
    → IsBlank (respond_all es p)
respond_all-IsBlank [] p q h = h
respond_all-IsBlank (e ∷ es) p q h =
    respond_all-IsBlank es (respond e p) (ground arith) (respond-IsBlank e p (ground arith) h)

blank-save_request : (p : SettingsPage) → IsBlank p → save_request p ≡ blank_request
unfolding save_request spread_with
blank-save_request p (n, l, g, t, f) = rw (n, l, g, t) refl

-- After any events of which none writes to the form or brings an accepted answer of a load or of a save, a load
-- that fails leaves both buttons that save usable for a user who can edit the settings, unless their save is
-- under way; a click on the one sends an empty name, no logo and no settings but the language "id", and a click
-- on the other the default formats.
pub failed_load_saves_blanks :
    (can_manage : Bool) (es : List SettingsEvent) (f : Failure)
    → all is_quiet es ≡ true
    → let p = respond (SettingsEvent.loaded (failure f)) (respond_all es first_settings_page) in
      (can_happen true can_manage SettingsEvent.save_clicked p ≡ not p.saving)
      × (can_happen true can_manage SettingsEvent.format_save_clicked p ≡ not p.format_saving)
      × ((respond SettingsEvent.save_clicked p).sent
          ≡ saves (record { name = ""; logo_url = none; settings = ("language", word "id") ∷ [] })
            ∷ p.sent)
      × ((respond SettingsEvent.format_save_clicked p).sent
          ≡ saves_formats default_format_settings ∷ p.sent)
unfolding respond load_ends can_happen handle_save handle_format_save first_settings_page
failed_load_saves_blanks m es f q =
    let h = respond_all-IsBlank es first_settings_page q (refl, refl, refl, refl, refl) in
    let p = respond (SettingsEvent.loaded (failure f)) (respond_all es first_settings_page) in
    (refl, refl, rw (blank-save_request p h) refl, rw h.4 refl)
