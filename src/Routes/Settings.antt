-- ===== src/Routes/Settings.antt =====
-- The routes for settings, meilisearch-http/src/routes/settings/mod.rs.
use transplant.Base.{◌≡◌, refl, true, false, Option, none, some, List, [], String}
use transplant.Heed.Keys.{Text}
use transplant.Index as One
use transplant.Index.{cleared}
use transplant.Index.Updates.{configure}
use transplant.IndexController.{Call, Status}
use transplant.Data as Serving
use transplant.Routes.{Crates, world, Route, answer, ok_json, accepted}

-- `Settings::default()`.
unfoldable pub default_settings : One.Settings
default_settings = record {
  displayed_attributes = none;
  searchable_attributes = none;
  attributes_for_faceting = none;
  ranking_rules = none;
}

-- What `make_setting_route!` is given: the settings with only the attribute, and the attribute of
-- the settings.
pub record Setting (A : Type 0) : Type 0 where
  pub only : Option (Option A) → One.Settings
  pub attr : One.Settings → Option (Option A)

unfoldable pub attributes_for_faceting : Setting (List (String × String))
unfolding default_settings
attributes_for_faceting = record {
  only = λ v. record default_settings { attributes_for_faceting = v };
  attr = λ s. s.attributes_for_faceting;
}

unfoldable pub displayed_attributes : Setting (List String)
unfolding default_settings
displayed_attributes = record {
  only = λ v. record default_settings { displayed_attributes = v };
  attr = λ s. s.displayed_attributes;
}

unfoldable pub searchable_attributes : Setting (List String)
unfolding default_settings
searchable_attributes = record {
  only = λ v. record default_settings { searchable_attributes = v };
  attr = λ s. s.searchable_attributes;
}

module _ (crates : Crates) {ResponseError : Type 0} where
  module _ {A : Type 0} (setting : Setting A) where
    unfoldable pub delete : Call → Text → Route crates ResponseError (Status (world crates))
    delete c index_uid =
        answer crates ok_json
          (Serving.update_settings (world crates) c index_uid (setting.only (some none)) false)

    unfoldable pub update :
        Call → Text → Option A → Route crates ResponseError (Status (world crates))
    update c index_uid body =
        answer crates ok_json
          (Serving.update_settings (world crates) c index_uid (setting.only (some body)) true)

    unfoldable pub get : Call → Text → Route crates ResponseError (Option (Option A))
    get c index_uid =
        answer crates (λ s. ok_json (setting.attr s)) (Serving.settings (world crates) c index_uid)

  unfoldable pub update_all :
      Call → Text → One.Settings → Route crates ResponseError (Status (world crates))
  update_all c index_uid body =
      answer crates accepted (Serving.update_settings (world crates) c index_uid body true)

  unfoldable pub get_all : Call → Text → Route crates ResponseError One.Settings
  get_all c index_uid = answer crates ok_json (Serving.settings (world crates) c index_uid)

  unfoldable pub delete_all : Call → Text → Route crates ResponseError (Status (world crates))
  delete_all c index_uid =
      answer crates accepted (Serving.update_settings (world crates) c index_uid cleared false)

module _ (crates : Crates) where
  open crates.updating use {
    SettingsBuilder, set_displayed_fields, reset_displayed_fields, set_searchable_fields,
    reset_searchable_fields, set_faceted_fields, reset_criteria,
  }

  -- What the engine's builder is told for each route that changes one setting: that setting is set, or
  -- reset where the body is null and on deletion, and no other is; the faceted attributes are reset to none
  -- at all. The deletion of all the settings resets the four of them.
  pub configure-routes :
      (b : SettingsBuilder)
      → let told = configure crates.milli crates.updating in
        ((l : List String)
          → told (displayed_attributes.only (some (some l))) b ≡ set_displayed_fields l b)
        × (told (displayed_attributes.only (some none)) b ≡ reset_displayed_fields b)
        × ((l : List String)
            → told (searchable_attributes.only (some (some l))) b ≡ set_searchable_fields l b)
        × (told (searchable_attributes.only (some none)) b ≡ reset_searchable_fields b)
        × ((l : List (String × String))
            → told (attributes_for_faceting.only (some (some l))) b ≡ set_faceted_fields l b)
        × (told (attributes_for_faceting.only (some none)) b ≡ set_faceted_fields [] b)
        × (told cleared b
            ≡ reset_criteria
                (set_faceted_fields [] (reset_displayed_fields (reset_searchable_fields b))))
  unfolding configure displayed_attributes searchable_attributes attributes_for_faceting
      default_settings cleared
  configure-routes b = (λ l. refl, refl, λ l. refl, refl, λ l. refl, refl, refl)
