-- ===== src/SwaggerPage.antt =====
-- web/static/swagger-ui/swagger-init.js: the page of the API's documentation starts the bundle.
use secureshare.Prelude.{Bool, true, false, ◌&&◌, List, [], ◌∷◌, Option, none, some, if◌then◌else◌}
use secureshare.Text.{Text, lit, or_default}

pub data Preset : Type 0 where
  apis standalone : Preset

pub record BundleOptions : Type 0 where
  pub url : Text
  pub dom_id : Text
  pub deep_linking : Bool
  pub display_request_duration : Bool
  pub persist_authorization : Bool
  pub try_it_out_enabled : Bool
  pub validator_url : Option Text  -- `none` is null
  pub presets : List Preset
  pub layout : Text

pub record Target : Type 0 where
  pub openapi_url : Option Text  -- `dataset.openapiUrl`

-- What the listener finds when the page has loaded, and the calls of the bundle, the latest first.
pub record Page : Type 0 where
  pub target : Option Target
  pub has_bundle : Bool
  pub has_standalone_preset : Bool
  pub calls : List BundleOptions

unfoldable pub bundle_options : Target → BundleOptions
bundle_options t = record {
  url = or_default t.openapi_url (lit "/openapi.yaml");
  dom_id = lit "#swagger-ui";
  deep_linking = true;
  display_request_duration = true;
  persist_authorization = false;
  try_it_out_enabled = false;
  validator_url = none;
  presets = apis ∷ standalone ∷ [];
  layout = lit "StandaloneLayout";
}

-- The listener of `load`. Without the preset, which the second script of the page defines, the options
-- throw before the call.
unfoldable pub load : Page → Page
load p = elim p.target [
  | none ↦ p
  | some t ↦
      if p.has_bundle && p.has_standalone_preset
      then record p { calls = bundle_options t ∷ p.calls }
      else p
]
