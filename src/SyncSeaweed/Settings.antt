-- ===== src/SyncSeaweed/Settings.antt =====
-- `get_settings_from_env` and `main` of sync_seaweed.py.
use kubefrog_kvmserver.Prelude.{String, Bool, Option, none}
use kubefrog_kvmserver.Python.Errors.{Result, ok, ◌>>=◌, or_text}
use kubefrog_kvmserver.Python.Numeral.{ℤ, int}
use kubefrog_kvmserver.Controller.Settings.{Env, environ, environ_get, or_flag}

pub record Overrides : Type 0 where
  pub controller_port : Option String
  pub visualization_server_image : Option String
  pub frontend_image : Option String
  pub visualization_server_tag : Option String
  pub frontend_tag : Option String
  pub disable_istio_sidecar : Option Bool

abbrev pub no_overrides : Overrides
no_overrides = record {
  controller_port = none;
  visualization_server_image = none;
  frontend_image = none;
  visualization_server_tag = none;
  frontend_tag = none;
  disable_istio_sidecar = none;
}

pub record Settings : Type 0 where
  pub controller_port : String
  pub visualization_server_image : String
  pub frontend_image : String
  pub visualization_server_tag : String
  pub frontend_tag : String
  pub disable_istio_sidecar : Bool

unfoldable pub get_settings_from_env : Env → Overrides → Result Settings
get_settings_from_env env o = do
  port ← or_text o.controller_port (ok (environ_get env "CONTROLLER_PORT" "8080"))
  visualization_image ← or_text o.visualization_server_image (
      ok (environ_get env "VISUALIZATION_SERVER_IMAGE" "ghcr.io/kubeflow/kfp-visualization-server"))
  frontend ←
      or_text o.frontend_image
        (ok (environ_get env "FRONTEND_IMAGE" "ghcr.io/kubeflow/kfp-frontend"))
  visualization_tag ←
      or_text o.visualization_server_tag
        (or_text (env "VISUALIZATION_SERVER_TAG") (environ env "KFP_VERSION"))
  tag ← or_text o.frontend_tag (or_text (env "FRONTEND_TAG") (environ env "KFP_VERSION"))
  ok (record {
    controller_port = port;
    visualization_server_image = visualization_image;
    frontend_image = frontend;
    visualization_server_tag = visualization_tag;
    frontend_tag = tag;
    disable_istio_sidecar = or_flag o.disable_istio_sidecar (env "DISABLE_ISTIO_SIDECAR");
  })

pub record Server : Type 0 where
  pub url : String
  pub port : ℤ
  pub settings : Settings

unfoldable pub server_factory : Settings → Result Server
server_factory s = do
  port ← int s.controller_port
  ok (record { url = ""; port = port; settings = s })

-- `main` up to the server that it starts.
unfoldable pub main : Env → Result Server
unfolding get_settings_from_env server_factory
main env = do settings ← get_settings_from_env env no_overrides; server_factory settings
