-- ===== src/Controller/Settings.antt =====
-- `get_settings_from_env` and `server_factory`'s arguments.
pub mod Precedence
use kubefrog_kvmserver.Prelude.{String, Bool, false, Option, none, some, ◌==◌, string_eq}
use kubefrog_kvmserver.Python.Errors.{
  Result, ok, err, ◌>>=◌, key_error, type_error, or_text, truthy,
}
use kubefrog_kvmserver.Prelude.{if◌then◌else◌}
use kubefrog_kvmserver.Python.Base64.{utf8, b64encode}
use kubefrog_kvmserver.Python.Numeral.{ℤ, int}

-- `os.environ`
abbrev pub Env : Type 0
Env = String → Option String

-- The arguments of `get_settings_from_env`, each `None` by default.
pub record Overrides : Type 0 where
  pub controller_port : Option String
  pub visualization_server_image : Option String
  pub frontend_image : Option String
  pub visualization_server_tag : Option String
  pub frontend_tag : Option String
  pub disable_istio_sidecar : Option Bool
  pub minio_access_key : Option String
  pub minio_secret_key : Option String
  pub kfp_default_pipeline_root : Option String

abbrev pub no_overrides : Overrides
no_overrides = record {
  controller_port = none;
  visualization_server_image = none;
  frontend_image = none;
  visualization_server_tag = none;
  frontend_tag = none;
  disable_istio_sidecar = none;
  minio_access_key = none;
  minio_secret_key = none;
  kfp_default_pipeline_root = none;
}

-- The dict that `get_settings_from_env` returns and `server_factory` takes.
pub record Settings : Type 0 where
  pub controller_port : String
  pub visualization_server_image : String
  pub frontend_image : String
  pub visualization_server_tag : String
  pub frontend_tag : String
  pub disable_istio_sidecar : Bool
  pub minio_access_key : String
  pub minio_secret_key : String
  pub kfp_default_pipeline_root : Option String

-- The image names that the files differ in.
pub record Defaults : Type 0 where
  pub visualization_server_image : String
  pub frontend_image : String

-- `os.environ.get(name, default)`
abbrev pub environ_get : Env → String → String → String
environ_get env name default = elim (env name) [ none ↦ default | some s ↦ s ]

-- `os.environ[name]`
abbrev pub environ : Env → String → Result String
environ env name = elim (env name) [ none ↦ err (key_error name) | some s ↦ ok s ]

-- `base64.b64encode(bytes(os.environ.get(name), 'utf-8')).decode('utf-8')`: `bytes(None, 'utf-8')`
-- raises a `TypeError`.
abbrev pub environ_b64 : Env → String → Result String
environ_b64 env name = elim (env name) [ none ↦ err type_error | some s ↦ ok (b64encode (utf8 s)) ]

-- `os.environ.get(name) == "true"`
abbrev pub is_true : Option String → Bool
is_true none = false
is_true (some s) = s == "true"

-- `flag if flag is not None else os.environ.get(name) == "true"`
abbrev pub or_flag : Option Bool → Option String → Bool
or_flag (some b) found = b
or_flag none found = is_true found

-- `root or os.environ.get(name)`
abbrev pub or_found : Option String → Option String → Option String
or_found root found = if truthy root then root else found

-- The entries of the dict, evaluated in this order: the first that raises ends the call.
unfoldable pub assemble :
    Result String
    → Result String
    → Result String
    → Result String
    → Result String
    → Bool
    → Result String
    → Result String
    → Option String
    → Result Settings
assemble port visualization_image frontend visualization_tag tag disabled access_key secret_key
      root =
    do
      controller_port ← port
      visualization_server_image ← visualization_image
      frontend_image ← frontend
      visualization_server_tag ← visualization_tag
      frontend_tag ← tag
      minio_access_key ← access_key
      minio_secret_key ← secret_key
      ok (record {
        controller_port = controller_port;
        visualization_server_image = visualization_server_image;
        frontend_image = frontend_image;
        visualization_server_tag = visualization_server_tag;
        frontend_tag = frontend_tag;
        disable_istio_sidecar = disabled;
        minio_access_key = minio_access_key;
        minio_secret_key = minio_secret_key;
        kfp_default_pipeline_root = root;
      })

unfoldable pub get_settings : Defaults → Env → Overrides → Result Settings
get_settings d env o =
    assemble (or_text o.controller_port (ok (environ_get env "CONTROLLER_PORT" "8080")))
      (or_text o.visualization_server_image
        (ok (environ_get env "VISUALIZATION_SERVER_IMAGE" d.visualization_server_image)))
      (or_text o.frontend_image (ok (environ_get env "FRONTEND_IMAGE" d.frontend_image)))
      (or_text o.visualization_server_tag
        (or_text (env "VISUALIZATION_SERVER_TAG") (environ env "KFP_VERSION")))
      (or_text o.frontend_tag (or_text (env "FRONTEND_TAG") (environ env "KFP_VERSION")))
      (or_flag o.disable_istio_sidecar (env "DISABLE_ISTIO_SIDECAR"))
      (or_text o.minio_access_key (environ_b64 env "MINIO_ACCESS_KEY"))
      (or_text o.minio_secret_key (environ_b64 env "MINIO_SECRET_KEY"))
      (or_found o.kfp_default_pipeline_root (env "KFP_DEFAULT_PIPELINE_ROOT"))

-- What `HTTPServer((url, int(controller_port)), Controller)` is built from.
pub record Server : Type 0 where
  pub url : String
  pub port : ℤ
  pub settings : Settings

unfoldable pub server_factory : Settings → Result Server
server_factory s = do
  port ← int s.controller_port
  ok (record { url = ""; port = port; settings = s })
