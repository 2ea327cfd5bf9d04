-- ===== src/Controller/Settings/Precedence.antt =====
-- Which source each setting comes from.
use kubefrog_kvmserver.Prelude.{
  String, ◌≡◌, refl, sym, ◌∙◌, ◌↔◌, ◌⊎◌, Bool, true, false, Option, none, some, List, [], ◌∷◌,
  arith, ◌==◌, string_eq, eq_iff, if◌then◌else◌,
}
use kubefrog_kvmserver.Python.Errors.{Result, ok, err, ◌>>=◌, or_text}
use kubefrog_kvmserver.Python.Base64.{utf8, b64encode}
use kubefrog_kvmserver.Controller.Settings.{
  Env, Overrides, Settings, Defaults, environ, environ_get, environ_b64, or_flag, or_found,
  assemble, get_settings, Server,
}

-- The first of the sources that is set to a text other than the empty one; if there is none, the
-- last resort as it is.
abbrev pub pick : List (Option String) → Option String → Option String
pick [] last = last
pick (none ∷ sources) last = pick sources last
pick (some s ∷ sources) last = let rest = pick sources last in if s == "" then rest else some s

abbrev pub or_default : Option String → String → String
or_default none d = d
or_default (some s) d = s

abbrev pub encoded : Option String → Option String
encoded none = none
encoded (some s) = some (b64encode (utf8 s))

-- The settings that the sources determine, by precedence.
pub record IsChosen (d : Defaults) (env : Env) (o : Overrides) (s : Settings) : Type 0 where
  pub port :
      pick (o.controller_port ∷ []) (some (or_default (env "CONTROLLER_PORT") "8080"))
      ≡ some s.controller_port
  pub visualization_image :
      pick
        (o.visualization_server_image ∷ [])
        (some (or_default (env "VISUALIZATION_SERVER_IMAGE") d.visualization_server_image))
      ≡ some s.visualization_server_image
  pub frontend :
      pick (o.frontend_image ∷ []) (some (or_default (env "FRONTEND_IMAGE") d.frontend_image))
      ≡ some s.frontend_image
  pub visualization_tag :
      pick (o.visualization_server_tag ∷ env "VISUALIZATION_SERVER_TAG" ∷ []) (env "KFP_VERSION")
      ≡ some s.visualization_server_tag
  pub tag :
      pick (o.frontend_tag ∷ env "FRONTEND_TAG" ∷ []) (env "KFP_VERSION") ≡ some s.frontend_tag
  pub sidecar : (s.disable_istio_sidecar ≡ true) ↔ (
      (o.disable_istio_sidecar ≡ some true)
      ⊎ (o.disable_istio_sidecar ≡ none) × (env "DISABLE_ISTIO_SIDECAR" ≡ some "true"))
  pub access_key :
      pick (o.minio_access_key ∷ []) (encoded (env "MINIO_ACCESS_KEY")) ≡ some s.minio_access_key
  pub secret_key :
      pick (o.minio_secret_key ∷ []) (encoded (env "MINIO_SECRET_KEY")) ≡ some s.minio_secret_key
  pub root :
      pick (o.kfp_default_pipeline_root ∷ []) (env "KFP_DEFAULT_PIPELINE_ROOT")
      ≡ s.kfp_default_pipeline_root

abbrev to_option : Result String → Option String
to_option (ok s) = some s
to_option (err e) = none

-- The entries of assembled settings.
record Entries (p vi fi vt ft : Result String) (b : Bool) (ak sk : Result String)
    (root : Option String) (s : Settings) : Type 0 where
  port : p ≡ ok s.controller_port
  visualization_image : vi ≡ ok s.visualization_server_image
  frontend : fi ≡ ok s.frontend_image
  visualization_tag : vt ≡ ok s.visualization_server_tag
  tag : ft ≡ ok s.frontend_tag
  disabled : b ≡ s.disable_istio_sidecar
  access_key : ak ≡ ok s.minio_access_key
  secret_key : sk ≡ ok s.minio_secret_key
  pipeline_root : root ≡ s.kfp_default_pipeline_root

assemble-ok :
    (p vi fi vt ft : Result String) (b : Bool) (ak sk : Result String) (root : Option String)
    (s : Settings)
    → assemble p vi fi vt ft b ak sk root ≡ ok s
    → Entries p vi fi vt ft b ak sk root s
unfolding assemble
assemble-ok p vi fi vt ft b ak sk root s h = ground arith

assemble-Entries :
    (p vi fi vt ft : Result String) (b : Bool) (ak sk : Result String) (root : Option String)
    (s : Settings)
    → Entries p vi fi vt ft b ak sk root s
    → assemble p vi fi vt ft b ak sk root ≡ ok s
unfolding assemble
assemble-Entries p vi fi vt ft b ak sk root s h = ground arith

or_text-pick :
    (a : Option String) (r : Result String) (x : String)
    → (or_text a r ≡ ok x) ↔ (pick (a ∷ []) (to_option r) ≡ some x)
or_text-pick a r x = ground arith

to_option-environ : (env : Env) (k : String) → to_option (environ env k) ≡ env k
to_option-environ env k = ground arith

or_text-pick₂ :
    (a b : Option String) (env : Env) (k x : String)
    → (or_text a (or_text b (environ env k)) ≡ ok x) ↔ (pick (a ∷ b ∷ []) (env k) ≡ some x)
or_text-pick₂ a b env k x = ground arith

to_option-environ_b64 : (env : Env) (k : String) → to_option (environ_b64 env k) ≡ encoded (env k)
to_option-environ_b64 env k = ground arith

or_text-pick_b64 :
    (a : Option String) (env : Env) (k x : String)
    → (or_text a (environ_b64 env k) ≡ ok x) ↔ (pick (a ∷ []) (encoded (env k)) ≡ some x)
or_text-pick_b64 a env k x = rw to_option-environ_b64 at (or_text-pick a (environ_b64 env k) x)

or_text-pick_default :
    (a : Option String) (env : Env) (k d x : String)
    → (or_text a (ok (environ_get env k d)) ≡ ok x)
      ↔ (pick (a ∷ []) (some (or_default (env k) d)) ≡ some x)
or_text-pick_default a env k d x = ground arith

or_found-pick : (root found : Option String) → or_found root found ≡ pick (root ∷ []) found
or_found-pick root found = ground arith

or_flag_iff :
    (flag : Option Bool) (found : Option String)
    → (or_flag flag found ≡ true) ↔ ((flag ≡ some true) ⊎ (flag ≡ none) × (found ≡ some "true"))
or_flag_iff (some b) found = ground arith
or_flag_iff none none = ground arith
or_flag_iff none (some s) = ground (arith, eq_iff s "true")

Bool-eq : {P : Type 0} (a b : Bool) → (a ≡ true) ↔ P → (b ≡ true) ↔ P → a ≡ b
Bool-eq true b p q = sym (q.1 (p.0 refl))
Bool-eq false true p q = p.1 (q.0 refl)
Bool-eq false false p q = refl

-- `get_settings_from_env` returns exactly the chosen settings: each text from the first of its
-- sources (the argument, the variables, the default) that is set and not empty, or from the last one
-- as it is; the sidecar flag from its argument, or else from the comparison of the variable with "true",
-- so that it is false without both. It returns none if a tag or a credential has no source.
pub get_settings_iff :
    (d : Defaults) (env : Env) (o : Overrides) (s : Settings)
    → (get_settings d env o ≡ ok s) ↔ IsChosen d env o s
unfolding get_settings
get_settings_iff d env o s = (
  λ h.
      let e = assemble-ok _ _ _ _ _ _ _ _ _ s h in
      record {
        port = (or_text-pick_default o.controller_port env "CONTROLLER_PORT" "8080" _).0 e.port;
        visualization_image =
            (or_text-pick_default o.visualization_server_image env "VISUALIZATION_SERVER_IMAGE"
                d.visualization_server_image _).0
              e.visualization_image;
        frontend =
            (or_text-pick_default o.frontend_image env "FRONTEND_IMAGE" d.frontend_image _).0
              e.frontend;
        visualization_tag =
            (or_text-pick₂ o.visualization_server_tag (env "VISUALIZATION_SERVER_TAG") env
                "KFP_VERSION" _).0
              e.visualization_tag;
        tag = (or_text-pick₂ o.frontend_tag (env "FRONTEND_TAG") env "KFP_VERSION" _).0 e.tag;
        sidecar =
            rw e.disabled at (or_flag_iff o.disable_istio_sidecar (env "DISABLE_ISTIO_SIDECAR"));
        access_key = (or_text-pick_b64 o.minio_access_key env "MINIO_ACCESS_KEY" _).0 e.access_key;
        secret_key = (or_text-pick_b64 o.minio_secret_key env "MINIO_SECRET_KEY" _).0 e.secret_key;
        root = sym (or_found-pick o.kfp_default_pipeline_root _) ∙ e.pipeline_root;
      },
  λ c. assemble-Entries _ _ _ _ _ _ _ _ _ s (record {
    port = (or_text-pick_default o.controller_port env "CONTROLLER_PORT" "8080" _).1 c.port;
    visualization_image =
        (or_text-pick_default o.visualization_server_image env "VISUALIZATION_SERVER_IMAGE"
            d.visualization_server_image _).1
          c.visualization_image;
    frontend =
        (or_text-pick_default o.frontend_image env "FRONTEND_IMAGE" d.frontend_image _).1
          c.frontend;
    visualization_tag =
        (or_text-pick₂ o.visualization_server_tag (env "VISUALIZATION_SERVER_TAG") env "KFP_VERSION"
            _).1
          c.visualization_tag;
    tag = (or_text-pick₂ o.frontend_tag (env "FRONTEND_TAG") env "KFP_VERSION" _).1 c.tag;
    disabled =
        Bool-eq _ _ (or_flag_iff o.disable_istio_sidecar (env "DISABLE_ISTIO_SIDECAR")) c.sidecar;
    access_key = (or_text-pick_b64 o.minio_access_key env "MINIO_ACCESS_KEY" _).1 c.access_key;
    secret_key = (or_text-pick_b64 o.minio_secret_key env "MINIO_SECRET_KEY" _).1 c.secret_key;
    pipeline_root = or_found-pick o.kfp_default_pipeline_root _ ∙ c.root;
  }),
)

assemble_again :
    (p vi fi vt ft : Result String) (b : Bool) (ak sk : Result String) (root root' : Option String)
    (f : Settings → Result Server)
    → (assemble p vi fi vt ft b ak sk root >>= λ dropped.
        assemble p vi fi vt ft b ak sk root' >>= f)
      ≡ (assemble p vi fi vt ft b ak sk root' >>= f)
unfolding assemble
assemble_again p vi fi vt ft b ak sk root root' f = ground arith

-- To read the settings first with another pipeline root has no effect.
pub get_settings_again :
    (d : Defaults) (env : Env) (o : Overrides) (root : Option String) (f : Settings → Result Server)
    → (get_settings d env o >>= λ dropped.
        get_settings d env (record o { kfp_default_pipeline_root = root }) >>= f)
      ≡ (get_settings d env (record o { kfp_default_pipeline_root = root }) >>= f)
unfolding get_settings
get_settings_again d env o root f = assemble_again _ _ _ _ _ _ _ _ _ _ f

-- Where the settings can be read, they can be read with a tag and an image given.
pub get_settings-with_image :
    (d : Defaults) (env : Env) (o : Overrides) (s : Settings) (tag image : String)
    → (tag == "") ≡ false
    → (image == "") ≡ false
    → get_settings d env o ≡ ok s
    → get_settings d env
        (record o { visualization_server_tag = some tag; visualization_server_image = some image })
      ≡ ok (record s { visualization_server_tag = tag; visualization_server_image = image })
unfolding get_settings
get_settings-with_image d env o s tag image ht hi h =
    let e = assemble-ok _ _ _ _ _ _ _ _ _ s h in
    assemble-Entries _ _ _ _ _ _ _ _ _ _ (record {
      port = e.port;
      visualization_image = rw hi refl;
      frontend = e.frontend;
      visualization_tag = rw ht refl;
      tag = e.tag;
      disabled = e.disabled;
      access_key = e.access_key;
      secret_key = e.secret_key;
      pipeline_root = e.pipeline_root;
    })
