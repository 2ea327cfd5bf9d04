-- ===== src/Tests/Seaweed.antt =====
-- A namespace of sync_seaweed.py, with a service that gives one key to everyone.
use kubefrog_kvmserver.SyncSeaweed.Retries.{Leaks, attempts, attempts-Leaks}
use kubefrog_kvmserver.SyncSeaweed.Cluster.{recording, keys}
use kubefrog_kvmserver.Python.Errors.{err, client_error}
use kubefrog_kvmserver.Prelude.{
  ℕ, suc, ◌+◌, length, String, ◌≡◌, ◌≢◌, refl, ap, true, false, List, [], ◌∷◌, ◌++◌, All, ◌==◌,
  string_eq,
}
use mathlib.Core.List.{Perm}
use kubefrog_kvmserver.Python.Errors.{ok}
use kubefrog_kvmserver.Python.Json.{Json, str, null}
use kubefrog_kvmserver.Python.Json.Literal.{dict}
use kubefrog_kvmserver.Python.Numeral.{codes}
use kubefrog_kvmserver.Python.Base64.{utf8, b64encode, digit}
use kubefrog_kvmserver.Python.Base64.Laws.{b64decode}
use kubefrog_kvmserver.Controller.Manifest.{minio_secret}
use kubefrog_kvmserver.Controller.Sync.{status, parent_name, parent_label, is_ready, group_has}
use kubefrog_kvmserver.Controller.Inventory.{child, text_of}
use kubefrog_kvmserver.SyncSeaweed.Sync.{
  Iam, World, note, configmaps, policy_resources, reply, sync, create_credentials,
}
use kubefrog_kvmserver.SyncSeaweed.Credentials.{create_credentials-decodes, sync-settles}
use kubefrog_kvmserver.SyncSeaweed.Isolation.{
  Matches, AnyOf, object_of, policy_resources_isolated, policy_resources_reach,
}
use kubefrog_kvmserver.Tests.Profile.{parent}

abbrev pub access_key : Json
access_key = dict (
    ("AccessKey", dict (("AccessKeyId", str "minio") ∷ ("SecretAccessKey", str "minio123") ∷ []))
    ∷ [])

-- It counts the keys that it has created.
abbrev pub service : Iam
service = record {
  State = ℕ;
  create_access_key = λ user n. (ok access_key, suc n);
  put_user_policy = λ user name document n. (ok (dict []), n);
}

abbrev pub repr : Json → String
repr v = "{}"

abbrev pub namespace : Json
namespace = str "team-a"

abbrev pub secret : Json
secret = minio_secret "bWluaW8=" "bWluaW8xMjM=" namespace

abbrev start : World service repr
start = record { printed = []; iam = 0 }

abbrev created : World service repr
created = record { printed = note "Creating new access key." ∷ []; iam = 1 }

start-create_credentials :
    create_credentials service repr namespace start
    ≡ (ok (secret ∷ configmaps namespace "team-a"), created)
unfolding create_credentials b64encode utf8 digit
start-create_credentials = refl

-- What is reported after the first call.
abbrev attachments : Json
attachments = dict (
    ("Secret.v1", dict (("team-a/mlpipeline-minio-artifact", secret) ∷ []))
    ∷ ("ConfigMap.v1", dict (("first", null) ∷ ("second", null) ∷ ("third", null) ∷ []))
    ∷ ("Deployment.apps/v1", dict [])
    ∷ ("Service.v1", dict [])
    ∷ ("DestinationRule.networking.istio.io/v1alpha3", dict [])
    ∷ ("AuthorizationPolicy.security.istio.io/v1beta1", dict [])
    ∷ [])

pub team-parent_name : parent_name parent ≡ ok namespace
unfolding parent_name
team-parent_name = refl

team-parent_label : parent_label parent ≡ ok (str "true")
unfolding parent_label
team-parent_label = refl

attachments-is_ready : is_ready attachments 3 ≡ ok false
unfolding is_ready group_has
attachments-is_ready = refl

sync-settles_example :
    (rs : List Json) × ((sync service repr parent attachments created).0
      ≡ ok (reply (status false) rs))
    × ((sync service repr parent attachments created).1.iam ≡ created.iam)
    × Perm rs (secret ∷ configmaps namespace "team-a")
sync-settles_example =
    sync-settles service repr namespace secret parent attachments false start created
      (configmaps namespace "team-a") start-create_credentials team-parent_name team-parent_label
      attachments-is_ready refl

create_credentials-decodes_example :
    (r : Json) × (secret ∷ configmaps namespace "team-a" ≡ r ∷ configmaps namespace "team-a")
    × (b64decode (codes (text_of (child (child r "data") "accesskey"))) ≡ utf8 "minio")
    × (b64decode (codes (text_of (child (child r "data") "secretkey"))) ≡ utf8 "minio123")
create_credentials-decodes_example =
    create_credentials-decodes service repr namespace start created
      (secret ∷ configmaps namespace "team-a") access_key "minio" "minio123"
      start-create_credentials refl refl refl

other_team : ◌≢◌ {A = String} "team-a" "team-b"
other_team e = let apart : true ≡ false = ap (λ t. t == "team-a") e in cc apart

policy_resources_isolated_example :
    All
      (λ pattern.
        (¬ Matches (codes pattern) (object_of "/private-artifacts/" "team-b" (codes "model")))
        × (¬ Matches (codes pattern) (object_of "/private/" "team-b" (codes "model"))))
      (policy_resources "team-a")
policy_resources_isolated_example =
    policy_resources_isolated "team-a" "team-b" (codes "model") refl refl refl other_team

policy_resources_reach_example :
    (AnyOf (policy_resources "team-a") (object_of "/private-artifacts/" "team-a" (codes "model")))
    × (AnyOf (policy_resources "team-a") (object_of "/private/" "team-a" (codes "model")))
    × (AnyOf
        (policy_resources "team-a")
        (codes "arn:aws:s3:::mlpipeline/artifacts/" ++ codes "model"))
    × (AnyOf (policy_resources "team-a") (codes "arn:aws:s3:::mlpipeline/shared/" ++ codes "model"))
policy_resources_reach_example = policy_resources_reach "team-a" (codes "model") refl

-- It refuses every policy.
abbrev strict : Iam
strict = record {
  State = ℕ;
  create_access_key = λ user n. (ok access_key, suc n);
  put_user_policy = λ user name document n. (err client_error, n);
}

abbrev before_refusal : World (recording strict) repr
before_refusal = record { printed = []; iam = (0, []) }

abbrev no_secret : Json
no_secret = dict (("Secret.v1", dict []) ∷ ("ConfigMap.v1", dict []) ∷ [])

no_secret-is_ready : is_ready no_secret 3 ≡ ok false
unfolding is_ready group_has
no_secret-is_ready = refl

attempts-Leaks_example :
    Leaks strict repr parent no_secret (attempts strict repr parent no_secret 3 before_refusal)
    × (length (keys strict repr (attempts strict repr parent no_secret 3 before_refusal)) ≡ 3 + 0)
attempts-Leaks_example =
    attempts-Leaks strict repr parent no_secret namespace null false team-parent_name
      team-parent_label no_secret-is_ready refl refl (λ state. (access_key, suc state, refl))
      (λ state. (client_error, state, refl)) 3 before_refusal
