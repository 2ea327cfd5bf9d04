-- ===== src/Tests/Issued.antt =====
-- A namespace in a cluster under sync_seaweed.py: the Secret of its first call has appeared.
use kubefrog_kvmserver.Prelude.{
  true, ◌≡◌, ◌≢◌, ◌++◌, refl, ap, false, List, [], ◌∷◌, ◌==◌, string_eq, if◌then◌else◌,
}
use kubefrog_kvmserver.Python.Errors.{Result, ok}
use kubefrog_kvmserver.Python.Json.{Json, Fields, null, obj, end, field}
use kubefrog_kvmserver.Python.Json.Literal.{dict}
use kubefrog_kvmserver.Python.Base64.{utf8, b64encode, digit}
use kubefrog_kvmserver.Controller.Sync.{status, parent_name, parent_label, is_ready, group_has}
use kubefrog_kvmserver.Controller.Inventory.{group_of}
use kubefrog_kvmserver.SyncSeaweed.Sync.{
  World, configmaps, reply, sync, sync_enabled, create_credentials, do_post,
}
use kubefrog_kvmserver.SyncSeaweed.Cluster.{
  recording, IsIssued, Cluster, SyncCalls, keys, Shows, Reach, start, later, call, appear,
}
use kubefrog_kvmserver.SyncSeaweed.Cluster.Wire.{
  WireCalls, Exchanges-IsIssued, Exchanges-never_ready,
}
use kubefrog_kvmserver.Python.Loads.{loads}
use kubefrog_kvmserver.Python.Loads.Plain.{is_plain}
use kubefrog_kvmserver.Controller.Http.{Response}
use kubefrog_kvmserver.Controller.Http.Posted.{posted}
use kubefrog_kvmserver.SyncSeaweed.Exchange.{question, do_post-delivers}
use kubefrog_kvmserver.Tests.Exchange.{undecoded, float_repr, parent-plain}
use kubefrog_kvmserver.Tests.Profile.{parent}
use kubefrog_kvmserver.Tests.Seaweed.{
  access_key, service, repr, namespace, secret, team-parent_name,
}

-- The Secrets, each under the key of the namespace's.
abbrev secrets : List Json → Fields
secrets [] = end
secrets (r ∷ rs) =
    let rest = secrets rs in
    if group_of r == "Secret.v1" then field "team-a/mlpipeline-minio-artifact" r rest else rest

abbrev observe : List Json → Json
observe rs = dict (
    ("Secret.v1", obj (secrets rs))
    ∷ ("ConfigMap.v1", dict [])
    ∷ ("Deployment.apps/v1", dict [])
    ∷ ("Service.v1", dict [])
    ∷ ("DestinationRule.networking.istio.io/v1alpha3", dict [])
    ∷ ("AuthorizationPolicy.security.istio.io/v1beta1", dict [])
    ∷ [])

-- A report of nothing shows no secret.
nothing-Shows : Shows service repr namespace (observe []) []
nothing-Shows secret h t = let same : null ≡ secret = cc in cc

-- No key has been created.
abbrev fresh : World (recording service) repr
fresh = record { printed = []; iam = (0, []) }

abbrev wanted : List Json
wanted = secret ∷ configmaps namespace "team-a"

abbrev answered : Result Json × World (recording service) repr
answered = sync (recording service) repr parent (observe []) fresh

first_sync : answered ≡ (ok (reply (status false) wanted), answered.1)
unfolding sync sync_enabled create_credentials parent_name parent_label is_ready group_has b64encode
    utf8 digit
first_sync = refl

-- One key has been created.
created_keys : keys service repr answered.1 ≡ access_key ∷ []
unfolding sync sync_enabled create_credentials parent_name parent_label is_ready group_has b64encode
    utf8 digit
created_keys = refl

-- The Secret has appeared.
abbrev appeared : Cluster service repr
appeared = record {
  parent = parent;
  attached = secret ∷ [];
  seen = secret ∷ [];
  asked = wanted;
  world = answered.1;
}

appeared-Reach : Reach service repr (SyncCalls service repr) namespace appeared
appeared-Reach =
    later
      (later (start parent fresh team-parent_name refl)
        (call _ (observe []) _ nothing-Shows first_sync))
      (appear _ [] _ secret refl)

nothing-plain : is_plain (observe []) ≡ true
unfolding is_plain
nothing-plain = refl

do_post-delivers_example :
    (response : Response) × (do_post
        (recording service)
        repr
        (loads undecoded float_repr)
        (posted (question parent (observe [])))
        fresh
      ≡ (ok response, answered.1))
    × (response.code ≡ 200)
    × (loads undecoded float_repr response.body ≡ ok (reply (status false) wanted))
do_post-delivers_example =
    do_post-delivers (recording service) repr undecoded float_repr parent (observe [])
      (reply (status false) wanted) fresh parent-plain nothing-plain (ap (λ o. o.0) first_sync)

-- The first call, over HTTP.
first_exchange :
    WireCalls service repr undecoded float_repr parent
      (observe [])
      fresh
      (ok (reply (status false) wanted), answered.1)
first_exchange =
    let (response, sent, code, read) =
      do_post-delivers (recording service) repr undecoded float_repr parent (observe [])
        (reply (status false) wanted) fresh parent-plain nothing-plain (ap (λ o. o.0) first_sync) in
    (parent-plain, nothing-plain, (response, sent, read))

appeared-wired : Reach service repr (WireCalls service repr undecoded float_repr) namespace appeared
appeared-wired =
    later
      (later (start parent fresh team-parent_name refl) (
        call _ (observe []) (ok (reply (status false) wanted), answered.1) nothing-Shows
          first_exchange))
      (appear _ [] _ secret refl)

Exchanges-IsIssued_example : IsIssued namespace (keys service repr answered.1) secret
Exchanges-IsIssued_example =
    Exchanges-IsIssued service repr undecoded float_repr namespace appeared [] [] secret
      appeared-wired refl refl

-- The call after that reports the Secret.
abbrev with_secret : Json
with_secret = observe (secret ∷ [])

abbrev listed : List Json
listed = configmaps namespace "team-a" ++ secret ∷ []

abbrev next : Result Json × World (recording service) repr
next = sync (recording service) repr parent with_secret answered.1

second_sync : next ≡ (ok (reply (status false) listed), next.1)
unfolding sync sync_enabled create_credentials parent_name parent_label is_ready group_has b64encode
    utf8 digit
second_sync = refl

with_secret-plain : is_plain with_secret ≡ true
unfolding is_plain
with_secret-plain = refl

second_exchange :
    WireCalls service repr undecoded float_repr parent with_secret answered.1
      (ok (reply (status false) listed), next.1)
second_exchange =
    let (response, sent, code, read) =
      do_post-delivers (recording service) repr undecoded float_repr parent with_secret
        (reply (status false) listed) answered.1 parent-plain with_secret-plain
        (ap (λ o. o.0) second_sync) in
    (parent-plain, with_secret-plain, (response, sent, read))

Exchanges-never_ready_example : status false ≢ status true
Exchanges-never_ready_example =
    Exchanges-never_ready service repr undecoded float_repr namespace with_secret
      (reply (status false) listed) appeared next.1 appeared-wired refl second_exchange
