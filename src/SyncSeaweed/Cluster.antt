-- ===== src/SyncSeaweed/Cluster.antt =====
-- A namespace in a cluster under sync_seaweed.py, with an IAM service whose access keys are recorded.
-- What metacontroller does is left open as in Family/Cluster.
pub mod Calls
pub mod Provenance
pub mod Status
pub mod Wire
use kubefrog_kvmserver.Prelude.{String, ◌≡◌, ◌≢◌, ◌⊎◌, true, List, [], ◌∷◌, ◌++◌}
use mathlib.Core.List.{Mem}
use kubefrog_kvmserver.Python.Errors.{Result, ok, err}
use kubefrog_kvmserver.Python.Json.{Json, truth}
use kubefrog_kvmserver.Python.Json.Literal.{elements}
use kubefrog_kvmserver.Controller.Manifest.{minio_secret}
use kubefrog_kvmserver.Controller.Sync.{parent_name}
use kubefrog_kvmserver.Controller.Inventory.{child, group_of}
use kubefrog_kvmserver.SyncSeaweed.Sync.{Iam, World, credential, sync}
use kubefrog_kvmserver.SyncSeaweed.Laws.{FindsSecret}

abbrev pub kept : Result Json → List Json → List Json
kept (ok key) keys = key ∷ keys
kept (err e) keys = keys

-- The same service, with the list of the keys that it has created.
abbrev pub recording : Iam → Iam
recording I = record {
  State = I.State × List Json;
  create_access_key = λ user (state, keys).
      let (r, after) = I.create_access_key user state in (r, (after, kept r keys));
  put_user_policy = λ user name document (state, keys).
      let (r, after) = I.put_user_policy user name document state in (r, (after, keys));
}

-- A Secret that was made of one of these keys.
abbrev pub IsIssued : Json → List Json → Json → Type 0
IsIssued namespace keys secret =
    (key : Json) × (access : String) × (hidden : String) × Mem key keys
    × (credential key "AccessKeyId" ≡ ok access)
    × (credential key "SecretAccessKey" ≡ ok hidden)
    × (secret ≡ minio_secret access hidden namespace)

-- A ConfigMap, or a Secret that was issued.
abbrev pub IsLegit : Json → List Json → Json → Type 0
IsLegit namespace keys o = (group_of o ≡ "ConfigMap.v1") ⊎ IsIssued namespace keys o

module _ (I : Iam) (repr : Json → String) where
  pub record Cluster : Type 0 where
    pub parent : Json
    pub attached : List Json
    -- Every object that was attached at some time.
    pub seen : List Json
    pub asked : List Json
    pub world : World (recording I) repr

  abbrev pub keys : World (recording I) repr → List Json
  keys w = w.iam.1

  -- What a call leaves to ask for: a call that raises leaves what was asked before.
  abbrev pub asked_after : Result Json → List Json → List Json
  asked_after (ok r) before = elements (child r "attachments")
  asked_after (err e) before = before

  -- A secret that the report shows was attached at some time: the report may be a stale one.
  abbrev pub Shows : Json → Json → List Json → Type 0
  Shows namespace report seen =
      (secret : Json)
      → FindsSecret repr report namespace secret
      → truth secret ≡ true
      → (front : List Json) × (back : List Json) × (seen ≡ front ++ secret ∷ back)

  -- What a call ends in, and the service after it.
  abbrev pub Outcome : Type 0
  Outcome = Result Json × World (recording I) repr

  -- A call of `sync` itself.
  abbrev pub SyncCalls : Json → Json → World (recording I) repr → Outcome → Type 0
  SyncCalls parent report w o = sync (recording I) repr parent report w ≡ o

module _ (I : Iam) (repr : Json → String)
    (Calls : Json → Json → World (recording I) repr → Outcome I repr → Type 0)
    (namespace : Json) where
  pub data Step : Cluster I repr → Cluster I repr → Type 0 where
    call :
        (c : Cluster I repr) (report : Json) (o : Outcome I repr)
        → Shows I repr namespace report c.seen
        → Calls c.parent report c.world o
        → Step c (record c { asked = asked_after I repr o.0 c.asked; world = o.1 })
    appear :
        (c : Cluster I repr) (front back : List Json) (o : Json)
        → c.asked ≡ front ++ o ∷ back
        → Step c (record c { attached = o ∷ c.attached; seen = o ∷ c.seen })
    vanish :
        (c : Cluster I repr) (front back : List Json) (o : Json)
        → c.attached ≡ front ++ o ∷ back
        → Step c (record c { attached = front ++ back })
    relabel :
        (c : Cluster I repr) (parent : Json)
        → parent_name parent ≡ ok namespace
        → Step c (record c { parent = parent })

  -- From a namespace without attachments, and a service that has created no keys.
  pub data Reach : Cluster I repr → Type 0 where
    start :
        (parent : Json) (w : World (recording I) repr)
        → parent_name parent ≡ ok namespace
        → keys I repr w ≡ []
        → Reach (record { parent = parent; attached = []; seen = []; asked = []; world = w })
    later : {c d : Cluster I repr} → Reach c → Step c d → Reach d
