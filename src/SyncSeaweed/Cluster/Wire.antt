-- ===== src/SyncSeaweed/Cluster/Wire.antt =====
-- The cluster when the calls of sync_seaweed.py are exchanges of JSON with `do_POST`.
use kubefrog_kvmserver.Prelude.{ℕ, String, ◌≡◌, ◌≢◌, ap, true, List, ◌∷◌, ◌++◌}
use kubefrog_kvmserver.Python.Errors.{Result, ok, err, ◌>>=◌}
use kubefrog_kvmserver.Python.Json.{Json, index, len}
use kubefrog_kvmserver.Python.Loads.{loads}
use kubefrog_kvmserver.Python.Loads.Bytes.{Encoding}
use kubefrog_kvmserver.Python.Loads.Plain.{is_plain}
use kubefrog_kvmserver.Controller.Http.{Response}
use kubefrog_kvmserver.Controller.Http.Posted.{posted}
use kubefrog_kvmserver.Controller.Inventory.{child, group_of, count_group}
use kubefrog_kvmserver.Controller.Sync.{status}
use kubefrog_kvmserver.SyncSeaweed.Sync.{Iam, World, do_post}
use kubefrog_kvmserver.SyncSeaweed.Exchange.{question, do_post-returned, do_post-raised}
use kubefrog_kvmserver.SyncSeaweed.Cluster.{
  recording, IsIssued, Cluster, Outcome, SyncCalls, keys, Step, call, appear, vanish, relabel,
  Reach, start, later,
}
use kubefrog_kvmserver.SyncSeaweed.Cluster.Provenance.{Reach-IsIssued}
use kubefrog_kvmserver.SyncSeaweed.Cluster.Status.{Reach-never_ready}

-- Fewer calls reach fewer states.
module _ (I : Iam) (repr : Json → String)
    (Calls More : Json → Json → World (recording I) repr → Outcome I repr → Type 0)
    (namespace : Json)
    (more : (parent report : Json) (w : World (recording I) repr) (o : Outcome I repr)
      → Calls parent report w o
      → More parent report w o) where
  Step-mono :
      {c d : Cluster I repr} → Step I repr Calls namespace c d → Step I repr More namespace c d
  Step-mono (call c report o shows called) =
      call c report o shows (more c.parent report c.world o called)
  Step-mono (appear c front back o e) = appear c front back o e
  Step-mono (vanish c front back o e) = vanish c front back o e
  Step-mono (relabel c parent named) = relabel c parent named

  Reach-mono : {c : Cluster I repr} → Reach I repr Calls namespace c → Reach I repr More namespace c
  Reach-mono (start parent w named fresh) = start parent w named fresh
  Reach-mono (later r step) = later (Reach-mono r) (Step-mono step)

module _ (I : Iam) (repr : Json → String) (other : Encoding → List ℕ → Result (List ℕ))
    (float_repr : List ℕ → String) where
  -- A caller posts the JSON of the namespace and the report, and reads this in the response; or the
  -- handler raises.
  abbrev pub Exchanges : Json → Json → World (recording I) repr → Outcome I repr → Type 0
  Exchanges parent report w (ok r, after) =
      (response : Response) × (do_post (recording I) repr (loads other float_repr)
          (posted (question parent report)) w
        ≡ (ok response, after))
      × (loads other float_repr response.body ≡ ok r)
  Exchanges parent report w (err e, after) =
      do_post (recording I) repr (loads other float_repr) (posted (question parent report)) w
      ≡ (err e, after)

  -- The calls over HTTP with what JSON can carry, without floats.
  abbrev pub WireCalls : Json → Json → World (recording I) repr → Outcome I repr → Type 0
  WireCalls parent report w o =
      (is_plain parent ≡ true) × (is_plain report ≡ true) × Exchanges parent report w o

  WireCalls-SyncCalls :
      (parent report : Json) (w : World (recording I) repr) (o : Outcome I repr)
      → WireCalls parent report w o
      → SyncCalls I repr parent report w o
  WireCalls-SyncCalls parent report w (ok r, after) (po, pa, (response, sent, read)) =
      do_post-returned (recording I) repr other float_repr parent report r w after response po pa
        sent read
  WireCalls-SyncCalls parent report w (err e, after) (po, pa, raised) =
      do_post-raised (recording I) repr other float_repr parent report e w after po pa raised

  -- When the calls are exchanges over HTTP of what JSON can carry, without floats and with distinct keys,
  -- also such that raise: in every state that is reached from a namespace without attachments and a
  -- service that has created no keys, with reports, also stale ones, that show no secret that was never
  -- attached, every attached Secret was made, by `credential` and `minio_secret`, of a key that the
  -- service created in this run.
  pub Exchanges-IsIssued :
      (namespace : Json) (c : Cluster I repr) (front back : List Json) (o : Json)
      → Reach I repr WireCalls namespace c
      → c.attached ≡ front ++ o ∷ back
      → group_of o ≡ "Secret.v1"
      → IsIssued namespace (keys I repr c.world) o
  Exchanges-IsIssued namespace c front back o reach =
      Reach-IsIssued I repr namespace c front back o
        (Reach-mono I repr WireCalls (SyncCalls I repr) namespace WireCalls-SyncCalls reach)

  -- When the calls are exchanges over HTTP of what JSON can carry, without floats and with distinct keys:
  -- in every state that is reached from a namespace without attachments and a service that has created
  -- no keys, with reports that show no secret that was never attached, and for a posted report that
  -- shows as many Deployments as are attached, the status that a caller reads is not "True".
  pub Exchanges-never_ready :
      (namespace report r : Json) (c : Cluster I repr) (after : World (recording I) repr)
      → Reach I repr WireCalls namespace c
      → (index report "Deployment.apps/v1" >>= len)
        ≡ ok (count_group "Deployment.apps/v1" c.attached)
      → WireCalls c.parent report c.world (ok r, after)
      → child r "status" ≢ status true
  Exchanges-never_ready namespace report r c after reach shown called =
      Reach-never_ready I repr namespace report r c
        (Reach-mono I repr WireCalls (SyncCalls I repr) namespace WireCalls-SyncCalls reach) shown
        (ap (λ o. o.0) (WireCalls-SyncCalls c.parent report c.world (ok r, after) called))
