-- ===== src/SyncSeaweed/Cluster/Provenance.antt =====
-- Where the credentials that are attached in a namespace come from.
use kubefrog_kvmserver.Prelude.{All-item, All-without, String, ◌≡◌, inl, inr, List, ◌∷◌, ◌++◌}
use kubefrog_kvmserver.Python.Errors.{Result, ok, err}
use kubefrog_kvmserver.Python.Json.{Json}
use kubefrog_kvmserver.Controller.Sync.{parent_name}
use kubefrog_kvmserver.Controller.Inventory.{group_of}
use kubefrog_kvmserver.SyncSeaweed.Sync.{Iam, World}
use kubefrog_kvmserver.SyncSeaweed.Cluster.{
  recording, IsIssued, IsLegit, Cluster, SyncCalls, keys, asked_after, Step, call, appear, vanish,
  relabel, Reach, start, later,
}
use kubefrog_kvmserver.SyncSeaweed.Cluster.Calls.{Legit, Legit-Grows, Sound, sync-Sound}

module _ (I : Iam) (repr : Json → String) (namespace : Json) where
  abbrev AllLegit : Cluster I repr → List Json → Type 0
  AllLegit c rs = Legit namespace (keys I repr c.world) rs

  -- Everything attached, now or before, and everything asked for, is legitimate.
  record Inv (c : Cluster I repr) : Type 0 where
    named : parent_name c.parent ≡ ok namespace
    attached : AllLegit c c.attached
    seen : AllLegit c c.seen
    asked : AllLegit c c.asked

  called :
      (c : Cluster I repr) (r : Result Json) (w : World (recording I) repr)
      → Inv c
      → Sound I repr namespace (λ r. asked_after I repr (ok r) c.asked) (keys I repr c.world) (r, w)
      → Inv (record c { asked = asked_after I repr r c.asked; world = w })
  called c (ok r) w v (g, h) =
      let later_keys = Legit-Grows namespace (keys I repr c.world) (keys I repr w) in
      record {
        named = v.named;
        attached = later_keys c.attached g v.attached;
        seen = later_keys c.seen g v.seen;
        asked = h;
      }
  called c (err e) w v g =
      let later_keys = Legit-Grows namespace (keys I repr c.world) (keys I repr w) in
      record {
        named = v.named;
        attached = later_keys c.attached g v.attached;
        seen = later_keys c.seen g v.seen;
        asked = later_keys c.asked g v.asked;
      }

  Step-Inv : {c d : Cluster I repr} → Step I repr (SyncCalls I repr) namespace c d → Inv c → Inv d
  Step-Inv (call c report (r, w) shows e) v =
      let legit = IsLegit namespace (keys I repr c.world) in
      called c r w v (
        rw e at (
          sync-Sound I repr namespace c.parent report c.world v.named (λ secret finds ht.
            let (front, back, es) = shows secret finds ht in
            All-item legit front back secret (rw es at v.seen))))
  Step-Inv (appear c front back o e) v =
      let legit =
        All-item (IsLegit namespace (keys I repr c.world)) front back o (rw e at v.asked) in
      record {
        named = v.named;
        attached = (legit, v.attached);
        seen = (legit, v.seen);
        asked = v.asked;
      }
  Step-Inv (vanish c front back o e) v = record {
    named = v.named;
    attached =
        All-without (IsLegit namespace (keys I repr c.world)) front back o (rw e at v.attached);
    seen = v.seen;
    asked = v.asked;
  }
  Step-Inv (relabel c parent h) v = record {
    named = h;
    attached = v.attached;
    seen = v.seen;
    asked = v.asked;
  }

  Reach-Inv : {c : Cluster I repr} → Reach I repr (SyncCalls I repr) namespace c → Inv c
  Reach-Inv (start parent w h e) = record { named = h; attached = tt; seen = tt; asked = tt }
  Reach-Inv (later reach step) = Step-Inv step (Reach-Inv reach)

  pub attached-Legit :
      {c : Cluster I repr}
      → Reach I repr (SyncCalls I repr) namespace c
      → Legit namespace (keys I repr c.world) c.attached
  attached-Legit reach = let v = Reach-Inv reach in v.attached

  issued :
      (ks : List Json) (o : Json)
      → group_of o ≡ "Secret.v1"
      → IsLegit namespace ks o
      → IsIssued namespace ks o
  issued ks o h (inl other) = cc
  issued ks o h (inr from) = from

  -- In every state that is reached with sync_seaweed.py, calls that raise included, from a namespace
  -- without attachments and a service that has created no keys, with reports, also stale ones, that show
  -- no secret that was never attached: every attached Secret was made, by `credential` and
  -- `minio_secret`, of a key that the service created in this run.
  pub Reach-IsIssued :
      (c : Cluster I repr) (front back : List Json) (o : Json)
      → Reach I repr (SyncCalls I repr) namespace c
      → c.attached ≡ front ++ o ∷ back
      → group_of o ≡ "Secret.v1"
      → IsIssued namespace (keys I repr c.world) o
  Reach-IsIssued c front back o reach e h =
      let v = Reach-Inv reach in
      issued (keys I repr c.world) o h
        (All-item (IsLegit namespace (keys I repr c.world)) front back o (rw e at v.attached))
