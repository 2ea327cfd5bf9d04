-- ===== src/Family/Cluster/Wire.antt =====
-- The cluster when its calls are exchanges of JSON with `do_POST`.
use kubefrog_kvmserver.Prelude.{ℕ, String, ◌≡◌, ◌↔◌, ap, true, List}
use mathlib.Core.List.{Perm}
use kubefrog_kvmserver.Python.Errors.{Result, ok}
use kubefrog_kvmserver.Python.Json.{Json, str}
use kubefrog_kvmserver.Python.Loads.{loads}
use kubefrog_kvmserver.Python.Loads.Bytes.{Encoding}
use kubefrog_kvmserver.Python.Loads.Plain.{is_plain}
use kubefrog_kvmserver.Controller.Settings.{Settings}
use kubefrog_kvmserver.Controller.Sync.{Line, reply, status, desired_resources, parent_label}
use kubefrog_kvmserver.Controller.Inventory.{count_group, HasSizes}
use kubefrog_kvmserver.Controller.Http
use kubefrog_kvmserver.Controller.Http.{Response}
use kubefrog_kvmserver.Family.{File, variant}
use kubefrog_kvmserver.Controller.Http.Posted.{posted}
use kubefrog_kvmserver.Family.Exchange.{question, do_post-exchange, do_post-returned}
use kubefrog_kvmserver.Family.Cluster.{
  Cluster, SyncReplies, Step, answer, appear, vanish, relabel, Reach, start, later,
}
use kubefrog_kvmserver.Family.Cluster.Safety.{Reach-ready_iff}

-- Fewer replies reach fewer states.
module _ (f : File) (Replies More : Json → Json → Type 0) (namespace : Json)
    (more : (parent r : Json) → Replies parent r → More parent r) where
  Step-mono : {c d : Cluster} → Step f Replies namespace c d → Step f More namespace c d
  Step-mono (answer c r replies) = answer c r (more c.parent r replies)
  Step-mono (appear c o asked free) = appear c o asked free
  Step-mono (vanish c front back o e) = vanish c front back o e
  Step-mono (relabel c parent named) = relabel c parent named

  Reach-mono : {c : Cluster} → Reach f Replies namespace c → Reach f More namespace c
  Reach-mono (start parent named) = start parent named
  Reach-mono (later r st) = later (Reach-mono r) (Step-mono st)

module _ (other : Encoding → List ℕ → Result (List ℕ)) (float_repr : List ℕ → String) (f : File)
    (s : Settings) where
  -- A caller posts the JSON of the namespace and the report, and reads this in the response.
  abbrev pub Exchanges : Json → Json → List Line → Json → Type 0
  Exchanges parent observed log r =
      (response : Response) × ((Http.do_post (loads other float_repr) (variant f) s
          (posted (question f parent observed)) log).0
        ≡ ok response)
      × (loads other float_repr response.body ≡ ok r)

  -- The replies over HTTP to what JSON can carry, without floats, whatever report is posted.
  abbrev pub WireReplies : Json → Json → Type 0
  WireReplies parent r =
      (report : Json) × (log : List Line) × (is_plain parent ≡ true)
      × (is_plain report ≡ true)
      × Exchanges parent report log r

  WireReplies-SyncReplies : (parent r : Json) → WireReplies parent r → SyncReplies f s parent r
  WireReplies-SyncReplies parent r (report, log, po, pb, (response, sent, read)) = (
    report,
    log,
    do_post-returned other float_repr f s parent report r log response po pb sent read,
  )

  -- In every state that is reached when the calls are exchanges over HTTP of what JSON can carry, without
  -- floats and with distinct keys, and objects appear only as in the cluster: a caller that posts the
  -- enabled namespace with a current report, which has the number of attached objects of each watched
  -- group, reads the status "True" and the desired resources in the response exactly if the attached
  -- objects are the desired resources, each of them once.
  pub Exchanges-ready_iff :
      (namespace report : Json) (c : Cluster) (log : List Line)
      → HasSizes report (λ g. count_group g c.attached)
      → Reach f WireReplies namespace c
      → parent_label c.parent ≡ ok (str "true")
      → is_plain c.parent ≡ true
      → is_plain report ≡ true
      → Exchanges c.parent report log
          (reply (variant f) (status true) (desired_resources (variant f) s namespace))
        ↔ Perm c.attached (desired_resources (variant f) s namespace)
  Exchanges-ready_iff namespace report c log reports reach labelled po pb =
      let told =
        Reach-ready_iff f s namespace report log reports
          (Reach-mono f WireReplies (SyncReplies f s) namespace WireReplies-SyncReplies reach)
          labelled in
      (
        λ (response, sent, read).
            told.0 (
              do_post-returned other float_repr f s c.parent report _ log response po pb sent read),
        λ complete.
            let (response, sent, code, read) =
              do_post-exchange other float_repr f s c.parent report _ log po pb (told.1 complete) in
            (response, ap (λ p. p.0) sent, read),
      )
