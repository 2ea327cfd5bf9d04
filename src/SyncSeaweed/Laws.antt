-- ===== src/SyncSeaweed/Laws.antt =====
-- What `sync` of sync_seaweed.py does with the secret of a namespace, and what it reports.
use kubefrog_kvmserver.Prelude.{
  String, ◌<>◌, ◌≡◌, ap, ◌∙◌, Bool, true, false, List, [], ◌∷◌, ◌++◌, arith, all, count_by, ◌==◌,
  nat_eq, string_eq,
}
use mathlib.Core.List.{append_assoc}
use kubefrog_kvmserver.Python.Errors.{ok, ◌>>=◌}
use kubefrog_kvmserver.Python.Json.{Json, null, str, get, index, truth}
use kubefrog_kvmserver.Python.Json.Literal.{list}
use kubefrog_kvmserver.Controller.Sync.{is_ready, status, parent_name, parent_label}
use kubefrog_kvmserver.Controller.Inventory.{HasSizes, group_of, count_group}
use kubefrog_kvmserver.Controller.Readiness.{is_ready-sizes, watched}
use kubefrog_kvmserver.Python.Dumps.{format}
use kubefrog_kvmserver.SyncSeaweed.Sync.{
  Iam, World, Output, note, dumped, configmaps, reply, sync, sync_enabled,
}

-- The key under which metacontroller reports the secret of a namespace.
abbrev pub secret_path : (Json → String) → Json → String
secret_path repr namespace = format repr namespace <> "/mlpipeline-minio-artifact"

-- The reported secret of the namespace, as `sync` looks it up.
abbrev pub FindsSecret : (Json → String) → Json → Json → Json → Type 0
FindsSecret repr attachments namespace secret =
    (index attachments "Secret.v1" >>= λ secrets. get secrets (secret_path repr namespace) null)
    ≡ ok secret

-- The lines that a call prints before it looks for the secret.
abbrev pub first_lines : (Json → String) → Json → Json → List Output
first_lines repr parent namespace =
    dumped "Received request:\n" parent
    ∷ dumped "Desired resources except secrets:\n"
        (list (configmaps namespace (format repr namespace)))
    ∷ []

-- The test on three ConfigMaps and one object of another group.
abbrev fits_with : String → Bool
fits_with group =
    all
      (λ (g, k).
        count_by (λ q. q == g) ("ConfigMap.v1" ∷ "ConfigMap.v1" ∷ "ConfigMap.v1" ∷ group ∷ []) == k)
      (watched 3)

module _ (I : Iam) (repr : Json → String) where
  sync_enabled-existing :
      (parent attachments namespace secret : Json) (ready : Bool) (w : World I repr)
      → is_ready attachments 3 ≡ ok ready
      → FindsSecret repr attachments namespace secret
      → truth secret ≡ true
      → sync_enabled I repr parent attachments namespace w ≡ (
        ok (reply (status ready) (configmaps namespace (format repr namespace) ++ secret ∷ [])),
        record w {
          printed =
              ((w.printed ++ dumped "Received request:\n" parent ∷ [])
                ++ dumped "Desired resources except secrets:\n"
                    (list (configmaps namespace (format repr namespace)))
                  ∷ [])
              ++ note "Using existing secret" ∷ [];
        },
      )
  unfolding sync_enabled
  sync_enabled-existing parent attachments namespace secret ready w hr hs ht = ground arith

  -- Past the name and the label.
  pub sync-enabled :
      (parent attachments namespace : Json) (w : World I repr)
      → parent_name parent ≡ ok namespace
      → parent_label parent ≡ ok (str "true")
      → sync I repr parent attachments w ≡ sync_enabled I repr parent attachments namespace w
  unfolding sync
  sync-enabled parent attachments namespace w hn hl = rw (hn, hl)

  -- For an enabled namespace whose secret is reported, a call that can read the groups returns the
  -- three ConfigMaps and that same secret, makes no call to IAM, and prints three lines, made from
  -- the request's namespace and the ConfigMaps and not from the secret.
  pub sync-keeps_secret :
      (parent attachments namespace secret : Json) (ready : Bool) (w : World I repr)
      → parent_name parent ≡ ok namespace
      → parent_label parent ≡ ok (str "true")
      → is_ready attachments 3 ≡ ok ready
      → FindsSecret repr attachments namespace secret
      → truth secret ≡ true
      → sync I repr parent attachments w ≡ (
        ok (reply (status ready) (configmaps namespace (format repr namespace) ++ secret ∷ [])),
        record w {
          printed =
              w.printed ++ first_lines repr parent namespace ++ note "Using existing secret" ∷ [];
        },
      )
  sync-keeps_secret parent attachments namespace secret ready w hn hl hr hs ht =
      sync-enabled parent attachments namespace w hn hl
      ∙ sync_enabled-existing parent attachments namespace secret ready w hr hs ht
      ∙ ap
          (λ lines. (
            ok (reply (status ready) (configmaps namespace (format repr namespace) ++ secret ∷ [])),
            record w { printed = lines ++ note "Using existing secret" ∷ [] },
          ))
          (append_assoc w.printed _ _)

  -- When metacontroller reports, for an enabled namespace with its secret, as many objects in each
  -- group that `sync` reads as the three ConfigMaps and a Secret have, the status is "False": the
  -- Deployments, Services and policies that the test counts are none that this file attaches.
  sync-never_ready :
      (parent attachments namespace secret : Json) (w : World I repr)
      → parent_name parent ≡ ok namespace
      → parent_label parent ≡ ok (str "true")
      → FindsSecret repr attachments namespace secret
      → truth secret ≡ true
      → group_of secret ≡ "Secret.v1"
      → let rs = configmaps namespace (format repr namespace) ++ secret ∷ [] in
        HasSizes attachments (λ g. count_group g rs)
        → (sync I repr parent attachments w).0 ≡ ok (reply (status false) rs)
  sync-never_ready parent attachments namespace secret w hn hl hs ht hg reports =
      ap (λ p. p.0)
        (sync-keeps_secret parent attachments namespace secret false w hn hl
          (is_ready-sizes attachments
              (λ g. count_group g (configmaps namespace (format repr namespace) ++ secret ∷ []))
              reports 3
            ∙ ap (λ g. ok (fits_with g)) hg)
          hs ht)
