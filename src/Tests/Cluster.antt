-- ===== src/Tests/Cluster.antt =====
-- A namespace in a cluster under sync_old.py: one call, then one object appears.
use mathlib.Core.List.{Perm, mem-cons_self}
use kubefrog_kvmserver.Prelude.{
  ℕ, ◌≤◌, String, ◌≡◌, ◌↔◌, refl, ap, true, false, List, [], ◌∷◌, ◌==◌, string_eq, if◌then◌else◌,
  arith,
}
use kubefrog_kvmserver.Python.Errors.{ok}
use kubefrog_kvmserver.Python.Json.{Json, Fields, obj, end, field, size}
use kubefrog_kvmserver.Python.Json.Literal.{dict}
use kubefrog_kvmserver.Controller.Sync
use kubefrog_kvmserver.Controller.Sync.{reply, status, desired_resources}
use kubefrog_kvmserver.Controller.Inventory.{group_of, name_of, count_group, HasSizes}
use kubefrog_kvmserver.Family.{old, new, variant, sync}
use kubefrog_kvmserver.Family.Cluster.{
  Cluster, asked_by, SyncReplies, Reach, Run, start, later, answer, appear,
}
use kubefrog_kvmserver.Family.Cluster.Safety.{Reach-ready_iff, Reach-new}
use kubefrog_kvmserver.Family.Cluster.Progress.{Reach-completes}
use kubefrog_kvmserver.Python.Loads.Plain.{is_plain}
use kubefrog_kvmserver.Family.Exchange.{do_post-exchange}
use kubefrog_kvmserver.Family.Cluster.Wire.{WireReplies, Exchanges, Exchanges-ready_iff}
use kubefrog_kvmserver.Tests.Exchange.{undecoded, float_repr, parent-plain}
use kubefrog_kvmserver.Tests.Profile.{team, parent, namespace, team-parent_name, team-parent_label}

-- The members of a group, by name.
abbrev members : String → List Json → Fields
members g [] = end
members g (r ∷ rs) =
    let rest = members g rs in if group_of r == g then field (name_of r) r rest else rest

abbrev observe : List Json → Json
observe rs = dict (
    ("Secret.v1", obj (members "Secret.v1" rs))
    ∷ ("ConfigMap.v1", obj (members "ConfigMap.v1" rs))
    ∷ ("Deployment.apps/v1", obj (members "Deployment.apps/v1" rs))
    ∷ ("Service.v1", obj (members "Service.v1" rs))
    ∷ (
      "DestinationRule.networking.istio.io/v1alpha3",
      obj (members "DestinationRule.networking.istio.io/v1alpha3" rs),
    )
    ∷ (
      "AuthorizationPolicy.security.istio.io/v1beta1",
      obj (members "AuthorizationPolicy.security.istio.io/v1beta1" rs),
    )
    ∷ [])

size-members : (g : String) (rs : List Json) → size (members g rs) ≡ count_group g rs
size-members g [] = refl
size-members g (r ∷ rs) = ground (arith, size-members g rs)

reported : (g : String) (rs : List Json) → ok (size (members g rs)) ≡ ok (count_group g rs)
reported g rs = ap ok (size-members g rs)

observe-HasSizes : (rs : List Json) → HasSizes (observe rs) (λ g. count_group g rs)
observe-HasSizes rs = (
  reported "Secret.v1" rs,
  (
    reported "ConfigMap.v1" rs,
    (
      reported "Deployment.apps/v1" rs,
      (
        reported "Service.v1" rs,
        (
          reported "DestinationRule.networking.istio.io/v1alpha3" rs,
          (reported "AuthorizationPolicy.security.istio.io/v1beta1" rs, tt),
        ),
      ),
    ),
  ),
)

abbrev wanted : List Json
wanted = desired_resources (variant old) team namespace

abbrev first_reply : Json
first_reply = reply (variant old) (status false) wanted

first_sync : (sync old team parent (observe []) []).0 ≡ ok first_reply
unfolding sync Sync.sync Sync.parent_name Sync.parent_label Sync.sync_enabled Sync.is_ready
    Sync.group_has
first_sync = refl

-- The launcher's ConfigMap has appeared.
abbrev launched : Cluster
launched = record {
  parent = parent;
  attached = Sync.launcher (variant old) team.kfp_default_pipeline_root namespace;
  asked = asked_by old first_reply;
}

launched-Reach : Reach old (SyncReplies old team) namespace launched
launched-Reach =
    later
      (later (start parent team-parent_name) (answer _ first_reply (observe [], [], first_sync)))
      (appear _ _ mem-cons_self refl)

Reach-ready_iff_example :
    ((sync old team parent (observe launched.attached) []).0
      ≡ ok (reply (variant old) (status true) wanted))
    ↔ Perm launched.attached wanted
Reach-ready_iff_example =
    Reach-ready_iff old team namespace (observe launched.attached) []
      (observe-HasSizes launched.attached) launched-Reach team-parent_label

Reach-completes_example :
    (n : ℕ) × (d : Cluster) × Run old (SyncReplies old team) namespace n launched d
    × (n ≤ 10)
    × (d.parent ≡ parent)
    × Perm d.attached wanted
Reach-completes_example =
    Reach-completes old team namespace (λ e. cc) launched-Reach team-parent_label

abbrev answered_new : Cluster
answered_new = record { parent = parent; attached = []; asked = [] }

abbrev new_reply : Json
new_reply = reply (variant new) (status false) (desired_resources (variant new) team namespace)

new_sync : (sync new team parent (observe []) []).0 ≡ ok new_reply
unfolding sync Sync.sync Sync.parent_name Sync.parent_label Sync.sync_enabled Sync.is_ready
    Sync.group_has
new_sync = refl

answered_new-Reach : Reach new (SyncReplies new team) namespace answered_new
answered_new-Reach =
    later (start parent team-parent_name) (answer _ new_reply (observe [], [], new_sync))

Reach-new_example : (answered_new.asked ≡ []) × (answered_new.attached ≡ [])
Reach-new_example = Reach-new team namespace answered_new-Reach

nothing-plain : is_plain (observe []) ≡ true
unfolding is_plain
nothing-plain = refl

launched-plain : is_plain (observe launched.attached) ≡ true
unfolding is_plain
launched-plain = refl

-- The first call, over HTTP.
first_exchange : WireReplies undecoded float_repr old team parent first_reply
first_exchange =
    let (response, sent, code, read) =
      do_post-exchange undecoded float_repr old team parent (observe []) first_reply [] parent-plain
        nothing-plain first_sync in
    (observe [], [], parent-plain, nothing-plain, (response, ap (λ p. p.0) sent, read))

launched-wired : Reach old (WireReplies undecoded float_repr old team) namespace launched
launched-wired =
    later (later (start parent team-parent_name) (answer _ first_reply first_exchange))
      (appear _ _ mem-cons_self refl)

Exchanges-ready_iff_example :
    Exchanges undecoded float_repr old team parent
      (observe launched.attached)
      []
      (reply (variant old) (status true) wanted)
    ↔ Perm launched.attached wanted
Exchanges-ready_iff_example =
    Exchanges-ready_iff undecoded float_repr old team namespace (observe launched.attached) launched
      [] (observe-HasSizes launched.attached) launched-wired team-parent_label parent-plain
      launched-plain
