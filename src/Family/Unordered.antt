-- ===== src/Family/Unordered.antt =====
-- What a controller reads of the observed attachments.
use kubefrog_kvmserver.Prelude.{ℕ, String, ◌≡◌, refl, [], All, if◌then◌else◌}
use kubefrog_kvmserver.Python.Errors.{◌>>=◌ as ◌|>◌}
use kubefrog_kvmserver.Python.Exec.{lift, pure, ◌>>=◌}
use kubefrog_kvmserver.Python.Json.{Json, is_text, index, len}
use kubefrog_kvmserver.Python.Json.Literal.{dict}
use kubefrog_kvmserver.Python.Json.Unordered.{Same, len-index-Same}
use kubefrog_kvmserver.Controller.Settings.{Settings}
use kubefrog_kvmserver.Controller.Inventory.{groups}
use kubefrog_kvmserver.Controller.Sync
use kubefrog_kvmserver.Controller.Sync.{
  Variant, is_ready, group_has, sync_enabled, parent_name, parent_label, reply,
}
use kubefrog_kvmserver.Family.{File, variant, sync}
use kubefrog_kvmserver.Family.Status.{sync-variant}

-- Two values have as many objects in a group, or raise alike when these are counted.
abbrev pub SameSize : Json → Json → String → Type 0
SameSize v w g = (index v g |> len) ≡ (index w g |> len)

group_has-SameSize :
    (v w : Json) (g : String) (n : ℕ) → SameSize v w g → group_has v g n ≡ group_has w g n
unfolding group_has
group_has-SameSize v w g n e = rw e refl

is_ready-SameSize : (v w : Json) (n : ℕ) → All (SameSize v w) groups → is_ready v n ≡ is_ready w n
unfolding is_ready
is_ready-SameSize v w n h =
    rw
      (
        group_has-SameSize v w "Secret.v1" 1 h.0,
        group_has-SameSize v w "ConfigMap.v1" n h.1.0,
        group_has-SameSize v w "Deployment.apps/v1" 2 h.1.1.0,
        group_has-SameSize v w "Service.v1" 2 h.1.1.1.0,
        group_has-SameSize v w "DestinationRule.networking.istio.io/v1alpha3" 1 h.1.1.1.1.0,
        group_has-SameSize v w "AuthorizationPolicy.security.istio.io/v1beta1" 1 h.1.1.1.1.1.0,
      )
      refl

sync_enabled-SameSize :
    (v : Variant) (s : Settings) (parent namespace observed observed' : Json)
    → All (SameSize observed observed') groups
    → sync_enabled v s parent observed namespace ≡ sync_enabled v s parent observed' namespace
unfolding sync_enabled
sync_enabled-SameSize v s parent namespace observed observed' h =
    rw (is_ready-SameSize observed observed' _ h) refl

sync-SameSize :
    (v : Variant) (s : Settings) (parent observed observed' : Json)
    → All (SameSize observed observed') groups
    → Sync.sync v s parent observed ≡ Sync.sync v s parent observed'
unfolding Sync.sync
sync-SameSize v s parent observed observed' h = λ i. do
  namespace ← lift (parent_name parent)
  pipeline_enabled ← lift (parent_label parent)
  if is_text pipeline_enabled "true"
      then sync_enabled-SameSize v s parent namespace observed observed' h i
      else pure (reply v (dict []) [])

-- What each of the four files returns, raises and prints depends on the observed attachments only by
-- the numbers of objects in the six watched groups.
pub sync-reads_sizes :
    (f : File) (s : Settings) (parent observed observed' : Json)
    → All (SameSize observed observed') groups
    → sync f s parent observed ≡ sync f s parent observed'
sync-reads_sizes f s parent observed observed' h =
    rw (sync-variant f) (sync-SameSize (variant f) s parent observed observed' h)

-- It does not depend on the order in which the members of the observed attachments, and of the objects
-- in them at any depth, are listed.
pub sync-ignores_order :
    (f : File) (s : Settings) (parent : Json) {observed observed' : Json}
    → Same observed observed'
    → sync f s parent observed ≡ sync f s parent observed'
sync-ignores_order f s parent {observed} {observed'} h =
    sync-reads_sizes f s parent observed observed' (
      len-index-Same _ h,
      (
        len-index-Same _ h,
        (len-index-Same _ h, (len-index-Same _ h, (len-index-Same _ h, (len-index-Same _ h, tt)))),
      ),
    )
