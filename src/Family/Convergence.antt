-- ===== src/Family/Convergence.antt =====
-- What a call answers after metacontroller has applied an earlier answer.
use kubefrog_kvmserver.Prelude.{
  ℕ, String, ◌≡◌, refl, ◌∙◌, ap, true, List, [], ◌∷◌, all, ◌==◌, nat_eq, arith,
}
use kubefrog_kvmserver.Python.Errors.{ok}
use kubefrog_kvmserver.Python.Json.{Json, str}
use kubefrog_kvmserver.Controller.Settings.{Settings}
use kubefrog_kvmserver.Controller.Sync.{
  Line, reply, status, desired_resources, parent_name, parent_label,
}
use kubefrog_kvmserver.Controller.Inventory.{HasSizes, count_group, groups}
use kubefrog_kvmserver.Controller.Laws.{sync-enabled}
use kubefrog_kvmserver.Family.{File, variant, sync}
use kubefrog_kvmserver.Family.Status.{sync-variant, sync-reports_ready}
use kubefrog_kvmserver.Family.Replies.{attachments_of, attachments_of-reply}

all-same : (sizes : String → ℕ) (gs : List String) → all (λ g. sizes g == sizes g) gs ≡ true
all-same sizes [] = refl
all-same sizes (g ∷ gs) = ground (arith, all-same sizes gs)

-- Once metacontroller reports, in the numbers of each group, what an earlier call for an enabled
-- namespace asked for, whatever had been reported to that call, a call reports "True" and asks for
-- the same again.
pub sync-converges :
    (f : File) (s : Settings) (parent earlier observed namespace r : Json) (log log' : List Line)
    → parent_name parent ≡ ok namespace
    → parent_label parent ≡ ok (str "true")
    → (sync f s parent earlier log).0 ≡ ok r
    → HasSizes observed (λ g. count_group g (attachments_of f r))
    → (sync f s parent observed log').0 ≡ ok (reply (variant f) (status true) (attachments_of f r))
sync-converges f s parent earlier observed namespace r log log' hn hl h sizes =
    let (ready, e) =
      sync-enabled (variant f) s parent earlier namespace r log hn hl (rw (← sync-variant f) h) in
    let asked : attachments_of f r ≡ desired_resources (variant f) s namespace =
      ap (attachments_of f) e ∙ attachments_of-reply f (status ready) _ in
    rw asked (
      ap (λ p. p.0)
        (sync-reports_ready f s parent observed namespace log'
          (λ g. count_group g (desired_resources (variant f) s namespace)) hn hl
          (rw asked at sizes))
      ∙ ap (λ b. ok (reply (variant f) (status b) (desired_resources (variant f) s namespace)))
          (all-same (λ g. count_group g (desired_resources (variant f) s namespace)) groups))
