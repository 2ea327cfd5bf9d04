-- ===== src/Family/Cluster/Progress.antt =====
-- From every reachable state the desired objects can all be there again.
use mathlib.Core.List.{
  Mem, Perm, Mem-prop, mem-cons_self, mem-cons_of_mem, eq-or-mem_of_mem-cons, not-mem-nil,
  perm_ext_iff_of_Nodup,
}
use mathlib.Core.Logic.{∥∥₁_elim}
use mathlib.Core.Logic.Or
use kubefrog_kvmserver.Prelude.{
  ℕ, suc, ◌≤◌, length, ◌≡◌, ◌≢◌, refl, sym, ap, ◌∙◌, inl, inr, Bool, true, List, [], ◌∷◌, map, any,
  ◌==◌, string_eq, arith, Bool-cases, eq_iff,
}
use kubefrog_kvmserver.Prelude.Members.{Within}
use kubefrog_kvmserver.Python.Loads.Plain.{both_true}
use kubefrog_kvmserver.Python.Errors.{ok}
use kubefrog_kvmserver.Python.Json.{Json, str}
use kubefrog_kvmserver.Python.Json.Literal.{dict, elements-list}
use kubefrog_kvmserver.Controller.Settings.{Settings}
use kubefrog_kvmserver.Controller.Sync.{reply, desired_resources, parent_label}
use kubefrog_kvmserver.Controller.Inventory.{groups, HasSizes, group_of, name_of, distinct}
use kubefrog_kvmserver.Controller.Desired.{kept, desired_cases}
use kubefrog_kvmserver.Family.{File, current, new, variant}
use kubefrog_kvmserver.Family.Status.{sync-reports_ready}
use kubefrog_kvmserver.Family.Manifests.{desired_resources-distinct}
use kubefrog_kvmserver.Family.Cluster.{
  Cluster, asked_by, is_same_object, SyncReplies, answer, appear, Reach, later, Run, done, next,
  Reach-Run,
}
use kubefrog_kvmserver.Family.Cluster.Objects.{distinct-cons, distinct-Nodup}
use kubefrog_kvmserver.Family.Cluster.Safety.{Reach-Inv}

-- A report of every group, without an object.
abbrev nothing_attached : Json
nothing_attached = dict (map (λ g. (g, dict [])) groups)

nothing_attached-HasSizes : HasSizes nothing_attached (λ g. 0)
nothing_attached-HasSizes = (refl, (refl, (refl, (refl, (refl, (refl, tt))))))

is_same_object-sym : (o q : Json) → is_same_object o q ≡ true → is_same_object q o ≡ true
is_same_object-sym o q h =
    let (groups, names) = both_true (group_of q == group_of o) (name_of q == name_of o) h in
    rw
      (
        (eq_iff (group_of o) (group_of q)).1 (sym ((eq_iff (group_of q) (group_of o)).0 groups)),
        (eq_iff (name_of o) (name_of q)).1 (sym ((eq_iff (name_of q) (name_of o)).0 names)),
      )
      refl

any-Mem : (p : Json → Bool) (rs : List Json) (q : Json) → Mem q rs → p q ≡ true → any p rs ≡ true
any-Mem p [] q m h = absurd (not-mem-nil m)
any-Mem p (r ∷ rs) q m h =
    Or.elim (hlevel) (eq-or-mem_of_mem-cons m)
      (λ e. let here : p r ≡ true = (rw e at h) in rw here refl)
      (λ there. let later_on = any-Mem p rs q there h in ground (arith, later_on))

-- Two members of a distinct list with one group and name are one.
one_object :
    (rs : List Json) (o q : Json)
    → distinct rs ≡ true
    → Mem o rs
    → Mem q rs
    → is_same_object o q ≡ true
    → ∥ (o ≡ q) ∥₁
one_object [] o q h mo mq same = absurd (not-mem-nil mo)
one_object (r ∷ rs) o q h mo mq same =
    let (free, rest) = distinct-cons r rs h in
    Or.elim (hlevel) (eq-or-mem_of_mem-cons mo)
      (λ eo.
        Or.elim (hlevel) (eq-or-mem_of_mem-cons mq) (λ eq. ∣ eo ∙ sym eq ∣₁)
          (λ there. cc (free, any-Mem (is_same_object r) rs q there (rw eo at same))))
      (λ here.
        Or.elim (hlevel) (eq-or-mem_of_mem-cons mq)
          (λ eq.
            cc
              (free, any-Mem (is_same_object r) rs o here (is_same_object-sym o r (rw eq at same))))
          (λ there. one_object rs o q rest here there same))

-- An object whose group and name are taken, among objects of a distinct list, is there itself.
taken-Mem :
    (all_objects rs : List Json) (o : Json)
    → distinct all_objects ≡ true
    → Within rs all_objects
    → Mem o all_objects
    → any (is_same_object o) rs ≡ true
    → Mem o rs
taken-Mem all_objects [] o h within m found = cc
taken-Mem all_objects (q ∷ rs) o h within m found = elim (Bool-cases (is_same_object o q)) [
  | inl same ↦
      ∥∥₁_elim (one_object all_objects o q h m (within q mem-cons_self) same) Mem-prop
        (λ e. rw e mem-cons_self)
  | inr other ↦ mem-cons_of_mem q (
      taken-Mem all_objects rs o h (λ a there. within a (mem-cons_of_mem q there)) m
        (rw other at found))
]

-- What sync.py, sync-debug-frontend.py and sync_old.py answer is what metacontroller reads.
asked_by-all :
    (f : File) (st : Json) (rs : List Json) → f ≢ new → asked_by f (reply (variant f) st rs) ≡ rs
asked_by-all new st rs ne = absurd (ne refl)
asked_by-all current st rs ne = elements-list rs
asked_by-all _ st rs ne = elements-list rs

length-kept :
    (f : File) (s : Settings) (namespace : Json) → length (kept (variant f) s namespace) ≡ 8
length-kept current s namespace = refl
length-kept _ s namespace = refl

desired_length :
    (f : File) (s : Settings) (namespace : Json)
    → length (desired_resources (variant f) s namespace) ≤ 9
desired_length f s namespace =
    desired_cases (λ rs. length rs ≤ 9) (variant f) s namespace
      (omega (arith, length-kept f s namespace)) (λ root. omega (arith, length-kept f s namespace))

module _ (f : File) (s : Settings) (namespace : Json) where
  abbrev desired : List Json
  desired = desired_resources (variant f) s namespace

  -- A state that a run leads to, with the same labels and with these objects.
  abbrev Grown : Cluster → List Json → Type 0
  Grown c wanted =
      (n : ℕ) × (d : Cluster) × Run f (SyncReplies f s) namespace n c d
      × (n ≤ length wanted)
      × (d.parent ≡ c.parent)
      × Within c.attached d.attached
      × Within wanted d.attached

  appear_all :
      (wanted : List Json) (c : Cluster)
      → Reach f (SyncReplies f s) namespace c
      → c.asked ≡ desired
      → Within wanted desired
      → Grown c wanted
  appear_all [] c r asked within =
      (0, c, done, omega arith, refl, λ a m. m, λ a m. absurd (not-mem-nil m))
  appear_all (o ∷ wanted) c r asked within =
      let v = Reach-Inv f s namespace r in
      let mine : Mem o desired = within o mem-cons_self in
      let others : Within wanted desired = λ a m. within a (mem-cons_of_mem o m) in
      elim (Bool-cases (any (is_same_object o) c.attached)) [
        | inl taken ↦
            let here =
              taken-Mem desired c.attached o (desired_resources-distinct f s namespace)
                v.attached_desired mine taken in
            let (n, d, run, small, same, kept, grown) = appear_all wanted c r asked others in
            (
              n,
              d,
              run,
              omega (arith, small),
              same,
              kept,
              λ a m. Or.elim Mem-prop (eq-or-mem_of_mem-cons m) (λ e. rw e (kept o here)) (grown a),
            )
        | inr free ↦
            let step = appear c o (rw asked mine) free in
            let (n, d, run, small, same, kept, grown) =
              appear_all wanted (record c { attached = o ∷ c.attached }) (later r step) asked
                others in
            (
              suc n,
              d,
              next step run,
              omega (arith, small),
              same,
              λ a m. kept a (mem-cons_of_mem o m),
              λ a m.
                  Or.elim Mem-prop (eq-or-mem_of_mem-cons m) (λ e. rw e (kept o mem-cons_self))
                    (grown a),
            )
      ]

  -- Under sync.py, sync-debug-frontend.py and sync_old.py: from every reachable state of an enabled
  -- namespace, also after objects vanished and after calls with any reports, at most ten steps lead to
  -- a state with just the desired resources.
  pub Reach-completes :
      {c : Cluster}
      → f ≢ new
      → Reach f (SyncReplies f s) namespace c
      → parent_label c.parent ≡ ok (str "true")
      → (n : ℕ) × (d : Cluster) × Run f (SyncReplies f s) namespace n c d
        × (n ≤ 10)
        × (d.parent ≡ c.parent)
        × Perm d.attached desired
  Reach-completes {c} listed r labelled =
      let v = Reach-Inv f s namespace r in
      let answered =
        ap (λ p. p.0)
          (sync-reports_ready f s c.parent nothing_attached namespace [] (λ g. 0) v.named labelled
            nothing_attached-HasSizes) in
      let step = answer c _ (nothing_attached, [], answered) in
      let (n, d, run, small, same, _, grown) =
        appear_all desired _ (later r step) (asked_by-all f _ desired listed) (λ a m. m) in
      let w = Reach-Inv f s namespace (Reach-Run f (SyncReplies f s) namespace (next step run) r) in
      let equal =
        perm_ext_iff_of_Nodup w.attached_once
          (distinct-Nodup desired (desired_resources-distinct f s namespace)) in
      (
        suc n,
        d,
        next step run,
        omega (arith, small, desired_length f s namespace),
        same,
        equal.1 λ a. (w.attached_desired a, grown a),
      )
