-- ===== src/Controller/Plain.antt =====
-- What the controllers read of a value that JSON holds exactly, and their status.
use kubefrog_kvmserver.Prelude.{
  String, ◌≡◌, refl, inl, inr, Bool, true, false, ◌&&◌, some, [], ◌==◌, string_eq, Bool-cases,
  Option-cases,
}
use kubefrog_kvmserver.Python.Errors.{Result-cases, ok}
use kubefrog_kvmserver.Python.Json.{
  Json, null, bool, num, negative, float, str, arr, obj, Fields, end, field, lookup, get, index,
}
use kubefrog_kvmserver.Python.Json.Literal.{dict}
use kubefrog_kvmserver.Python.Loads.Plain.{is_plain, plain_fields, is_none, both_true}
use kubefrog_kvmserver.Controller.Sync.{status, parent_name}

pub lookup-plain :
    (k : String) (fs : Fields) (w : Json)
    → plain_fields fs ≡ true
    → lookup k fs ≡ some w
    → is_plain w ≡ true
unfolding is_plain
lookup-plain k end w p h = cc
lookup-plain k (field j v fs) w p h =
    let (here, pfs) = both_true (is_none (lookup j fs) && is_plain v) (plain_fields fs) p in
    let (_, pv) = both_true (is_none (lookup j fs)) (is_plain v) here in
    elim (Bool-cases (j == k)) [
      | inl e ↦ let same : v ≡ w = cc (rw e at h) in rw (← same) pv
      | inr e ↦ lookup-plain k fs w pfs (rw e at h)
    ]

-- What is found in a plain value, or is a plain default, is plain.
pub get-plain :
    (v d w : Json) (k : String)
    → is_plain v ≡ true
    → is_plain d ≡ true
    → get v k d ≡ ok w
    → is_plain w ≡ true
unfolding is_plain
get-plain (obj fs) d w k pv pd h = elim (Option-cases (lookup k fs)) [
  | inl e ↦ let same : d ≡ w = cc (rw e at h) in rw (← same) pd
  | inr (u, e) ↦ let same : u ≡ w = cc (rw e at h) in lookup-plain k fs w pv (rw (← same) e)
]
get-plain null d w k pv pd h = cc
get-plain (bool b) d w k pv pd h = cc
get-plain (num n) d w k pv pd h = cc
get-plain (negative n) d w k pv pd h = cc
get-plain (float r) d w k pv pd h = cc
get-plain (str t) d w k pv pd h = cc
get-plain (arr xs) d w k pv pd h = cc

pub parent_name-plain :
    (parent namespace : Json)
    → is_plain parent ≡ true
    → parent_name parent ≡ ok namespace
    → is_plain namespace ≡ true
unfolding parent_name is_plain
parent_name-plain parent namespace p h = elim (Result-cases (get parent "metadata" (dict []))) [
  | inl (m, e) ↦
      get-plain m null namespace "name" (get-plain parent (dict []) m "metadata" p refl e) refl
        (rw e at h)
  | inr (_, e) ↦ cc (rw e at h)
]

-- So is what stands under a key.
pub index-plain :
    (v w : Json) (k : String) → is_plain v ≡ true → index v k ≡ ok w → is_plain w ≡ true
unfolding is_plain
index-plain (obj fs) w k pv h = elim (Option-cases (lookup k fs)) [
  | inl e ↦ cc (rw e at h)
  | inr (u, e) ↦ let same : u ≡ w = cc (rw e at h) in lookup-plain k fs w pv (rw (← same) e)
]
index-plain null w k pv h = cc
index-plain (bool b) w k pv h = cc
index-plain (num n) w k pv h = cc
index-plain (negative n) w k pv h = cc
index-plain (float r) w k pv h = cc
index-plain (str t) w k pv h = cc
index-plain (arr xs) w k pv h = cc

pub status-plain : (ready : Bool) → is_plain (status ready) ≡ true
unfolding is_plain
status-plain true = refl
status-plain false = refl
