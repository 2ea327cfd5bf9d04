-- ===== src/Python/Json/Unordered.antt =====
-- JSON values whose objects, at any depth, have the same members in another order.
use kubefrog_kvmserver.Prelude.{
  suc, String, ◌≡◌, ◌≢◌, refl, ap, ◌∙◌, Option, none, some, eq_iff, arith, Bool, true, false, ◌==◌,
  string_eq, if◌then◌else◌,
}
use kubefrog_kvmserver.Python.Errors.{ok, ◌>>=◌}
use kubefrog_kvmserver.Python.Json.{
  Json, obj, arr, Items, nil, cons, Fields, end, field, lookup, size, index, len, found_or_raise,
  items_length,
}

mutual
  pub data Same : Json → Json → Type 0 where
    same : (v : Json) → Same v v
    objects : {fs gs : Fields} → Reordered fs gs → Same (obj fs) (obj gs)
    in_turn : {u v w : Json} → Same u v → Same v w → Same u w
    arrays : {xs ys : Items} → Itemwise xs ys → Same (arr xs) (arr ys)

  pub data Itemwise : Items → Items → Type 0 where
    no_items : Itemwise nil nil
    items :
        {v w : Json} {xs ys : Items} → Same v w → Itemwise xs ys → Itemwise (cons v xs) (cons w ys)

  pub data Reordered : Fields → Fields → Type 0 where
    ended : Reordered end end
    keep :
        (k : String) {v w : Json} {fs gs : Fields}
        → Same v w
        → Reordered fs gs
        → Reordered (field k v fs) (field k w gs)
    swap :
        (j k : String) (v w : Json) (fs : Fields)
        → j ≢ k
        → Reordered (field j v (field k w fs)) (field k w (field j v fs))
    thence : {fs gs hs : Fields} → Reordered fs gs → Reordered gs hs → Reordered fs hs

abbrev SameFound : Option Json → Option Json → Type 0
SameFound none none = Unit
SameFound (some v) (some w) = Same v w
SameFound _ _ = ⊥

SameFound-refl : (r : Option Json) → SameFound r r
SameFound-refl none = tt
SameFound-refl (some v) = same v

SameFound-trans : (p q r : Option Json) → SameFound p q → SameFound q r → SameFound p r
SameFound-trans none none r h i = i
SameFound-trans none (some v) r h i = elim h [ ]
SameFound-trans (some u) none r h i = elim h [ ]
SameFound-trans (some u) (some v) none h i = elim i [ ]
SameFound-trans (some u) (some v) (some w) h i = in_turn h i

found_if :
    (b : Bool) (p q r s : Option Json)
    → SameFound p q
    → SameFound r s
    → SameFound (if b then p else r) (if b then q else s)
found_if true p q r s h i = h
found_if false p q r s h i = i

-- A member is found wherever it stands.
found_swapped :
    (g j k : String) (v w : Json) (r : Option Json)
    → j ≢ k
    → (if j == g then some v else if k == g then some w else r)
      ≡ (if k == g then some w else if j == g then some v else r)
found_swapped g j k v w r ne = ground (arith, eq_iff j g, eq_iff k g)

pub lookup-Reordered :
    (g : String) {fs gs : Fields} → Reordered fs gs → SameFound (lookup g fs) (lookup g gs)
lookup-Reordered g ended = tt
lookup-Reordered g (keep k {v} {w} s r) =
    found_if (k == g) (some v) (some w) _ _ s (lookup-Reordered g r)
lookup-Reordered g (swap j k v w fs ne) =
    rw (found_swapped g j k v w (lookup g fs) ne) (SameFound-refl _)
lookup-Reordered g (thence r q) =
    SameFound-trans _ _ _ (lookup-Reordered g r) (lookup-Reordered g q)

size-Reordered : {fs gs : Fields} → Reordered fs gs → size fs ≡ size gs
size-Reordered ended = refl
size-Reordered (keep k s r) = ap suc (size-Reordered r)
size-Reordered (swap j k v w fs ne) = refl
size-Reordered (thence r q) = size-Reordered r ∙ size-Reordered q

items_length-Itemwise : {xs ys : Items} → Itemwise xs ys → items_length xs ≡ items_length ys
items_length-Itemwise no_items = refl
items_length-Itemwise (items s r) = ap suc (items_length-Itemwise r)

pub len-Same : {v w : Json} → Same v w → len v ≡ len w
len-Same (same v) = refl
len-Same (objects r) = ap ok (size-Reordered r)
len-Same (in_turn s t) = len-Same s ∙ len-Same t
len-Same (arrays r) = ap ok (items_length-Itemwise r)

len_found :
    (g : String) (p q : Option Json)
    → SameFound p q
    → (found_or_raise g p >>= len) ≡ (found_or_raise g q >>= len)
len_found g none none h = refl
len_found g (some v) (some w) h = len-Same h
len_found g none (some w) h = elim h [ ]
len_found g (some v) none h = elim h [ ]

-- The number of members of a member does not depend on the order.
pub len-index-Same :
    (g : String) {v w : Json} → Same v w → (index v g >>= len) ≡ (index w g >>= len)
len-index-Same g (same v) = refl
len-index-Same g (objects r) = len_found g _ _ (lookup-Reordered g r)
len-index-Same g (in_turn s t) = len-index-Same g s ∙ len-index-Same g t
len-index-Same g (arrays r) = refl
