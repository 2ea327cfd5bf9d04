-- ===== src/Python/Json/Literal.antt =====
-- Dict and list displays.
use kubefrog_kvmserver.Prelude.{String, ◌≡◌, refl, ap, List, [], ◌∷◌}
use kubefrog_kvmserver.Python.Json.{Json, Items, Fields, nil, cons, end, field, arr, obj}

abbrev pub items : List Json → Items
items [] = nil
items (x ∷ xs) = cons x (items xs)

abbrev pub fields : List (String × Json) → Fields
fields [] = end
fields ((k, v) ∷ rest) = field k v (fields rest)

-- `[x, y]`
abbrev pub list : List Json → Json
list xs = arr (items xs)

-- `{"k": v}`
abbrev pub dict : List (String × Json) → Json
dict entries = obj (fields entries)

-- The items of a list value; of any other value none.
abbrev pub elements_of : Items → List Json
elements_of nil = []
elements_of (cons x xs) = x ∷ elements_of xs

abbrev pub elements : Json → List Json
elements (arr xs) = elements_of xs
elements _ = []

elements_of-items : (xs : List Json) → elements_of (items xs) ≡ xs
elements_of-items [] = refl
elements_of-items (x ∷ xs) = ap (λ l. x ∷ l) (elements_of-items xs)

pub elements-list : (xs : List Json) → elements (list xs) ≡ xs
elements-list xs = elements_of-items xs
