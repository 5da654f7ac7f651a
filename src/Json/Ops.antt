-- ===== src/Json/Ops.antt =====
-- Python's operations on a dictionary, over `Dict`, and their lookup laws.
use automitizacion_hbi_capit.Base.{
  not, ◌&&◌, String, ◌≡◌, refl, Bool, true, false, Option, none, some, arith, ◌==◌, eq_iff, eq_refl,
  if◌then◌else◌, or_else,
}
use automitizacion_hbi_capit.Json.{Value, Dict, empty, entry}

-- `d.get(k)`, with `none` for a missing key and `some null` for a None that is present
unfoldable pub lookup : String → Dict → Option Value
lookup k empty = none
lookup k (entry j v d) = if j == k then some v else lookup k d

abbrev pub is_some : Option Value → Bool
is_some none = false
is_some (some _) = true

-- `k in d`
unfoldable pub contains : String → Dict → Bool
unfolding lookup
contains k d = is_some (lookup k d)

-- `d[k] = v`: in place, or at the end
unfoldable pub insert : String → Value → Dict → Dict
insert k v empty = entry k v empty
insert k v (entry j w d) = if j == k then entry j v d else entry j w (insert k v d)

-- `d.pop(k, None)`, `del d[k]`
unfoldable pub delete : String → Dict → Dict
delete k empty = empty
delete k (entry j w d) = if j == k then delete k d else entry j w (delete k d)

-- `d.setdefault(k, v)`
unfoldable pub set_default : String → Value → Dict → Dict
unfolding contains insert
set_default k v d = if contains k d then d else insert k v d

-- `d.update(u)`: the entries of `u` in their order
unfoldable pub update : Dict → Dict → Dict
update d empty = d
update d (entry k v u) = update (insert k v d) u

-- The value that a dictionary display `{k: v, ...}` gives `k`: its last one.
unfoldable pub lookup_last : String → Dict → Option Value
lookup_last k empty = none
lookup_last k (entry j v d) = or_else (lookup_last k d) (if j == k then some v else none)

pub lookup-insert :
    (k j : String) (v : Value) (d : Dict)
    → lookup j (insert k v d) ≡ (if k == j then some v else lookup j d)
unfolding lookup insert
lookup-insert k j v empty = refl
lookup-insert k j v (entry i w d) =
    ground (arith, eq_iff k j, eq_iff i k, eq_iff i j, lookup-insert k j v d)

pub lookup-delete :
    (k j : String) (d : Dict) → lookup j (delete k d) ≡ (if k == j then none else lookup j d)
unfolding lookup delete
lookup-delete k j empty = ground arith
lookup-delete k j (entry i w d) =
    ground (arith, eq_iff k j, eq_iff i k, eq_iff i j, lookup-delete k j d)

pub lookup-update :
    (d u : Dict) (j : String) → lookup j (update d u) ≡ or_else (lookup_last j u) (lookup j d)
unfolding update lookup_last
lookup-update d empty j = refl
lookup-update d (entry k v u) j =
    ground (arith, lookup-update (insert k v d) u j, lookup-insert k j v d)

pub lookup-set_default :
    (k j : String) (v : Value) (d : Dict)
    → lookup j (set_default k v d) ≡ (if k == j then or_else (lookup k d) (some v) else lookup j d)
unfolding set_default contains
lookup-set_default k j v d = ground (arith, lookup-insert k j v d, eq_iff k j, eq_refl k)

-- No key stands twice, as in every Python dictionary.
unfoldable pub is_unique : Dict → Bool
unfolding contains
is_unique empty = true
is_unique (entry k v d) = not (contains k d) && is_unique d

lookup_last-of_missing : (k : String) (d : Dict) → lookup k d ≡ none → lookup_last k d ≡ none
unfolding lookup lookup_last
lookup_last-of_missing k empty h = refl
lookup_last-of_missing k (entry j v d) h = ground (arith, lookup_last-of_missing k d)

pub lookup_last-eq-lookup :
    (k : String) (d : Dict) → is_unique d ≡ true → lookup_last k d ≡ lookup k d
unfolding lookup lookup_last is_unique
lookup_last-eq-lookup k empty u = refl
lookup_last-eq-lookup k (entry j v d) u =
    ground (arith, eq_iff j k, lookup_last-eq-lookup k d, lookup_last-of_missing k d)

pub is_unique-insert :
    (k : String) (v : Value) (d : Dict) → is_unique d ≡ true → is_unique (insert k v d) ≡ true
unfolding is_unique insert
is_unique-insert k v empty u = refl
is_unique-insert k v (entry j w d) u =
    ground (arith, eq_iff j k, eq_iff k j, is_unique-insert k v d, lookup-insert k j v d)

pub is_unique-update : (d u : Dict) → is_unique d ≡ true → is_unique (update d u) ≡ true
unfolding update
is_unique-update d empty h = h
is_unique-update d (entry k v u) h = is_unique-update (insert k v d) u (is_unique-insert k v d h)

pub is_unique-delete : (k : String) (d : Dict) → is_unique d ≡ true → is_unique (delete k d) ≡ true
unfolding is_unique delete
is_unique-delete k empty u = refl
is_unique-delete k (entry j w d) u =
    ground (arith, eq_iff j k, eq_iff k j, is_unique-delete k d, lookup-delete k j d)

pub lookup-update_unique :
    (d u : Dict) (k : String)
    → is_unique u ≡ true
    → lookup k (update d u) ≡ or_else (lookup k u) (lookup k d)
lookup-update_unique d u k h = rw (← lookup_last-eq-lookup k u h) (lookup-update d u k)

pub ruleset dict_laws = (lookup-insert, lookup-delete, lookup-update, lookup-set_default)
