-- ===== src/Prelude/Json.antt =====
-- `serde_json::Value`, the accessors that the program uses, and what stands for `json!`. Numbers are
-- those that it writes: natural. The members of a parsed object stand in the order of their keys, in
-- which serde_json's map goes through them.
use Prim.Native.String.{String}
use dun_tunel.Prelude.{
  ℕ, ◌≡◌, refl, ap, Bool, true, false, not, ◌&&◌, ◌==◌, List, [], ◌∷◌, map, Option, none, some,
  Text, text, text_eq, if◌then◌else◌,
}

mutual
  pub data Json : Type 0 where
    null : Json
    bool : Bool → Json
    number : ℕ → Json
    string : Text → Json
    array : Items → Json
    object : Members → Json

  pub data Items : Type 0 where
    no_items : Items
    item : Json → Items → Items

  pub data Members : Type 0 where
    no_members : Members
    member : Text → Json → Members → Members

abbrev pub items : List Json → Items
items [] = no_items
items (j ∷ js) = item j (items js)

abbrev pub item_list : Items → List Json
item_list no_items = []
item_list (item j js) = j ∷ item_list js

abbrev pub members : List (Text × Json) → Members
members [] = no_members
members ((k, j) ∷ ms) = member k j (members ms)

abbrev pub find : Text → Members → Option Json
find k no_members = none
find k (member l j ms) = if text_eq l k then some j else find k ms

abbrev pub first_key : Members → Option Text
first_key no_members = none
first_key (member k j ms) = some k

abbrev pub is_null : Json → Bool
is_null null = true
is_null (bool b) = false
is_null (number n) = false
is_null (string s) = false
is_null (array js) = false
is_null (object ms) = false

abbrev pub as_str : Json → Option Text
as_str null = none
as_str (bool b) = none
as_str (number n) = none
as_str (string s) = some s
as_str (array js) = none
as_str (object ms) = none

abbrev pub as_array : Json → Option (List Json)
as_array null = none
as_array (bool b) = none
as_array (number n) = none
as_array (string s) = none
as_array (array js) = some (item_list js)
as_array (object ms) = none

abbrev pub as_object : Json → Option Members
as_object null = none
as_object (bool b) = none
as_object (number n) = none
as_object (string s) = none
as_object (array js) = none
as_object (object ms) = some ms

abbrev pub get : Text → Json → Option Json
get k null = none
get k (bool b) = none
get k (number n) = none
get k (string s) = none
get k (array js) = none
get k (object ms) = find k ms

abbrev pub str : String → Json
str s = string (text s)

infix 68 ◌:=◌
abbrev pub ◌:=◌ : String → Json → Text × Json
k := j = (text k, j)

abbrev pub obj : List (Text × Json) → Json
obj ms = object (members ms)

abbrev pub list : List Json → Json
list js = array (items js)

-- A list with one string, as header values are.
abbrev pub only : Json → Json
only j = list (j ∷ [])

abbrev pub strings : List Text → Json
strings ss = list (map string ss)

pub item_list-items : (js : List Json) → item_list (items js) ≡ js
item_list-items [] = refl
item_list-items (j ∷ js) = ap (λ l. j ∷ l) (item_list-items js)

unfoldable mutual
  unfolding text_eq

  pub json_eq : Json → Json → Bool
  json_eq null k = elim k [ null ↦ true | _ ↦ false ]
  json_eq (bool b) k = elim k [ bool c ↦ if b then c else not c | _ ↦ false ]
  json_eq (number m) k = elim k [ number n ↦ m == n | _ ↦ false ]
  json_eq (string s) k = elim k [ string t ↦ text_eq s t | _ ↦ false ]
  json_eq (array js) k = elim k [ array ks ↦ items_eq js ks | _ ↦ false ]
  json_eq (object ms) k = elim k [ object ns ↦ members_eq ms ns | _ ↦ false ]

  pub items_eq : Items → Items → Bool
  items_eq no_items ks = elim ks [ no_items ↦ true | item k ls ↦ false ]
  items_eq (item j js) ks = elim ks [ no_items ↦ false | item k ls ↦ json_eq j k && items_eq js ls ]

  pub members_eq : Members → Members → Bool
  members_eq no_members ns = elim ns [ no_members ↦ true | member l k os ↦ false ]
  members_eq (member i j ms) ns = elim ns [
    | no_members ↦ false
    | member l k os ↦ text_eq i l && json_eq j k && members_eq ms os
  ]
