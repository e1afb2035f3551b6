-- ===== src/Workflow/Expression/Value.antt =====
-- The operations on values, and the functions that an expression can call.
use Prim.Native.Nat.{Ordering}
use ferris_cms.Prelude.{
  ℕ, zero, suc, ◌-◌, Bool, true, false, not, ◌&&◌, ◌||◌, Option, none, some, List, [], ◌∷◌, ◌++◌,
  is_empty, length, get_elem?, Text, lit, text_eq, ◌==◌, ltb, if◌then◌else◌,
}
use ferris_cms.Prelude.Int.{ℤ, pos, negsuc}
use ferris_cms.Schema.Payload.{
  Json, Items, Fields, null, bool, number, str, array, object, nil, cons, end, field,
}
use ferris_cms.Workflow.Expression.{Std, Result, ok, err}

abbrev pub or_default : {A : Type 0} → Option A → A → A
or_default none d = d
or_default (some a) d = a

-- `starts_with`, `contains` and `ends_with` of texts, and their order
unfoldable pub starts_with : Text → Text → Bool
starts_with s [] = true
starts_with [] (c ∷ t) = false
starts_with (d ∷ s) (c ∷ t) = d == c && starts_with s t

unfoldable pub contains_text : Text → Text → Bool
unfolding starts_with
contains_text [] t = is_empty t
contains_text (c ∷ s) t = starts_with (c ∷ s) t || contains_text s t

unfoldable pub ends_with : Text → Text → Bool
unfolding text_eq
ends_with [] t = is_empty t
ends_with (c ∷ s) t = text_eq (c ∷ s) t || ends_with s t

unfoldable pub compare_text : Text → Text → Ordering
compare_text [] [] = Ordering.eq
compare_text [] (d ∷ t) = Ordering.lt
compare_text (c ∷ s) [] = Ordering.gt
compare_text (c ∷ s) (d ∷ t) =
    if ltb c d then Ordering.lt else if ltb d c then Ordering.gt else compare_text s t

-- a word of the language for booleans, as `to_string` prints it
abbrev print_bool : Bool → Text
print_bool true = lit "true"
print_bool false = lit "false"

module _ {N : Type 0} where
  -- `Map::get`, and the length and the elements of an array
  unfoldable pub get_member : Text → Fields N → Option (Json N)
  unfolding text_eq
  get_member k end = none
  get_member k (field j v fs) = if text_eq k j then some v else get_member k fs

  abbrev pub count : Items N → ℕ
  count nil = 0
  count (cons v vs) = suc (count vs)

  abbrev pub count_fields : Fields N → ℕ
  count_fields end = 0
  count_fields (field k v fs) = suc (count_fields fs)

  unfoldable pub get_item : ℕ → Items N → Option (Json N)
  get_item i nil = none
  get_item zero (cons v vs) = some v
  get_item (suc i) (cons v vs) = get_item i vs

  -- `item.get(s) == Some(&Value::Bool(true))`
  abbrev is_marked : Text → Json N → Bool
  is_marked s (object fs) = elim (get_member s fs) [ some (bool b) ↦ b | _ ↦ false ]
  is_marked s _ = false

  unfoldable pub find_marked : Text → Items N → Option (Json N)
  unfolding get_member
  find_marked s nil = none
  find_marked s (cons v vs) = if is_marked s v then some v else find_marked s vs

  unfoldable pub get_field : Json N → Text → Json N
  unfolding get_member
  get_field (object fs) name = or_default (get_member name fs) null
  get_field _ name = null

  -- the element at an index, from the end where it is negative
  unfoldable pub item_at : ℤ → Items N → Option (Json N)
  unfolding get_item
  item_at (pos i) vs = get_item i vs
  item_at (negsuc i) vs = if ltb i (count vs) then get_item (count vs - suc i) vs else none

module _ {N F : Type 0} (std : Std N F) where
  abbrev opt_i64 : N → Items N → Option (Json N)
  opt_i64 n vs = elim (std.as_i64 n) [ some i ↦ item_at i vs | none ↦ none ]

  unfoldable pub index_value : Json N → Json N → Json N
  unfolding item_at find_marked get_member
  index_value (array vs) (number n) = or_default (opt_i64 n vs) null
  index_value (array vs) (str s) = or_default (find_marked s vs) null
  index_value (object fs) (str s) = or_default (get_member s fs) null
  index_value _ _ = null

  unfoldable pub stringify : Json N → Text
  stringify null = []
  stringify (str s) = s
  stringify (bool b) = print_bool b
  stringify (number n) = std.print (number n)
  stringify (array vs) = std.print (array vs)
  stringify (object fs) = std.print (object fs)

  unfoldable pub number_value : F → Json N
  number_value n =
      if std.is_whole n && std.is_small n then std.of_i64 (std.to_i64 n) else std.of_f64 n

  unfoldable pub truthy : Json N → Bool
  truthy null = false
  truthy (bool b) = b
  truthy (number n) = elim (std.as_f64 n) [ some f ↦ not (std.feq f std.zero_f64) | none ↦ false ]
  truthy (str s) = not (is_empty s)
  truthy (array vs) = not (count vs == 0)
  truthy (object fs) = not (count_fields fs == 0)

  abbrev eq_f64 : Option F → Option F → Bool
  eq_f64 none none = true
  eq_f64 (some a) (some b) = std.feq a b
  eq_f64 _ _ = false

  abbrev eq_bool : Bool → Bool → Bool
  eq_bool true b = b
  eq_bool false b = not b

  unfoldable pub loose_eq : Json N → Json N → Bool
  unfolding text_eq
  loose_eq (number x) (number y) = eq_f64 (std.as_f64 x) (std.as_f64 y)
  loose_eq (str x) (str y) = text_eq x y
  loose_eq (bool x) (bool y) = eq_bool x y
  loose_eq null null = true
  loose_eq (number x) (str y) = text_eq (std.print (number x)) (std.print (str y))
  loose_eq (str x) (number y) = text_eq (std.print (str x)) (std.print (number y))
  loose_eq (array x) (array y) = std.equal (array x) (array y)
  loose_eq (object x) (object y) = std.equal (object x) (object y)
  loose_eq _ _ = false

  -- `partial_cmp` of two `Option<f64>`
  abbrev cmp_f64 : Option F → Option F → Option Ordering
  cmp_f64 none none = some Ordering.eq
  cmp_f64 none (some b) = some Ordering.lt
  cmp_f64 (some a) none = some Ordering.gt
  cmp_f64 (some a) (some b) = std.partial_cmp a b

  unfoldable pub cmp : Json N → Json N → Option Ordering
  unfolding compare_text
  cmp (number x) (number y) = cmp_f64 (std.as_f64 x) (std.as_f64 y)
  cmp (str x) (str y) = some (compare_text x y)
  cmp _ _ = none

  unfoldable pub to_f64 : Json N → Option F
  to_f64 (number n) = std.as_f64 n
  to_f64 (str s) = std.parse_f64 s
  to_f64 null = some std.zero_f64
  to_f64 _ = none

  abbrev num_both : Option F → Option F → (F → F → F) → Json N
  num_both (some x) (some y) f = number_value (f x y)
  num_both _ _ f = null

  unfoldable pub num_bin : Json N → Json N → (F → F → F) → Json N
  unfolding to_f64 number_value
  num_bin a b f = num_both (to_f64 a) (to_f64 b) f

  unfoldable pub add_values : Json N → Json N → Json N
  unfolding stringify num_bin
  add_values (str x) y = str (x ++ stringify y)
  add_values x (str y) = str (stringify x ++ y)
  add_values x y = num_bin x y std.add

  abbrev first : List (Json N) → ℕ → Json N
  first args i = or_default (get_elem? args i) null

  abbrev length_of : Json N → ℕ
  length_of (str s) = length s
  length_of (array vs) = count vs
  length_of (object fs) = count_fields fs
  length_of _ = 0

  abbrev float : Json N → F
  float v = or_default (to_f64 v) std.zero_f64

  -- the functions by their names, the first that fits
  abbrev pub functions : List (Json N) → List (Text × Json N)
  functions args =
      let a = first args 0 in
      let s = stringify (first args 0) in
      let t = stringify (first args 1) in
      (lit "string", str s)
      ∷ (lit "number", std.of_f64 (float a))
      ∷ (lit "bool", bool (truthy a))
      ∷ (lit "length", std.of_i64 (pos (length_of a)))
      ∷ (lit "lower", str (std.to_lowercase s))
      ∷ (lit "lowerCase", str (std.to_lowercase s))
      ∷ (lit "upper", str (std.to_uppercase s))
      ∷ (lit "upperCase", str (std.to_uppercase s))
      ∷ (lit "trim", str (std.trim s))
      ∷ (lit "floor", std.of_i64 (std.to_i64 (std.floor (float a))))
      ∷ (lit "ceil", std.of_i64 (std.to_i64 (std.ceil (float a))))
      ∷ (lit "round", std.of_i64 (std.to_i64 (std.round (float a))))
      ∷ (lit "contains", bool (contains_text s t))
      ∷ (lit "startsWith", bool (starts_with s t))
      ∷ (lit "endsWith", bool (ends_with s t))
      ∷ (lit "date", str s)
      ∷ (lit "now", str [])
      ∷ (lit "json", a)
      ∷ (lit "not", bool (not (truthy a)))
      ∷ []

  unfoldable pub call_named : Text → List (Text × Json N) → Result (Json N)
  unfolding text_eq
  call_named name [] = err
  call_named name ((f, v) ∷ fs) = if text_eq name f then ok v else call_named name fs

  unfoldable pub call_function : Text → List (Json N) → Result (Json N)
  unfolding call_named to_f64 stringify truthy contains_text starts_with ends_with
  call_function name args = call_named name (functions args)
