-- ===== src/Json.antt =====
-- What `encoding/json` decodes into `any`, and `reflect.DeepEqual` on it.
pub mod Reflexive
pub mod StringMap
use provider_osb.Base.{
  ℕ, suc, ◌^◌, String, Bool, true, false, ◌&&◌, ◌||◌, Option, none, some, ◌==◌, nat_eqb,
  if◌then◌else◌,
}

-- A number is the bit pattern of its float64. A map is a list of entries with distinct keys: their
-- order means nothing.
mutual
  pub data Value : Type 0 where
    null : Value
    boolean : Bool → Value
    number : ℕ → Value
    text : String → Value
    array : Values → Value
    object : Fields → Value

  pub data Values : Type 0 where
    nil : Values
    cons : Value → Values → Values

  pub data Fields : Type 0 where
    end : Fields
    field : String → Value → Fields → Fields

-- `map[string]any`: `none` is the nil map.
abbrev pub GoMap : Type 0
GoMap = Option Fields

-- `len(m)`: a nil map has no entries.
abbrev pub count_fields : Fields → ℕ
count_fields end = 0
count_fields (field k v m) = suc (count_fields m)

unfoldable pub is_empty_map : GoMap → Bool
is_empty_map none = true
is_empty_map (some end) = true
is_empty_map (some (field k v m)) = false

abbrev pub lookup_field : String → Fields → Option Value
lookup_field k end = none
lookup_field k (field j v m) = if j == k then some v else lookup_field k m

-- No key stands twice.
abbrev pub distinct_keys : Fields → Bool
distinct_keys end = true
distinct_keys (field k v m) =
    elim (lookup_field k m) [ none ↦ true | some w ↦ false ] && distinct_keys m

-- `==` on float64 patterns that are no NaN: the two zeros are equal.
unfoldable pub float_eq : ℕ → ℕ → Bool
float_eq a b =
    nat_eqb a b || ((nat_eqb a 0 || nat_eqb a (2 ^ 63)) && (nat_eqb b 0 || nat_eqb b (2 ^ 63)))

-- `reflect.DeepEqual`: arrays element by element; maps when they are as long, and every key of the
-- first has a deeply equal value in the second.
unfoldable mutual
  pub deep_equal : Value → Value → Bool
  deep_equal null null = true
  deep_equal (boolean true) (boolean b) = b
  deep_equal (boolean false) (boolean true) = false
  deep_equal (boolean false) (boolean false) = true
  deep_equal (number a) (number b) = float_eq a b
  deep_equal (text s) (text t) = s == t
  deep_equal (array xs) (array ys) = deep_equal_values xs ys
  deep_equal (object m) (object n) =
      nat_eqb (count_fields m) (count_fields n) && fields_included m n
  deep_equal _ _ = false

  pub deep_equal_values : Values → Values → Bool
  deep_equal_values nil nil = true
  deep_equal_values (cons x xs) (cons y ys) = deep_equal x y && deep_equal_values xs ys
  deep_equal_values _ _ = false

  pub fields_included : Fields → Fields → Bool
  fields_included end n = true
  fields_included (field k v m) n =
      elim (lookup_field k n) [ none ↦ false | some w ↦ deep_equal v w ] && fields_included m n

-- `reflect.DeepEqual` on `map[string]any`: a nil map and an empty one differ.
unfoldable pub deep_equal_maps : GoMap → GoMap → Bool
deep_equal_maps none none = true
deep_equal_maps (some m) (some n) = deep_equal (object m) (object n)
deep_equal_maps _ _ = false
