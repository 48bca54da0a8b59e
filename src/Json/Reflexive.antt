-- ===== src/Json/Reflexive.antt =====
-- A JSON value is deeply equal to itself.
use provider_osb.Base.{ℕ, String, Bool, true, false, ◌&&◌, ◌≡◌, refl, some, arith, eq_iff, nat_eqb}
use provider_osb.Json.{
  Value, null, boolean, number, text, array, object, Values, nil, cons, Fields, end, field,
  lookup_field, distinct_keys, deep_equal, deep_equal_values, fields_included, deep_equal_maps,
  float_eq, count_fields,
}

-- No key stands twice in any map of the value, as in each value that a JSON reader returns.
unfoldable mutual
  pub well_keyed : Value → Bool
  well_keyed null = true
  well_keyed (boolean b) = true
  well_keyed (number n) = true
  well_keyed (text s) = true
  well_keyed (array vs) = well_keyed_values vs
  well_keyed (object m) = distinct_keys m && well_keyed_fields m

  pub well_keyed_values : Values → Bool
  well_keyed_values nil = true
  well_keyed_values (cons v vs) = well_keyed v && well_keyed_values vs

  pub well_keyed_fields : Fields → Bool
  well_keyed_fields end = true
  well_keyed_fields (field k v m) = well_keyed v && well_keyed_fields m

-- Each entry that is found in the first is found in the second.
Included : Fields → Fields → Type 0
Included m n = (k : String) (v : Value) → lookup_field k m ≡ some v → lookup_field k n ≡ some v

Included-head :
    (k : String) (v : Value) (m n : Fields) → Included (field k v m) n → lookup_field k n ≡ some v
unfolding Included
Included-head k v m n h = h k v (ground (arith, eq_iff k k))

Included-tail :
    (k : String) (v : Value) (m n : Fields)
    → distinct_keys (field k v m) ≡ true
    → Included (field k v m) n
    → Included m n
unfolding Included
Included-tail k v m n d h j x found = h j x (ground (arith, eq_iff k j, eq_iff k k))

distinct-tail :
    (k : String) (v : Value) (m : Fields)
    → distinct_keys (field k v m) ≡ true
    → distinct_keys m ≡ true
distinct-tail k v m d = ground arith

and-true : (a b : Bool) → a ≡ true → b ≡ true → (a && b) ≡ true
and-true a b g h = ground arith

true-and : (a b : Bool) → (a && b) ≡ true → (a ≡ true) × (b ≡ true)
true-and a b h = (ground arith, ground arith)

nat_eqb_refl : (n : ℕ) → nat_eqb n n ≡ true
nat_eqb_refl n = ground arith

mutual
  unfolding well_keyed deep_equal float_eq Included

  deep_equal_refl : (v : Value) → well_keyed v ≡ true → deep_equal v v ≡ true
  deep_equal_refl null h = refl
  deep_equal_refl (boolean true) h = refl
  deep_equal_refl (boolean false) h = refl
  deep_equal_refl (number n) h = ground (arith, nat_eqb_refl n)
  deep_equal_refl (text s) h = ground (arith, eq_iff s s)
  deep_equal_refl (array vs) h = deep_equal_values_refl vs h
  deep_equal_refl (object m) h =
      let (distinct, keyed) = true-and (distinct_keys m) (well_keyed_fields m) h in
      and-true _ _ (nat_eqb_refl (count_fields m))
        (fields_included-Included m m (λ k v found. found) distinct keyed)

  deep_equal_values_refl :
      (vs : Values) → well_keyed_values vs ≡ true → deep_equal_values vs vs ≡ true
  deep_equal_values_refl nil h = refl
  deep_equal_values_refl (cons v vs) h =
      let (head, tail) = true-and (well_keyed v) (well_keyed_values vs) h in
      and-true _ _ (deep_equal_refl v head) (deep_equal_values_refl vs tail)

  fields_included-Included :
      (m n : Fields)
      → Included m n
      → distinct_keys m ≡ true
      → well_keyed_fields m ≡ true
      → fields_included m n ≡ true
  fields_included-Included end n i d h = refl
  fields_included-Included (field k v m) n i d h =
      let (head, tail) = true-and (well_keyed v) (well_keyed_fields m) h in
      rw (Included-head k v m n i) (
        and-true _ _ (deep_equal_refl v head)
          (fields_included-Included m n (Included-tail k v m n d i) (distinct-tail k v m d) tail))

-- A map that a JSON reader returned is deeply equal to itself, so parameters that the broker gives
-- back are no difference.
pub deep_equal_maps_refl :
    (m : Fields) → well_keyed (object m) ≡ true → deep_equal_maps (some m) (some m) ≡ true
unfolding deep_equal_maps
deep_equal_maps_refl m h = deep_equal_refl (object m) h
