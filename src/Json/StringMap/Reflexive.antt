-- ===== src/Json/StringMap/Reflexive.antt =====
-- A map of strings is deeply equal to itself.
use provider_osb.Base.{
  ℕ, String, Bool, true, false, ◌&&◌, ◌≡◌, refl, none, some, [], ◌∷◌, arith, eq_iff, length,
  nat_eqb,
}
use provider_osb.Json.StringMap.{Entries, StringMap, lookup, included, string_maps_equal}

-- No key stands twice, as in each map of Go.
unfoldable pub distinct_entries : Entries → Bool
unfolding lookup
distinct_entries [] = true
distinct_entries ((k, v) ∷ m) =
    elim (lookup k m) [ none ↦ true | some w ↦ false ] && distinct_entries m

unfoldable pub distinct_map : StringMap → Bool
unfolding distinct_entries
distinct_map none = true
distinct_map (some m) = distinct_entries m

-- Each entry that is found in the first is found in the second.
unfoldable pub Included : Entries → Entries → Type 0
Included m n = (k v : String) → lookup k m ≡ some v → lookup k n ≡ some v

pub Included-head : (k v : String) (m n : Entries) → Included ((k, v) ∷ m) n → lookup k n ≡ some v
unfolding Included lookup
Included-head k v m n h = h k v (ground (arith, eq_iff k k))

pub Included-tail :
    (k v : String) (m n : Entries)
    → distinct_entries ((k, v) ∷ m) ≡ true
    → Included ((k, v) ∷ m) n
    → Included m n
unfolding Included lookup distinct_entries
Included-tail k v m n d h j x found = h j x (ground (arith, eq_iff k j, eq_iff k k))

pub distinct-tail :
    (k v : String) (m : Entries) → distinct_entries ((k, v) ∷ m) ≡ true → distinct_entries m ≡ true
unfolding distinct_entries
distinct-tail k v m d = ground arith

pub included-Included :
    (m n : Entries) → Included m n → distinct_entries m ≡ true → included m n ≡ true
unfolding included
included-Included [] n i d = refl
included-Included ((k, v) ∷ m) n i d = ground (
  arith,
  Included-head k v m n i,
  eq_iff v v,
  included-Included m n (Included-tail k v m n d i) (distinct-tail k v m d),
)

length_refl : (n : ℕ) → nat_eqb n n ≡ true
length_refl n = ground arith

pub string_maps_equal_refl : (m : StringMap) → distinct_map m ≡ true → string_maps_equal m m ≡ true
unfolding string_maps_equal distinct_map Included
string_maps_equal_refl none d = refl
string_maps_equal_refl (some m) d =
    ground (arith, length_refl (length m), included-Included m m (λ k v found. found))
