-- ===== src/Json/StringMap.antt =====
-- Go's `map[string]string`, and `reflect.DeepEqual` on it.
pub mod Extensional
pub mod Reflexive
use provider_osb.Base.{
  String, Bool, true, false, ◌&&◌, Option, none, some, List, [], ◌∷◌, ◌==◌, length, nat_eqb,
  if◌then◌else◌,
}

-- The entries in any order.
abbrev pub Entries : Type 0
Entries = List (String × String)

-- `none` is the nil map.
abbrev pub StringMap : Type 0
StringMap = Option Entries

unfoldable pub lookup : String → Entries → Option String
lookup k [] = none
lookup k ((j, v) ∷ m) = if j == k then some v else lookup k m

-- The key is there, with this value.
unfoldable pub has_entry : String → String → Entries → Bool
unfolding lookup
has_entry k v m = elim (lookup k m) [ none ↦ false | some w ↦ v == w ]

unfoldable pub included : Entries → Entries → Bool
unfolding has_entry
included [] n = true
included ((k, v) ∷ m) n = has_entry k v n && included m n

-- As long, and every entry of the first is in the second; a nil map and an empty one differ.
unfoldable pub string_maps_equal : StringMap → StringMap → Bool
unfolding included
string_maps_equal none none = true
string_maps_equal (some m) (some n) = nat_eqb (length m) (length n) && included m n
string_maps_equal _ _ = false
