-- ===== src/Json/StringMap/Extensional.antt =====
-- Two maps of strings are deeply equal exactly if every lookup agrees: a count of the entries.
use mathlib.Core.Option.{map}
use provider_osb.Base.{
  suc, ◌≤◌, String, Bool-cases, Option-cases, sym, ◌∙◌, ap, true, ◌≡◌, ◌≢◌, ◌↔◌, ◌==◌, refl, none,
  some, inl, inr, [], ◌∷◌, arith, eq_iff, length, if◌then◌else◌,
}
use provider_osb.Json.StringMap.{Entries, StringMap, lookup, has_entry, included, string_maps_equal}
use provider_osb.Json.StringMap.Reflexive.{
  Included, Included-head, Included-tail, distinct-tail, included-Included, distinct_entries,
  distinct_map,
}

-- The entries without the key.
remove : String → Entries → Entries
remove k [] = []
remove k ((j, v) ∷ m) = if j == k then m else (j, v) ∷ remove k m

length-remove :
    (k v : String) (m : Entries) → lookup k m ≡ some v → suc (length (remove k m)) ≡ length m
unfolding remove lookup
length-remove k v [] h = absurd (ground arith)
length-remove k v ((j, w) ∷ m) h = elim (Bool-cases (j == k)) [
  | inl same ↦ rw same refl
  | inr other ↦ let rest = length-remove k v m (ground arith) in rw (other, rest) refl
]

lookup-remove : (k j : String) (m : Entries) → k ≢ j → lookup j (remove k m) ≡ lookup j m
unfolding remove lookup
lookup-remove k j [] h = refl
lookup-remove k j ((i, w) ∷ m) h = ground (arith, eq_iff i k, eq_iff i j, lookup-remove k j m h)

Included-remove :
    (k v : String) (m n : Entries)
    → distinct_entries ((k, v) ∷ m) ≡ true
    → Included ((k, v) ∷ m) n
    → Included m (remove k n)
unfolding Included distinct_entries
Included-remove k v m n d i j x found =
    let elsewhere : k ≢ j =
      λ same. (let here : lookup k m ≡ some x = rw same found in ground arith) in
    rw (lookup-remove k j n elsewhere) (Included-tail k v m n d i j x found)

length-le : (m n : Entries) → distinct_entries m ≡ true → Included m n → length m ≤ length n
length-le [] n d i = omega arith
length-le ((k, v) ∷ m) n d i =
    let here = length-remove k v n (Included-head k v m n i) in
    let rest = length-le m (remove k n) (distinct-tail k v m d) (Included-remove k v m n d i) in
    omega arith

-- As many entries: then there is no other.
Included-back :
    (m n : Entries) → distinct_entries m ≡ true → Included m n → length m ≡ length n → Included n m
unfolding Included lookup
Included-back [] [] d i same j x found = found
Included-back [] (e ∷ n) d i same j x found = absurd (omega arith)
Included-back ((k, v) ∷ m) n d i same j x found =
    let here = length-remove k v n (Included-head k v m n i) in
    let back =
      Included-back m (remove k n) (distinct-tail k v m d) (Included-remove k v m n d i)
        (omega arith) in
    elim (Bool-cases (k == j)) [
      | inl at ↦ ground (arith, eq_iff k j, Included-head k v m n i)
      | inr other ↦ ground (arith, eq_iff k j, lookup-remove k j n, back j x)
    ]

has_entry-only_if : (k v : String) (n : Entries) → has_entry k v n ≡ true → lookup k n ≡ some v
unfolding has_entry
has_entry-only_if k v n h = elim (Option-cases (lookup k n)) [
  | inl absent ↦ absurd (ground (arith, absent))
  | inr (w, there) ↦ ground (arith, there, eq_iff v w)
]

included-only_if : (m n : Entries) → included m n ≡ true → Included m n
unfolding Included included lookup
included-only_if [] n h k x found = absurd (ground arith)
included-only_if ((j, v) ∷ m) n h k x found = elim (Bool-cases (j == k)) [
  | inl at ↦ ground (arith, eq_iff j k, has_entry-only_if j v n)
  | inr other ↦ included-only_if m n (ground arith) k x (ground arith)
]

same-lookups :
    (m n : Entries) → Included m n → Included n m → (k : String) → lookup k m ≡ lookup k n
unfolding Included
same-lookups m n there back k = elim (Option-cases (lookup k m)) [
  | inl absent ↦ elim (Option-cases (lookup k n)) [
    | inl gone ↦ absent ∙ sym gone
    | inr (v, found) ↦ let kept = back k v found in absurd (ground (arith, absent))
  ]
  | inr (v, found) ↦ found ∙ sym (there k v found)
]

-- What a map of Go is to those who read it: nil or not, and the value at each key.
unfoldable pub SameMap : StringMap → StringMap → Type 0
SameMap m n = (k : String) → map (lookup k) m ≡ map (lookup k) n

string_maps_equal-only_if :
    (m n : StringMap) → distinct_map m ≡ true → string_maps_equal m n ≡ true → SameMap m n
unfolding SameMap string_maps_equal distinct_map Included
string_maps_equal-only_if none none d h k = refl
string_maps_equal-only_if none (some n) d h k = absurd (ground arith)
string_maps_equal-only_if (some m) none d h k = absurd (ground arith)
string_maps_equal-only_if (some m) (some n) d h k =
    let there = included-only_if m n (ground arith) in
    let back = Included-back m n d there (ground arith) in ap some (same-lookups m n there back k)

map-Included : (m n : Entries) → SameMap (some m) (some n) → Included m n
unfolding SameMap Included
map-Included m n h k v found = let same = h k in ground arith

string_maps_equal-if :
    (m n : StringMap)
    → distinct_map m ≡ true
    → distinct_map n ≡ true
    → SameMap m n
    → string_maps_equal m n ≡ true
unfolding SameMap string_maps_equal distinct_map Included
string_maps_equal-if none none d e h = refl
string_maps_equal-if none (some n) d e h = absurd (let differ = h "" in ground arith)
string_maps_equal-if (some m) none d e h = absurd (let differ = h "" in ground arith)
string_maps_equal-if (some m) (some n) d e h =
    let there = map-Included m n h in
    let back = map-Included n m (λ k. sym (h k)) in
    let as_long = length-le m n d there in
    let as_short = length-le n m e back in let all = included-Included m n there d in ground arith

pub string_maps_equal_iff :
    (m n : StringMap)
    → distinct_map m ≡ true
    → distinct_map n ≡ true
    → (string_maps_equal m n ≡ true) ↔ SameMap m n
string_maps_equal_iff m n d e = (string_maps_equal-only_if m n d, string_maps_equal-if m n d e)
