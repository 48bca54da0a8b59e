-- ===== src/Tests/OfTexts.antt =====
-- Texts and maps at which the properties of the conversions are run.
use Prim.Native.String.{[], ◌∷◌}
use provider_osb.Base.{suc, String, ◌≡◌, ◌↔◌, refl, ap, some, List, [] as none_left, ◌∷◌ as ◌then◌}
use provider_osb.Errors.{Fallible, done}
use provider_osb.Json.{Value, null, text, object, Fields, end, field, count_fields, lookup_field}
use provider_osb.Json.StringMap.{lookup}
use provider_osb.Platform.{Platform}
use provider_osb.Platform.Laws.{IsJson}
use provider_osb.Util.{get_creds_from_response}
use provider_osb.Util.Marshalling.{
  MarshalsTo, get_creds_from_response-MarshalsTo, extract_credentials-agrees,
}
use provider_osb.Binding.Operations.{extract_credentials}
use provider_osb.Tests.{test_platform}

-- A text that is as long as the map has entries.
abbrev tally : Fields → String
tally end = []
tally (field k v m) = "x" ∷ tally m

abbrev untally : String → Fields
untally [] = end
untally (c ∷ s) = field "x" null (untally s)

abbrev tally_value : Value → Fallible String
tally_value (object m) = done (tally m)
tally_value _ = done ""

-- A JSON that keeps the number of entries, and no more.
abbrev tally_platform : Platform
tally_platform = record test_platform {
  marshal_value = tally_value;
  unmarshal_map = λ t. done (some (untally t));
}

count-untally : (m : Fields) → count_fields (untally (tally m)) ≡ count_fields m
count-untally end = refl
count-untally (field k v m) = ap suc (count-untally m)

tally_platform-IsJson : IsJson tally_platform
tally_platform-IsJson = record {
  encode = tally;
  decoded = λ m. untally (tally m);
  marshal-object = λ m. refl;
  unmarshal-encode = λ m. refl;
  count-decoded = λ m d. count-untally m;
}

abbrev credentials : Fields
credentials = field "user" (text "admin") (field "password" (text "secret") end)

abbrev creds : List (String × String)
creds = ("user", "{\"a\":\"b\"}") then (("password", "{\"a\":\"b\"}") then none_left)

creds_read : get_creds_from_response test_platform (some credentials) ≡ done (some creds)
unfolding get_creds_from_response
creds_read = refl

get_creds_from_response-MarshalsTo_example :
    MarshalsTo test_platform (lookup_field "user" credentials) (lookup "user" creds)
get_creds_from_response-MarshalsTo_example =
    get_creds_from_response-MarshalsTo test_platform credentials creds "user" creds_read

extract_credentials-agrees_example :
    (get_creds_from_response test_platform (some credentials) ≡ done (some creds))
    ↔ (extract_credentials test_platform (some credentials) ≡ done (some creds))
extract_credentials-agrees_example =
    extract_credentials-agrees test_platform (some credentials) (some creds)
