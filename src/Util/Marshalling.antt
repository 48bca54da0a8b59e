-- ===== src/Util/Marshalling.antt =====
-- What the loops that marshal the credentials of a response make of them.
use provider_osb.Base.{String, ◌≡◌, ◌↔◌, inl, inr, Option, none, some, List, arith}
use provider_osb.Errors.{done, UtilError}
use provider_osb.Json.{Value, Fields, end, field, GoMap, lookup_field}
use provider_osb.Json.StringMap.{lookup}
use provider_osb.Platform.{Platform}
use provider_osb.Exec.Rules.{Fallible-cases}
use provider_osb.Util.{marshal_fields, get_creds_from_response, Credentials}
use provider_osb.Binding.Operations.{extract_fields, extract_credentials}

module _ (P : Platform) where
  -- The entry of a key in the result, for its entry in the map that was marshalled.
  abbrev pub MarshalsTo : Option Value → Option String → Type 0
  MarshalsTo none none = Unit
  MarshalsTo none (some b) = ⊥
  MarshalsTo (some v) none = ⊥
  MarshalsTo (some v) (some b) = P.marshal_value v ≡ done b

  pub marshal_fields-MarshalsTo :
      (e : UtilError) (m : Fields) (entries : List (String × String)) (k : String)
      → marshal_fields P e m ≡ done entries
      → MarshalsTo (lookup_field k m) (lookup k entries)
  unfolding marshal_fields lookup
  marshal_fields-MarshalsTo e end entries k h = ground arith
  marshal_fields-MarshalsTo e (field j v m) entries k h =
      elim (Fallible-cases (marshal_fields P e m)) [
        | inl (x, failed) ↦ ground arith
        | inr (rest, rest_done) ↦ ground (arith, marshal_fields-MarshalsTo e m rest k rest_done)
      ]

  -- Credentials that could be read have exactly the keys of the response, each with the JSON text of
  -- its value.
  pub get_creds_from_response-MarshalsTo :
      (m : Fields) (entries : List (String × String)) (k : String)
      → get_creds_from_response P (some m) ≡ done (some entries)
      → MarshalsTo (lookup_field k m) (lookup k entries)
  unfolding get_creds_from_response
  get_creds_from_response-MarshalsTo m entries k h =
      elim (Fallible-cases (marshal_fields P UtilError.marshal_credential m)) [
        | inl (x, failed) ↦ absurd (ground arith)
        | inr (rest, rest_done) ↦
            ground
              (arith, marshal_fields-MarshalsTo UtilError.marshal_credential m rest k rest_done)
      ]

  fields-agree :
      (e : UtilError) (m : Fields) (entries : List (String × String))
      → (marshal_fields P e m ≡ done entries) ↔ (extract_fields P m ≡ done entries)
  unfolding marshal_fields extract_fields
  fields-agree e end entries = ground arith
  fields-agree e (field k v m) entries = elim (Fallible-cases (marshal_fields P e m)) [
    | inl (x, failed) ↦ elim (Fallible-cases (extract_fields P m)) [
      | inl (y, also) ↦ ground arith
      | inr (rest, rest_done) ↦ ground (arith, fields-agree e m rest)
    ]
    | inr (rest, rest_done) ↦ ground (arith, fields-agree e m rest)
  ]

  -- A rotation extracts the same credentials from a response as a binding does, for every response
  -- of which either succeeds.
  pub extract_credentials-agrees :
      (credentials : GoMap) (creds : Credentials)
      → (get_creds_from_response P credentials ≡ done creds)
        ↔ (extract_credentials P credentials ≡ done creds)
  unfolding get_creds_from_response extract_credentials
  extract_credentials-agrees none creds = ground arith
  extract_credentials-agrees (some m) creds =
      elim (Fallible-cases (marshal_fields P UtilError.marshal_credential m)) [
        | inl (x, failed) ↦ elim (Fallible-cases (extract_fields P m)) [
          | inl (y, also) ↦ ground arith
          | inr (rest, rest_done) ↦ ground (arith, fields-agree UtilError.marshal_credential m rest)
        ]
        | inr (rest, rest_done) ↦ ground (arith, fields-agree UtilError.marshal_credential m rest)
      ]
