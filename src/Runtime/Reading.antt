-- ===== src/Runtime/Reading.antt =====
-- How kermp/runtime.py reads payloads.
use Prim.Native.Char.{Char, code}
use ker_mp.Prelude.{
  List, String, [], if◌then◌else◌, length, ltb, map, none, some, text_eq, ℕ, ◌*◌, ◌==◌, ◌∷◌,
}
use ker_mp.Prelude.Dict.{get, keys}
use ker_mp.Prelude.Int.{negsuc, ℤ}
use ker_mp.Prelude.Errors.{
  Result, attribute_error, key_error, ok, raise, type_error, value_error, ◌>>=◌,
}
use ker_mp.Value.{
  Payload, Value, arr, end, field, get_value, obj, of_fields, of_items, or_else, str, string,
}
use ker_mp.Net.{int_at, payloads}
use ker_mp.SaveSync.{Bytes}

abbrev pub max_game_message_bytes : ℕ
max_game_message_bytes = 2 * 1024 * 1024

-- payload[key]
unfoldable pub item : String → Payload → Result Value
item key d = elim (get key d) [ none ↦ raise (key_error key) | some v ↦ ok v ]

-- str(payload.get(key) or "")
unfoldable pub text_at : String → Payload → String
text_at key d = str (or_else (get_value key d) (string ""))

-- int(payload.get("epoch", -1))
unfoldable pub epoch_of : Payload → Result ℤ
epoch_of d = int_at "epoch" (negsuc 0) d

-- The characters of a text, as texts.
unfoldable pub letters : String → List String
letters String.[] = []
letters (String.◌∷◌ c s) = String.◌∷◌ c String.[] ∷ letters s

-- `[str(x) for x in payload.get(key, [])]`
unfoldable pub texts_at : String → Payload → Result (List String)
texts_at key d = elim (get key d) [
  | none ↦ ok []
  | some v ↦ elim v [
    | arr xs ↦ ok (map str (of_items xs))
    | obj fs ↦ ok (keys (of_fields fs))
    | string s ↦ ok (letters s)
    | _ ↦ raise (type_error "object is not iterable")
  ]
]

-- The entries of `payload.get("sims", [])`, of which `update_sims` reads each as a dict.
unfoldable pub given_sims : Payload → Result (List Payload)
given_sims d = elim (get "sims" d) [
  | none ↦ ok []
  | some v ↦ elim v [
    | arr xs ↦ payloads xs
    | obj end ↦ ok []
    | obj (field k x fs) ↦ raise attribute_error
    | string s ↦ if text_eq s "" then ok [] else raise attribute_error
    | _ ↦ raise (type_error "object is not iterable")
  ]
]

-- The letter of `small` at the place where `capital` has the character, which stays if it is not there.
lower_in : String → String → Char → Char
lower_in (String.◌∷◌ u us) (String.◌∷◌ l ls) c =
    let rest = lower_in us ls c in if code u == code c then l else rest
lower_in _ _ c = c

-- s.lower(), for the letters of the ASCII alphabet
unfoldable pub lower : String → String
unfolding lower_in
lower String.[] = String.[]
lower (String.◌∷◌ c s) =
    String.◌∷◌ (lower_in "ABCDEFGHIJKLMNOPQRSTUVWXYZ" "abcdefghijklmnopqrstuvwxyz" c) (lower s)

-- str(payload.get("kind", "")).lower()
unfoldable pub kind_of : Payload → String
kind_of d = let v : Value = elim (get "kind" d) [ none ↦ string "" | some k ↦ k ] in lower (str v)

-- `raw = base64.b64decode(str(payload["payload_b64"]), validate=True)`, and its bound
module _ (decode : String → Result Bytes) where
  unfoldable pub raw_of : Payload → Result Bytes
  unfolding item
  raw_of d = item "payload_b64" d >>= λ v. decode (str v) >>= λ raw.
      if ltb max_game_message_bytes (length raw)
      then raise (value_error "payload_too_large")
      else ok raw
