-- ===== src/Value/Text.antt =====
-- str(), repr() and int() of the JSON values, as CPython computes them.
use Prim.Native.Char.{code}
use Prim.Native.String.{◌++◌ as text_append}
use ker_mp.Prelude.{
  Bool, List, Option, String, [], false, if◌then◌else◌, leb, ltb, none, not, refl, some, suc,
  text_eq, true, zero, ℕ, ◌%◌, ◌&&◌, ◌*◌, ◌+◌, ◌-◌, ◌/◌, ◌==◌, ◌||◌, ◌∷◌, ◌≡◌,
}
use ker_mp.Prelude.Int.{negsuc, pos, ℤ}
use ker_mp.Prelude.Errors.{Result, ok, raise, type_error, value_error}
use ker_mp.Value.Data.{
  Fields, Items, Payload, Value, arr, bool, cons, end, field, float, int, nil, null, obj, of_fields,
  string,
}

abbrev pub join : String → String → String
join s t = text_append s t

abbrev digit : ℕ → String
digit n =
    if n == 0
    then "0"
    else if n == 1
    then "1"
    else if n == 2
    then "2"
    else if n == 3
    then "3"
    else if n == 4
    then "4"
    else if n == 5
    then "5"
    else if n == 6
    then "6"
    else if n == 7
    then "7"
    else if n == 8
    then "8"
    else "9"

-- The digits of `n`; a number has at most as many digits as its value, plus one.
digits : ℕ → ℕ → String → String
digits zero n rest = rest
digits (suc f) n rest =
    let here = join (digit (n % 10)) rest in
    let more = digits f (n / 10) here in if ltb n 10 then here else more

unfoldable pub decimal : ℕ → String
unfolding digits
decimal n = digits (n + 1) n ""

unfoldable pub str_int : ℤ → String
unfolding decimal
str_int (pos n) = decimal n
str_int (negsuc n) = join "-" (decimal (n + 1))

hex_digit : ℕ → String
hex_digit n =
    if ltb n 10
    then digit n
    else if n == 10
    then "a"
    else if n == 11
    then "b"
    else if n == 12
    then "c"
    else if n == 13
    then "d"
    else if n == 14
    then "e"
    else "f"

has_char : ℕ → String → Bool
has_char n String.[] = false
has_char n (String.◌∷◌ c s) = code c == n || has_char n s

-- repr of the characters of a text between quotes `q`
escaped : ℕ → String → String
unfolding hex_digit
escaped q String.[] = ""
escaped q (String.◌∷◌ c s) =
    let rest = escaped q s in
    let n = code c in
    if n == 92
    then join "\\\\" rest
    else if n == 10
    then join "\\n" rest
    else if n == 13
    then join "\\r" rest
    else if n == 9
    then join "\\t" rest
    else if n == q
    then join "\\" (String.◌∷◌ c rest)
    else if ltb n 32 || n == 127
    then join (join "\\x" (join (hex_digit (n / 16)) (hex_digit (n % 16)))) rest
    else String.◌∷◌ c rest

-- Double quotes only where the text has a single quote and no double quote.
unfoldable pub repr_text : String → String
unfolding has_char escaped
repr_text s =
    if has_char 39 s && not (has_char 34 s)
    then join "\"" (join (escaped 34 s) "\"")
    else join "'" (join (escaped 39 s) "'")

mutual
  unfolding repr_text str_int

  pub repr : Value → String
  repr null = "None"
  repr (bool true) = "True"
  repr (bool false) = "False"
  repr (int z) = str_int z
  repr (float z r) = r
  repr (string s) = repr_text s
  repr (arr xs) = join "[" (join (repr_items xs) "]")
  repr (obj fs) = join "{" (join (repr_fields fs) "}")

  repr_items : Items → String
  repr_items nil = ""
  repr_items (cons v xs) = join (repr v) (repr_more xs)

  repr_more : Items → String
  repr_more nil = ""
  repr_more (cons v xs) = join ", " (join (repr v) (repr_more xs))

  repr_fields : Fields → String
  repr_fields end = ""
  repr_fields (field k v fs) = join (repr_text k) (join ": " (join (repr v) (repr_rest fs)))

  repr_rest : Fields → String
  repr_rest end = ""
  repr_rest (field k v fs) =
      join ", " (join (repr_text k) (join ": " (join (repr v) (repr_rest fs))))

-- str(v)
unfoldable pub str : Value → String
unfolding repr
str (string s) = s
str v = repr v

is_space : ℕ → Bool
is_space n = n == 32 || (leb 9 n && leb n 13)

codes : String → List ℕ
codes String.[] = []
codes (String.◌∷◌ c s) = code c ∷ codes s

skip_space : List ℕ → List ℕ
unfolding is_space
skip_space [] = []
skip_space (c ∷ s) = let rest = skip_space s in elim (is_space c) [ true ↦ rest | false ↦ c ∷ s ]

-- The digits of an int literal behind the first one, with the text that is left out of account from
-- the first space on: it may hold spaces only.
int_rest : ℕ → Bool → List ℕ → Option ℕ
unfolding is_space skip_space
int_rest acc under [] = if under then none else some acc
int_rest acc under (c ∷ s) =
    let next = int_rest (acc * 10 + (c - 48)) false s in
    let gap = int_rest acc true s in
    let blank : Option ℕ = elim (skip_space s) [ [] ↦ some acc | _ ∷ _ ↦ none ] in
    if leb 48 c && leb c 57
    then next
    else if c == 95 && not under
    then gap
    else if is_space c && not under
    then blank
    else none

int_digits : List ℕ → Option ℕ
unfolding int_rest
int_digits [] = none
int_digits (c ∷ s) = if leb 48 c && leb c 57 then int_rest (c - 48) false s else none

negative : ℕ → ℤ
negative zero = pos 0
negative (suc n) = negsuc n

parse_int : List ℕ → Option ℤ
unfolding int_digits negative
parse_int [] = none
parse_int (c ∷ s) =
    if c == 45
    then elim (int_digits s) [ none ↦ none | some n ↦ some (negative n) ]
    else if c == 43
    then elim (int_digits s) [ none ↦ none | some n ↦ some (pos n) ]
    else elim (int_digits (c ∷ s)) [ none ↦ none | some n ↦ some (pos n) ]

-- int(v)
unfoldable pub to_int : Value → Result ℤ
unfolding parse_int codes skip_space repr_text
to_int (int z) = ok z
to_int (bool true) = ok (pos 1)
to_int (bool false) = ok (pos 0)
to_int (float (some z) r) = ok z
to_int (float none r) = raise (value_error "cannot convert float to integer")
to_int (string s) = elim (parse_int (skip_space (codes s))) [
  | some z ↦ ok z
  | none ↦ raise (value_error (join "invalid literal for int() with base 10: " (repr_text s)))
]
to_int v =
    raise (type_error "int() argument must be a string, a bytes-like object or a real number")

-- dict(v). A list of pairs, which dict() takes too, is sent by no part of the program, and is refused
-- here as a list of anything else.
unfoldable pub to_dict : Value → Result Payload
to_dict (obj fs) = ok (of_fields fs)
to_dict (arr nil) = ok []
to_dict (arr (cons v xs)) =
    raise (type_error "cannot convert dictionary update sequence element #0 to a sequence")
to_dict (string s) =
    if text_eq s ""
    then ok []
    else raise (value_error "dictionary update sequence element #0 has length 1; 2 is required")
to_dict v = raise (type_error "object is not iterable")

str-samples :
    (str (int (pos 1205)) ≡ "1205")
    × (str (int (negsuc 6)) ≡ "-7")
    × (str null ≡ "None")
    × (str (obj (field "a'b" (arr (cons (bool true) (cons (string "x") nil))) end))
        ≡ "{\"a'b\": [True, 'x']}")
unfolding str
str-samples = (refl, refl, refl, refl)

to_int-samples :
    (to_int (string " 1_205 ") ≡ ok (pos 1205))
    × (to_int (string "-7") ≡ ok (negsuc 6))
    × (to_int (string "7x") ≡ raise (value_error "invalid literal for int() with base 10: '7x'"))
unfolding to_int
to_int-samples = (refl, refl, refl)
