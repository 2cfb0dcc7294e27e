-- ===== src/Base/Text.antt =====
-- What the source uses of Go's package strings, on native texts. Letters are those of ASCII.
use Prim.Native.Nat.{ℕ, ◌+◌, ◌%◌, compare, Ordering}
use Prim.Native.Char.{Char, char, code, IsScalar}
use Prim.Native.String.{String, [], ◌∷◌, ◌++◌}
use mathlib.Core.Path.{◌≡◌, refl}
use mathlib.Core.Bool.{Bool, true, false, ◌&&◌, ◌||◌}
use mathlib.Core.List.{List}
use native.Mathlib.Omega.{arith}
use text.Mathlib.Text.{◌==◌}
use fund_kit.Base.Tests.{leb, eqb, if◌then◌else◌}

-- `unicode.IsSpace`, on a code.
abbrev pub is_space_code : ℕ → Bool
is_space_code n =
    (leb 9 n && leb n 13)
    || eqb n 0x20
    || eqb n 0x85
    || eqb n 0xa0
    || eqb n 0x1680
    || (leb 0x2000 n && leb n 0x200a)
    || eqb n 0x2028
    || eqb n 0x2029
    || eqb n 0x202f
    || eqb n 0x205f
    || eqb n 0x3000

abbrev pub is_space : Char → Bool
is_space c = is_space_code (code c)

pub ascii-IsScalar : (n : ℕ) → IsScalar (n % 128)
ascii-IsScalar n = let below : compare (n % 128) 55296 ≡ Ordering.lt = ground arith in rw below tt

ascii : ℕ → Char
ascii n = char (n % 128) (ascii-IsScalar n)

abbrev pub is_upper : Char → Bool
is_upper c = leb b'A' (code c) && leb (code c) b'Z'

unfoldable pub lower : Char → Char
unfolding ascii
lower c = if is_upper c then ascii (code c + 32) else c

unfoldable pub to_lower : String → String
unfolding lower
to_lower [] = []
to_lower (c ∷ s) = lower c ∷ to_lower s

unfoldable pub trim_left : String → String
trim_left [] = []
trim_left (c ∷ s) = let rest = trim_left s in if is_space c then rest else c ∷ s

unfoldable pub trim_right : String → String
trim_right [] = []
trim_right (c ∷ s) = let rest = trim_right s in if (rest == "") && is_space c then [] else c ∷ rest

-- `strings.TrimSpace`.
unfoldable pub trim_space : String → String
unfolding trim_left trim_right
trim_space s = trim_right (trim_left s)

-- `strings.Fields`: the words between white space. `word` is the one that is being read.
fields_from : String → String → List String
fields_from word [] = if word == "" then List.[] else List.◌∷◌ word List.[]
fields_from word (c ∷ s) =
    let closed = fields_from "" s in
    let longer = fields_from (word ++ (c ∷ [])) s in
    if is_space c then (if word == "" then closed else List.◌∷◌ word closed) else longer

unfoldable pub fields : String → List String
unfolding fields_from
fields s = fields_from "" s

-- `strings.EqualFold`, against a lower-case text of letters that fold only within ASCII.
unfoldable pub equal_fold : String → String → Bool
equal_fold s t = to_lower s == t

trim_test : to_lower (trim_space "  Alice@X.COM ") ≡ "alice@x.com"
unfolding to_lower trim_space
trim_test = refl

fields_test : fields " Bearer  abc " ≡ List.◌∷◌ "Bearer" (List.◌∷◌ "abc" List.[])
unfolding fields
fields_test = refl

starts_with : String → String → Bool
starts_with s [] = true
starts_with [] (c ∷ t) = false
starts_with (d ∷ s) (c ∷ t) = eqb (code d) (code c) && starts_with s t

-- `strings.Contains`.
unfoldable pub contains_text : String → String → Bool
unfolding starts_with
contains_text [] part = starts_with [] part
contains_text (c ∷ s) part = starts_with (c ∷ s) part || contains_text s part

pub fields-nil : fields "" ≡ List.[]
unfolding fields
fields-nil = refl

-- `strings.Split(text, ",")`. `part` is what has been read of the current part.
split_from : String → String → List String
split_from part [] = List.◌∷◌ part List.[]
split_from part (c ∷ s) =
    let next = split_from "" s in
    let longer = split_from (part ++ (c ∷ [])) s in
    if eqb (code c) b',' then List.◌∷◌ part next else longer

unfoldable pub split_commas : String → List String
unfolding split_from
split_commas s = split_from "" s
