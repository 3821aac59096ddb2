-- ===== src/Shared/Text.antt =====
-- Texts: Go strings as native ones, with the operations of `strings`, `strconv` and `fmt` that the
-- program uses on them. A character is tested by its code.
use Prim.Native.Nat.{ℕ, zero, suc, ◌+◌, ◌-◌, ◌*◌, ◌/◌, ◌%◌, ◌^◌}
use Prim.Native.Char.{Char, code}
use Prim.Native.String.{String, ◌++◌}
use mathlib.Core.Path.{◌≡◌, refl}
use mathlib.Core.Bool.{Bool, true, false, ◌&&◌, ◌||◌}
use mathlib.Core.Option.{Option, none, some}
use mathlib.Core.List.{List, [], ◌∷◌}
use text.Mathlib.Text.{◌==◌ as str_eq}
use prometheus_multi_tenant.Shared.Tests.{◌==◌, leb, ltb, if◌then◌else◌}
use prometheus_multi_tenant.Shared.Int.{ℤ, pos, negsuc}

-- `s + t`
abbrev pub join : String → String → String
join s t = s ++ t

abbrev pub is_empty : String → Bool
is_empty s = str_eq s ""

-- `fmt.Sprintf("%s/%s", namespace, name)`
unfoldable pub namespaced : String → String → String
namespaced namespace name = namespace ++ ("/" ++ name)

-- Some character passes the test: `strings.ContainsAny`, and `strings.Contains` of one character.
unfoldable pub contains_any : (ℕ → Bool) → String → Bool
contains_any p String.[] = false
contains_any p (String.◌∷◌ c s) = p (code c) || contains_any p s

abbrev pub contains_char : ℕ → String → Bool
contains_char k = contains_any (λ c. c == k)

-- `strings.HasPrefix(s, t)`
unfoldable pub has_prefix : String → String → Bool
has_prefix s String.[] = true
has_prefix String.[] (String.◌∷◌ d t) = false
has_prefix (String.◌∷◌ c s) (String.◌∷◌ d t) = code c == code d && has_prefix s t

-- `strings.Contains(s, t)`
unfoldable pub contains : String → String → Bool
contains String.[] t = is_empty t
contains (String.◌∷◌ c s) t = has_prefix (String.◌∷◌ c s) t || contains s t

-- `strings.HasSuffix(s, t)` for a `t` of one character.
unfoldable pub has_last : ℕ → String → Bool
has_last k String.[] = false
has_last k (String.◌∷◌ c String.[]) = code c == k
has_last k (String.◌∷◌ c (String.◌∷◌ d s)) = has_last k (String.◌∷◌ d s)

unfoldable pub trim_left : (ℕ → Bool) → String → String
trim_left p String.[] = String.[]
trim_left p (String.◌∷◌ c s) =
    let rest = trim_left p s in if p (code c) then rest else String.◌∷◌ c s

unfoldable pub trim_right : (ℕ → Bool) → String → String
trim_right p String.[] = String.[]
trim_right p (String.◌∷◌ c s) =
    let rest = trim_right p s in
    if is_empty rest && p (code c) then String.[] else String.◌∷◌ c rest

-- `strings.Trim(s, cutset)`
unfoldable pub trim : (ℕ → Bool) → String → String
unfolding trim_left trim_right
trim p s = trim_right p (trim_left p s)

-- `unicode.IsSpace`
abbrev pub is_space : ℕ → Bool
is_space c =
    (leb 9 c && leb c 13)
    || c == 32
    || c == 0x85
    || c == 0xa0
    || c == 0x1680
    || (leb 0x2000 c && leb c 0x200a)
    || c == 0x2028
    || c == 0x2029
    || c == 0x202f
    || c == 0x205f
    || c == 0x3000

-- `strings.TrimSpace(s)`
abbrev pub trim_space : String → String
trim_space = trim is_space

-- `strings.TrimSuffix(s, t)` for a `t` of one character.
unfoldable pub trim_last : ℕ → String → String
trim_last k String.[] = String.[]
trim_last k (String.◌∷◌ c String.[]) = if code c == k then String.[] else String.◌∷◌ c String.[]
trim_last k (String.◌∷◌ c (String.◌∷◌ d s)) = String.◌∷◌ c (trim_last k (String.◌∷◌ d s))

-- `strings.SplitN(s, sep, 2)` for a separator of one character: `none` where it does not occur.
unfoldable pub cut : ℕ → String → Option (String × String)
cut k String.[] = none
cut k (String.◌∷◌ c s) =
    if code c == k
    then some (String.[], s)
    else elim (cut k s) [ none ↦ none | some (a, b) ↦ some (String.◌∷◌ c a, b) ]

abbrev push_head : Char → List String → List String
push_head c [] = String.◌∷◌ c String.[] ∷ []
push_head c (s ∷ ss) = String.◌∷◌ c s ∷ ss

-- `strings.Split(s, sep)` for a separator of one character.
unfoldable pub split : ℕ → String → List String
split k String.[] = String.[] ∷ []
split k (String.◌∷◌ c s) =
    let rest = split k s in if code c == k then String.[] ∷ rest else push_head c rest

-- `strings.Join(parts, sep)`
unfoldable pub join_with : String → List String → String
join_with sep [] = ""
join_with sep (s ∷ []) = s
join_with sep (s ∷ t ∷ ss) = s ++ (sep ++ join_with sep (t ∷ ss))

abbrev digit : ℕ → String
digit zero = "0"
digit (suc zero) = "1"
digit (suc (suc zero)) = "2"
digit (suc (suc (suc zero))) = "3"
digit (suc (suc (suc (suc zero)))) = "4"
digit (suc (suc (suc (suc (suc zero))))) = "5"
digit (suc (suc (suc (suc (suc (suc zero)))))) = "6"
digit (suc (suc (suc (suc (suc (suc (suc zero))))))) = "7"
digit (suc (suc (suc (suc (suc (suc (suc (suc zero)))))))) = "8"
digit _ = "9"

-- A number below 10 ^ fuel in decimal digits.
unfoldable pub show_digits : ℕ → ℕ → String
show_digits zero n = ""
show_digits (suc f) n =
    let front = show_digits f (n / 10) in if leb n 9 then digit n else front ++ digit (n % 10)

-- `strconv.Itoa` and `%d`; an int has at most 20 digits.
unfoldable pub show_int : ℤ → String
unfolding show_digits
show_int (pos n) = show_digits 20 n
show_int (negsuc n) = "-" ++ show_digits 20 (suc n)

-- The digits of a number, after those read already.
unfoldable pub read_digits : ℕ → String → Option ℕ
read_digits acc String.[] = some acc
read_digits acc (String.◌∷◌ c s) =
    let rest = read_digits (acc * 10 + (code c - 48)) s in
    if leb 48 (code c) && leb (code c) 57 then rest else none

abbrev nonempty_digits : String → Option ℕ
nonempty_digits s = if is_empty s then none else read_digits 0 s

-- Within an int of 64 bits.
abbrev positive : Option ℕ → Option ℤ
positive none = none
positive (some n) = if ltb n (2 ^ 63) then some (pos n) else none

abbrev negative : Option ℕ → Option ℤ
negative none = none
negative (some zero) = some (pos 0)
negative (some (suc n)) = if ltb n (2 ^ 63) then some (negsuc n) else none

-- `strconv.Atoi(s)`; `none` is an error.
unfoldable pub atoi : String → Option ℤ
unfolding read_digits
atoi String.[] = none
atoi (String.◌∷◌ c s) =
    if code c == b'-'
    then negative (nonempty_digits s)
    else (if code c == b'+'
        then positive (nonempty_digits s)
        else positive (read_digits 0 (String.◌∷◌ c s)))

show_int_runs : show_int (negsuc 9089) ≡ "-9090"
unfolding show_int
show_int_runs = refl

split_runs : split b',' "a,,b" ≡ "a" ∷ "" ∷ "b" ∷ []
unfolding split
split_runs = refl

trim_runs : trim_space "  a b\t " ≡ "a b"
unfolding trim
trim_runs = refl

atoi_runs : (atoi "-9090" ≡ some (negsuc 9089)) × (atoi "9o" ≡ none) × (atoi "" ≡ none)
unfolding atoi
atoi_runs = (refl, refl, refl)
