-- ===== src/Common/Chars.antt =====
-- Text as the list of its character codes, and what the C library does with it. A C string in an array
-- ends before the first zero; `none` is a read behind the end of the array.
pub mod Tokens
mod Scan
pub mod Strtok
use Prim.Native.Nat.{ℕ, zero, suc, ◌+◌, ◌-◌, ◌*◌, ◌%◌}
use Prim.Native.Char.{code}
use Prim.Native.String.{String}
use mathlib.Core.Bool.{Bool, true, false, not, ◌&&◌, ◌||◌}
use mathlib.Core.List.{List, [], ◌∷◌, ◌++◌, map}
use mathlib.Core.Option.{Option, none, some}
use circle_stdlib.Common.Tests.{ltb, leb, ◌==◌, if◌then◌else◌}
use circle_stdlib.Common.Lists.{length, get_elem?, drop}
use circle_stdlib.Common.Checked.{◌>>=◌, copy_in}

-- The codes of a literal, which are its bytes when the text is ASCII.
abbrev pub codes : String → List ℕ
codes String.[] = []
codes (String.◌∷◌ c s) = code c ∷ codes s

abbrev pub is_one_of : List ℕ → ℕ → Bool
is_one_of [] c = false
is_one_of (d ∷ ds) c = (c == d) || is_one_of ds c

-- How many elements in front have the property; `none` if there is none without it.
unfoldable pub span : (ℕ → Bool) → List ℕ → Option ℕ
span f [] = none
span f (c ∷ cs) = let rest = span f cs in if f c then (rest >>= λ n. some (suc n)) else some 0

-- The C string at the start of an array.
unfoldable pub c_string : List ℕ → Option (List ℕ)
c_string [] = none
c_string (c ∷ cs) =
    let rest = c_string cs in if c == 0 then some [] else (rest >>= λ s. some (c ∷ s))

abbrev pub in_token : List ℕ → ℕ → Bool
in_token delimiters c = not (c == 0) && not (is_one_of delimiters c)

-- `strtok_r` on the array `mem` from the offset `from`, which is the argument or, if that is null, the
-- saved pointer: the offset of the token or null, the saved pointer, and the array.
unfoldable pub strtok_r : List ℕ → ℕ → List ℕ → Option (Option ℕ × ℕ × List ℕ)
strtok_r mem from delimiters = span (is_one_of delimiters) (drop from mem) >>= λ skipped.
    get_elem? mem (from + skipped) >>= λ c.
    if c == 0
    then some (none, from + skipped, mem)
    else (span (in_token delimiters) (drop (from + skipped) mem) >>= λ n.
        get_elem? mem (from + skipped + n) >>= λ end.
        if end == 0
        then some (some (from + skipped), from + skipped + n, mem)
        else (copy_in mem (from + skipped + n) (0 ∷ []) >>= λ mem'.
            some (some (from + skipped), from + skipped + n + 1, mem')))

-- `strcmp (a, b) == 0`
unfoldable pub equal : List ℕ → List ℕ → Bool
equal [] [] = true
equal (a ∷ xs) (b ∷ ys) = (a == b) && equal xs ys
equal _ _ = false

abbrev pub to_lower : ℕ → ℕ
to_lower c = if leb b'A' c && leb c b'Z' then c + 32 else c

-- `strcasecmp (a, b) == 0`
unfoldable pub equal_nocase : List ℕ → List ℕ → Bool
equal_nocase a b = equal (map to_lower a) (map to_lower b)

abbrev pub is_space : ℕ → Bool
is_space c = (c == b' ') || (leb 9 c && leb c 13)

-- The value of a digit or letter in a number; 36 for other characters.
abbrev pub digit_value : ℕ → ℕ
digit_value c =
    if leb b'0' c && leb c b'9'
    then c - b'0'
    else if leb b'a' c && leb c b'z'
    then c - b'a' + 10
    else if leb b'A' c && leb c b'Z'
    then c - b'A' + 10
    else 36

-- The digits in front, after `n` digits with the value `v`: the value and the number of all digits.
unfoldable pub read_digits : ℕ → ℕ → ℕ → List ℕ → ℕ × ℕ
read_digits base v n [] = (v, n)
read_digits base v n (c ∷ cs) =
    let rest = read_digits base (v * base + digit_value c) (suc n) cs in
    if ltb (digit_value c) base then rest else (v, n)

abbrev pub spaces : List ℕ → ℕ
spaces [] = 0
spaces (c ∷ cs) = let rest = spaces cs in if is_space c then suc rest else 0

-- A minus sign, and how many characters the sign has.
abbrev pub sign : List ℕ → Bool × ℕ
sign [] = (false, 0)
sign (c ∷ cs) = if c == b'-' then (true, 1) else if c == b'+' then (false, 1) else (false, 0)

-- `0x` in front of a hexadecimal digit
abbrev pub hex_prefix : ℕ → List ℕ → ℕ
hex_prefix base (z ∷ x ∷ d ∷ cs) =
    if (base == 16) && ((z == b'0') && ((to_lower x == b'x') && ltb (digit_value d) 16))
    then 2
    else 0
hex_prefix base _ = 0

-- `strtoul` for an `unsigned long` below `modulus`: the number, and how many characters it took.
unfoldable pub strtoul : ℕ → ℕ → List ℕ → ℕ × ℕ
strtoul modulus base s =
    let n = spaces s in
    let (negative, k) = sign (drop n s) in
    let j = hex_prefix base (drop (n + k) s) in
    let (v, count) = read_digits base 0 0 (drop (n + k + j) s) in
    if count == 0 then (0, 0) else (
      if leb modulus v then modulus - 1 else if negative then (modulus - v) % modulus else v,
      n + k + j + count,
    )
