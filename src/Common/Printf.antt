-- ===== src/Common/Printf.antt =====
-- src/common/cstdio/printf.cc: the conversion of numbers and the interpretation of formats. What is
-- printed is a list of characters; a format is one with its terminator, and a string one without.
pub mod Digits
mod Tests
use evisor.Prelude.{
  ==_iff, ==_ne, ==_refl, All, All-append, All-get, All-map, All-set, Bool, Bool-cases, List,
  Option, Option-cases, [], ap, append-nil, append_assoc, ap₂, arith, bit_and, bit_or, dec_le,
  dec_lt, false, fun_ext, get_elem?, get_elem?-lt, get_elem?-set_ne, get_elem?-set_self,
  get_elem?-some, if◌then◌else◌, inl, inr, leb, leb→le, length, length-append, length-map,
  length-replicate, length-set, ltb, ltb→lt, lt→ltb, map, none, not, refl, replicate, set, some,
  subst, suc, sym, take, true, u16_mod, u32_mod, u64_mod, u8_mod, update, zero, ℕ, ℕ_discrete, ◌%◌,
  ◌&&◌, ◌*◌, ◌++◌, ◌+◌, ◌-◌, ◌/◌, ◌<◌, ◌==◌, ◌^◌, ◌||◌, ◌↔◌, ◌∙◌, ◌∷◌, ◌≡◌, ◌≢◌, ◌≤◌, ◌⊎◌,
}
use evisor.Prelude.Outcome.{Outcome, ok, panic, fault, ◌>>=◌}
use mathlib.Core.Option

-- `digit + (digit < 10 ? '0' : (upper_case ? 'A' : 'a') - 10)`
unfoldable pub digit_char : Bool → ℕ → ℕ
digit_char upper_case digit =
    if ltb digit 10 then digit + b'0' else digit + (if upper_case then b'A' else b'a') - 10

-- The first loop of `ulitoa`, for `w`-bit numbers: the highest place of the value.
unfoldable pub highest : ℕ → ℕ → ℕ → ℕ → ℕ → Option ℕ
highest w zero base value v = none
highest w (suc fuel) base value v =
    let rest = highest w fuel base value (v * base % 2 ^ w) in
    if leb base (value / v) then rest else some v

-- The second loop; `started` is `n != 0`.
unfoldable pub emit : ℕ → ℕ → Bool → ℕ → ℕ → Bool → Option (List ℕ)
emit zero base upper_case value v started = none
emit (suc fuel) base upper_case value v started =
    let shown = started || ltb 0 (value / v) || v / base == 0 in
    let rest = emit fuel base upper_case (value % v) (v / base) shown in
    if v == 0
    then some []
    else if shown
    then Option.map (λ cs. digit_char upper_case (value / v) ∷ cs) rest
    else rest

-- `ulitoa` at 64 bits and `uitoa` at 32; a loop turns at most once for each bit.
unfoldable pub to_digits : ℕ → ℕ → ℕ → Bool → Option (List ℕ)
to_digits w value base upper_case = elim (highest w (w + 1) base value 1) [
  | none ↦ none
  | some v ↦ emit (w + 1) base upper_case value v false
]

abbrev pub ulitoa : ℕ → ℕ → Bool → Option (List ℕ)
ulitoa value base upper_case = to_digits 64 value base upper_case

abbrev pub uitoa : ℕ → ℕ → Bool → Option (List ℕ)
uitoa value base upper_case = to_digits 32 value base upper_case

-- `litoa` and `itoa` of a number in two's complement.
unfoldable pub signed_digits : ℕ → ℕ → ℕ → Option (List ℕ)
signed_digits w value base =
    if leb (2 ^ (w - 1)) value
    then Option.map (λ cs. b'-' ∷ cs) (to_digits w (2 ^ w - value) base false)
    else to_digits w value base false

abbrev pub litoa : ℕ → Option (List ℕ)
litoa value = signed_digits 64 value 10

abbrev pub itoa : ℕ → ℕ → Option (List ℕ)
itoa value base = signed_digits 32 value base

-- `atoi` of a character: none for -1.
unfoldable pub atoi : ℕ → Option ℕ
atoi c =
    if leb b'0' c && leb c b'9'
    then some (c - b'0')
    else if leb b'a' c && leb c b'f'
    then some (c - b'a' + 10)
    else if leb b'A' c && leb c b'F'
    then some (c - b'A' + 10)
    else none

-- `*(format++)`, beyond the terminator a read out of bounds.
unfoldable pub next_char : List ℕ → Outcome (ℕ × List ℕ)
next_char [] = fault
next_char (c ∷ cs) = ok (c, cs)

-- `parse_field_width`, from a character and those after it: the width, the first character that is
-- not of it and those after that. The width is an `int`; one beyond its range has no model.
unfoldable pub parse_field_width : ℕ → ℕ → List ℕ → Outcome (ℕ × ℕ × List ℕ)
parse_field_width res c [] = elim (atoi c) [
  | none ↦ ok (res, c, [])
  | some digit ↦ if ltb 10 digit then ok (res, c, []) else fault
]
parse_field_width res c (x ∷ cs) = elim (atoi c) [
  | none ↦ ok (res, c, x ∷ cs)
  | some digit ↦
      if ltb 10 digit then ok (res, c, x ∷ cs) else parse_field_width (res * 10 + digit) x cs
]

-- `put_formatted_string`
unfoldable pub put_formatted_string : ℕ → Bool → List ℕ → List ℕ
put_formatted_string field_width flag_zero buf =
    replicate (field_width - length buf) (if flag_zero then b'0' else b' ') ++ buf

-- An argument: a word, or a string.
pub data Arg : Type 0 where
  word : ℕ → Arg
  string : List ℕ → Arg

-- `va_arg`; a missing argument or one of the other kind is undefined.
unfoldable pub va_word : List Arg → Outcome (ℕ × List Arg)
va_word (word x ∷ args) = ok (x, args)
va_word (string s ∷ args) = fault
va_word [] = fault

unfoldable pub va_string : List Arg → Outcome (List ℕ × List Arg)
va_string (word x ∷ args) = fault
va_string (string s ∷ args) = ok (s, args)
va_string [] = fault

-- A flag of one character before `c`: whether it is there, and what follows.
unfoldable pub parse_flag : ℕ → ℕ → List ℕ → Outcome (Bool × ℕ × List ℕ)
parse_flag flag c [] = if c == flag then fault else ok (false, c, [])
parse_flag flag c (x ∷ format) =
    if c == flag then ok (true, x, format) else ok (false, c, x ∷ format)

unfoldable pub parse_width : ℕ → List ℕ → Outcome (ℕ × ℕ × List ℕ)
parse_width c format =
    if leb b'0' c && leb c b'9' then parse_field_width 0 c format else ok (0, c, format)

-- The buffer after a conversion; without enough turns of its loops there is none.
abbrev pub converted : Option (List ℕ) → Outcome (List ℕ)
converted none = fault
converted (some cs) = ok cs

unfoldable pub decimal : Bool → ℕ → Option (List ℕ)
decimal true x = litoa x
decimal false x = itoa (x % u32_mod) 10

unfoldable pub unsigned : ℕ → Bool → Bool → ℕ → Option (List ℕ)
unsigned base upper_case true x = ulitoa x base upper_case
unsigned base upper_case false x = uitoa (x % u32_mod) base upper_case

-- A case of `switch (c)` for a number.
unfoldable pub number : (ℕ → Option (List ℕ)) → ℕ → Bool → List Arg → Outcome (List ℕ × List Arg)
number digits width zero_flag args = do
  (x, rest) ← va_word args
  cs ← converted (digits x)
  ok (put_formatted_string width zero_flag cs, rest)

unfoldable pub character : List Arg → Outcome (List ℕ × List Arg)
character args = do (x, rest) ← va_word args; ok (x % 2 ^ 8 ∷ [], rest)

unfoldable pub text : ℕ → List Arg → Outcome (List ℕ × List Arg)
text width args = do (s, rest) ← va_string args; ok (put_formatted_string width false s, rest)

-- `switch (c)`: what is printed and the arguments that are left.
unfoldable pub convert : ℕ → ℕ → Bool → Bool → List Arg → Outcome (List ℕ × List Arg)
convert c width zero_flag long args =
    if c == b'd' || c == b'D'
    then number (decimal long) width zero_flag args
    else if c == b'u' || c == b'U'
    then number (unsigned 10 false long) width zero_flag args
    else if c == b'x' || c == b'X'
    then number (unsigned 16 (c == b'X') long) width zero_flag args
    else if c == b'c' || c == b'C'
    then character args
    else if c == b's' || c == b'S'
    then text width args
    else if c == b'%'
    then ok (c ∷ [], args)
    else ok ([], args)

-- The body of the loop after a `%`.
unfoldable pub directive : List ℕ → List Arg → Outcome (List ℕ × List Arg × List ℕ)
directive format args = do
  (c, f) ← next_char format
  (zero_flag, c1, f1) ← parse_flag b'0' c f
  (width, c2, f2) ← parse_width c1 f1
  (long, c3, f3) ← parse_flag b'l' c2 f2
  (out, rest) ← convert c3 width zero_flag long args
  ok (out, rest, f3)

abbrev after : List ℕ → Outcome (List ℕ) → Outcome (List ℕ)
after shown rest = rest >>= λ out. ok (shown ++ out)

-- `vfprintf`: each turn of the loop takes a character of the format, so that its length is fuel
-- enough; a turn beyond it reads out of bounds.
unfoldable pub print_loop : ℕ → List ℕ → List Arg → Outcome (List ℕ)
print_loop zero format args = fault
print_loop (suc fuel) [] args = fault
print_loop (suc fuel) (c ∷ format) args =
    let plain = after (c ∷ []) (print_loop fuel format args) in
    let formatted =
      directive format args >>= λ (shown, rest, f). after shown (print_loop fuel f rest) in
    if c == 0 then ok [] else if not (c == b'%') then plain else formatted

abbrev pub vfprintf : List ℕ → List Arg → Outcome (List ℕ)
vfprintf format args = print_loop (length format) format args
