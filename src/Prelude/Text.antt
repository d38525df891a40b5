-- ===== src/Prelude/Text.antt =====
-- What the programs use of Python's `str`: f-strings, `str(n)`, `zfill`, `strip`, `lower` and tests.
use Prim.Native.Nat.{ℕ, zero, suc, ◌+◌, ◌-◌, ◌/◌, ◌%◌}
use Prim.Native.Char.{code}
use Prim.Native.String.{String}
use Prim.Native.String
use mathlib.Core.Bool.{Bool, true, false, ◌&&◌, ◌||◌}
use mathlib.Core.List.{List, [], ◌∷◌}
use mathlib.Core.Option.{Option, none, some}
use dev_llmops.Prelude.Tests.{leb, ◌==◌, if◌then◌else◌}

-- The pieces of an f-string, one after the other.
unfoldable pub text : List String → String
text [] = ""
text (s ∷ ss) = String.◌++◌ s (text ss)

-- sep.join(parts)
unfoldable pub join : String → List String → String
unfolding text
join sep [] = ""
join sep (s ∷ []) = s
join sep (s ∷ t ∷ ss) = text (s ∷ sep ∷ join sep (t ∷ ss) ∷ [])

-- An empty text counts as false.
unfoldable pub is_empty : String → Bool
is_empty String.[] = true
is_empty (String.◌∷◌ c s) = false

unfoldable pub text_at : List String → ℕ → String
text_at [] i = ""
text_at (s ∷ ss) zero = s
text_at (s ∷ ss) (suc i) = text_at ss i

abbrev pub digits : List String
digits = "0" ∷ "1" ∷ "2" ∷ "3" ∷ "4" ∷ "5" ∷ "6" ∷ "7" ∷ "8" ∷ "9" ∷ []

-- The decimal digit of a number below 10.
unfoldable pub digit : ℕ → String
unfolding text_at
digit = text_at digits

unfoldable pub show_fuel : ℕ → ℕ → String → String
unfolding digit
show_fuel zero n acc = acc
show_fuel (suc f) n acc =
    let acc' = String.◌++◌ (digit (n % 10)) acc in
    let rest = show_fuel f (n / 10) acc' in if n / 10 == 0 then acc' else rest

-- str(n)
unfoldable pub show : ℕ → String
unfolding show_fuel
show n = show_fuel (suc n) n ""

unfoldable pub count_chars : String → ℕ
count_chars String.[] = 0
count_chars (String.◌∷◌ c s) = suc (count_chars s)

unfoldable pub zeros : ℕ → String → String
zeros zero s = s
zeros (suc n) s = String.◌++◌ "0" (zeros n s)

-- s.zfill(width), for a text with no sign
unfoldable pub zfill : ℕ → String → String
unfolding zeros count_chars
zfill width s = zeros (width - count_chars s) s

-- The characters that `str.strip` takes off.
unfoldable pub is_space : ℕ → Bool
is_space c =
    (leb 9 c && leb c 13)
    || (leb 28 c && leb c 32)
    || c == 133
    || c == 160
    || c == 5760
    || (leb 8192 c && leb c 8202)
    || c == 8232
    || c == 8233
    || c == 8239
    || c == 8287
    || c == 12288

unfoldable pub lstrip : String → String
unfolding is_space
lstrip String.[] = ""
lstrip (String.◌∷◌ c s) = let rest = lstrip s in if is_space (code c) then rest else String.◌∷◌ c s

unfoldable pub rstrip : String → String
unfolding is_space is_empty
rstrip String.[] = ""
rstrip (String.◌∷◌ c s) =
    let rest = rstrip s in if is_space (code c) && is_empty rest then "" else String.◌∷◌ c rest

unfoldable pub strip : String → String
unfolding lstrip rstrip
strip s = rstrip (lstrip s)

unfoldable pub lower_code : ℕ → ℕ
lower_code c = if leb 65 c && leb c 90 then c + 32 else c

-- s.lower() == key, for a key of lower-case ASCII letters without k, which no other character lowers
-- to.
unfoldable pub lower_eq : String → String → Bool
unfolding lower_code
lower_eq String.[] String.[] = true
lower_eq String.[] (String.◌∷◌ d t) = false
lower_eq (String.◌∷◌ c s) String.[] = false
lower_eq (String.◌∷◌ c s) (String.◌∷◌ d t) = lower_code (code c) == code d && lower_eq s t

-- The rest of a text after a prefix, where it starts with it.
unfoldable pub after_prefix : String → String → Option String
after_prefix String.[] s = some s
after_prefix (String.◌∷◌ p ps) String.[] = none
after_prefix (String.◌∷◌ p ps) (String.◌∷◌ c s) =
    let rest = after_prefix ps s in if code p == code c then rest else none
