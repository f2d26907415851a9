-- ===== src/Hls/Text.antt =====
-- The functions of Go's strings package that internal/hlsbuffer uses, on the bytes of ASCII text.
use mi_ster_groovy_relay.Prelude.{
  ℕ, ◌+◌, ◌-◌, Bool, true, false, ◌&&◌, ◌||◌, Option, none, some, List, [], ◌∷◌, leb, ◌==◌,
  if◌then◌else◌,
}
use mathlib.Core.List.{reverse}
use Prim.Native.Char.{code}
use Prim.Native.String.{String}

abbrev pub codes : String → List ℕ
codes String.[] = []
codes (String.◌∷◌ c s) = code c ∷ codes s

-- The rest behind a literal.
unfoldable pub strip : List ℕ → List ℕ → Option (List ℕ)
strip [] cs = some cs
strip (p ∷ ps) [] = none
strip (p ∷ ps) (c ∷ cs) = let rest = strip ps cs in if p == c then rest else none

unfoldable pub has_prefix : List ℕ → List ℕ → Bool
unfolding strip
has_prefix cs ps = elim (strip ps cs) [ none ↦ false | some rest ↦ true ]

abbrev is_space : ℕ → Bool
is_space c = (leb 9 c && leb c 13) || (c == 32)

trim_left : List ℕ → List ℕ
trim_left [] = []
trim_left (c ∷ cs) = let rest = trim_left cs in if is_space c then rest else c ∷ cs

-- `strings.TrimSpace`
unfoldable pub trim_space : List ℕ → List ℕ
unfolding trim_left
trim_space cs = reverse (trim_left (reverse (trim_left cs)))

-- `strings.Split` at one character: never the empty list.
unfoldable pub split : ℕ → List ℕ → List (List ℕ)
split sep [] = [] ∷ []
split sep (c ∷ cs) =
    let rest = split sep cs in
    if c == sep
    then [] ∷ rest
    else (elim rest [ [] ↦ (c ∷ []) ∷ [] | part ∷ parts ↦ (c ∷ part) ∷ parts ])

-- `strings.ToLower`
unfoldable pub to_lower : List ℕ → List ℕ
to_lower [] = []
to_lower (c ∷ cs) = (if leb b'A' c && leb c b'Z' then c + 32 else c) ∷ to_lower cs

-- `strings.ToUpper`
unfoldable pub to_upper : List ℕ → List ℕ
to_upper [] = []
to_upper (c ∷ cs) = (if leb b'a' c && leb c b'z' then c - 32 else c) ∷ to_upper cs

unfoldable pub same_text : List ℕ → List ℕ → Bool
same_text [] [] = true
same_text [] (d ∷ ds) = false
same_text (c ∷ cs) [] = false
same_text (c ∷ cs) (d ∷ ds) = (c == d) && same_text cs ds

-- `strings.Contains`
unfoldable pub contains : List ℕ → List ℕ → Bool
unfolding has_prefix
contains [] part = has_prefix [] part
contains (c ∷ cs) part = has_prefix (c ∷ cs) part || contains cs part

-- The text before the first `sep`, and the text behind it, if there is one.
unfoldable pub cut : ℕ → List ℕ → List ℕ × Option (List ℕ)
cut sep [] = ([], none)
cut sep (c ∷ cs) =
    let (before, behind) = cut sep cs in if c == sep then ([], some cs) else (c ∷ before, behind)

-- `path.Ext`, on the characters from the end; `acc` are those behind.
ext_loop : List ℕ → List ℕ → List ℕ
ext_loop acc [] = []
ext_loop acc (c ∷ cs) =
    let rest = ext_loop (c ∷ acc) cs in
    if c == b'/' then [] else if c == b'.' then c ∷ acc else rest

unfoldable pub ext : List ℕ → List ℕ
unfolding ext_loop
ext cs = ext_loop [] (reverse cs)

trim_left_of : ℕ → List ℕ → List ℕ
trim_left_of q [] = []
trim_left_of q (c ∷ cs) = let rest = trim_left_of q cs in if c == q then rest else c ∷ cs

-- `strings.Trim` with a set of one character.
unfoldable pub trim : ℕ → List ℕ → List ℕ
unfolding trim_left_of
trim q cs = reverse (trim_left_of q (reverse (trim_left_of q cs)))
