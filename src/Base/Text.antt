-- ===== src/Base/Text.antt =====
-- Texts by their code points, with Python's `str.casefold` and `in` as far as ASCII patterns see them.
pub mod Within
use Prim.Native.Char.{code}
use Prim.Native.Nat.{ℕ, ◌+◌}
use Prim.Native.String.{String}
use mathlib.Core.Bool.{Bool, true, false, ◌&&◌, ◌||◌}
use mathlib.Core.List.{List, [], ◌∷◌, ◌++◌}
use rotoweave.Base.Tests.{leb, ◌==◌, if◌then◌else◌}

abbrev pub codes : String → List ℕ
codes String.[] = []
codes (String.◌∷◌ c s) = code c ∷ codes s

unfoldable pub codes_eq : List ℕ → List ℕ → Bool
codes_eq [] [] = true
codes_eq [] (y ∷ ys) = false
codes_eq (x ∷ xs) [] = false
codes_eq (x ∷ xs) (y ∷ ys) = x == y && codes_eq xs ys

unfoldable pub is_prefix : List ℕ → List ℕ → Bool
is_prefix [] ys = true
is_prefix (x ∷ xs) [] = false
is_prefix (x ∷ xs) (y ∷ ys) = x == y && is_prefix xs ys

-- `needle in text`
unfoldable pub contains : List ℕ → List ℕ → Bool
unfolding is_prefix
contains needle [] = is_prefix needle []
contains needle (y ∷ ys) = is_prefix needle (y ∷ ys) || contains needle ys

-- The full case folding of one code point, wherever the result holds an ASCII letter. Other code
-- points fold to code points outside ASCII, which no pattern of this program can match, and stay.
fold_code : ℕ → List ℕ
fold_code c =
    if leb 65 c && leb c 90
    then (c + 32) ∷ []
    else if c == 0xdf || c == 0x1e9e
    then b's' ∷ b's' ∷ []
    else if c == 0x130
    then b'i' ∷ 0x307 ∷ []
    else if c == 0x149
    then 0x2bc ∷ b'n' ∷ []
    else if c == 0x17f
    then b's' ∷ []
    else if c == 0x1f0
    then b'j' ∷ 0x30c ∷ []
    else if c == 0x1e96
    then b'h' ∷ 0x331 ∷ []
    else if c == 0x1e97
    then b't' ∷ 0x308 ∷ []
    else if c == 0x1e98
    then b'w' ∷ 0x30a ∷ []
    else if c == 0x1e99
    then b'y' ∷ 0x30a ∷ []
    else if c == 0x1e9a
    then b'a' ∷ 0x2be ∷ []
    else if c == 0x212a
    then b'k' ∷ []
    else if c == 0xfb00
    then b'f' ∷ b'f' ∷ []
    else if c == 0xfb01
    then b'f' ∷ b'i' ∷ []
    else if c == 0xfb02
    then b'f' ∷ b'l' ∷ []
    else if c == 0xfb03
    then b'f' ∷ b'f' ∷ b'i' ∷ []
    else if c == 0xfb04
    then b'f' ∷ b'f' ∷ b'l' ∷ []
    else if c == 0xfb05 || c == 0xfb06
    then b's' ∷ b't' ∷ []
    else c ∷ []

unfoldable pub casefold : List ℕ → List ℕ
unfolding fold_code
casefold [] = []
casefold (c ∷ cs) = fold_code c ++ casefold cs

-- `text in {…}`, for a set of texts.
unfoldable pub member : List ℕ → List String → Bool
unfolding codes_eq
member cs [] = false
member cs (s ∷ set) = codes_eq cs (codes s) || member cs set
