-- ===== src/Common/Texts.antt =====
-- JavaScript strings as their lists of UTF-16 code units.
use Prim.Native.Nat.{ℕ}
use Prim.Native.Char.{code}
use Prim.Native.String.{String}
use mathlib.Core.Path.{◌≡◌, refl}
use mathlib.Core.Bool.{Bool, true, false, ◌&&◌, ◌||◌}
use mathlib.Core.List.{List, [], ◌∷◌, reverse}
use native.Mathlib.Omega.{arith}
use agent_platform_api.Common.Tests.{leb, ◌==◌, if◌then◌else◌}

abbrev pub Text : Type 0
Text = List ℕ

-- The code units of a literal (the literals of the models are ASCII).
abbrev pub codes : String → Text
codes String.[] = []
codes (String.◌∷◌ c s) = code c ∷ codes s

-- `a === b`
abbrev pub text_eq : Text → Text → Bool
text_eq [] [] = true
text_eq [] (b ∷ bs) = false
text_eq (a ∷ as') [] = false
text_eq (a ∷ as') (b ∷ bs) = a == b && text_eq as' bs

-- What `String.prototype.trim` removes: WhiteSpace and LineTerminator.
abbrev pub is_space : ℕ → Bool
is_space c =
    (leb 9 c && leb c 13)
    || c == 32
    || c == 160
    || c == 0x1680
    || (leb 0x2000 c && leb c 0x200a)
    || c == 0x2028
    || c == 0x2029
    || c == 0x202f
    || c == 0x205f
    || c == 0x3000
    || c == 0xfeff

pub trim_start : Text → Text
trim_start [] = []
trim_start (c ∷ cs) = if is_space c then trim_start cs else c ∷ cs

unfoldable pub trim : Text → Text
unfolding trim_start
trim s = reverse (trim_start (reverse (trim_start s)))

pub text_eq_refl : (s : Text) → text_eq s s ≡ true
text_eq_refl [] = refl
text_eq_refl (c ∷ s) = ground (arith, text_eq_refl s)

pub text_eq_sound : (s t : Text) → text_eq s t ≡ true → s ≡ t
text_eq_sound [] [] h = refl
text_eq_sound [] (b ∷ t) h = cc
text_eq_sound (a ∷ s) [] h = cc
text_eq_sound (a ∷ s) (b ∷ t) h = ground (arith, text_eq_sound s t)

-- `s === ''`
abbrev pub is_blank : Text → Bool
is_blank [] = true
is_blank (c ∷ cs) = false

is_high : ℕ → Bool
is_high c = leb 0xd800 c && leb c 0xdbff

is_low : ℕ → Bool
is_low c = leb 0xdc00 c && leb c 0xdfff

-- Put one code unit before the code points that follow it.
unfoldable pub join_unit : ℕ → List Text → List Text
unfolding is_high is_low
join_unit c ((d ∷ []) ∷ ps) =
    if is_high c && is_low d then (c ∷ d ∷ []) ∷ ps else (c ∷ []) ∷ (d ∷ []) ∷ ps
join_unit c ps = (c ∷ []) ∷ ps

-- `Array.from(s)`: the code points, each as its one or two code units.
unfoldable pub code_points : Text → List Text
unfolding join_unit
code_points [] = []
code_points (c ∷ cs) = join_unit c (code_points cs)
