-- ===== src/Prelude/Text.antt =====
-- The methods of Python's `str` that the program uses, on native texts.
use Prim.Native.Nat.{ℕ, suc, ◌+◌, ◌<◌}
use Prim.Native.Char.{code}
use Prim.Native.String.{String, [], ◌∷◌, ◌++◌}
use mathlib.Core.Path.{◌≡◌, refl, sym}
use mathlib.Core.Bool.{Bool, true, false, not, ◌&&◌, ◌||◌, true≢false}
use mathlib.Core.Option.{Option, none, some}
use mathlib.Core.Logic.{◌↔◌, inl, inr}
use native.Mathlib.Omega.{arith}
use text.Mathlib.TextLemmas.{cons≢nil, cons-append, nil-append}
use ssf_transmitter.Prelude.Tests.{Bool-cases, leb, if◌then◌else◌, ◌==◌, nat_eq, string_eq}

-- A text is false when it is empty.
abbrev pub truthy : String → Bool
truthy [] = false
truthy (c ∷ s) = true

-- `a or b` on texts.
abbrev pub or_text : String → String → String
or_text a b = if truthy a then a else b

-- A key that is absent reads as the empty text.
abbrev pub text_or_empty : Option String → String
text_or_empty none = ""
text_or_empty (some s) = s

-- The characters that `str.strip` removes.
unfoldable pub is_space : ℕ → Bool
is_space c =
    (leb 9 c && leb c 13)
    || (leb 28 c && leb c 32)
    || c == 0x85
    || c == 0xa0
    || c == 0x1680
    || (leb 0x2000 c && leb c 0x200a)
    || c == 0x2028
    || c == 0x2029
    || c == 0x202f
    || c == 0x205f
    || c == 0x3000

unfoldable pub lstrip : String → String
unfolding is_space
lstrip [] = []
lstrip (c ∷ s) = let rest = lstrip s in if is_space (code c) then rest else c ∷ s

unfoldable pub rstrip : String → String
unfolding is_space
rstrip [] = []
rstrip (c ∷ s) =
    let rest = rstrip s in
    if truthy rest then c ∷ rest else if is_space (code c) then [] else c ∷ []

unfoldable pub strip : String → String
unfolding lstrip rstrip
strip s = rstrip (lstrip s)

-- `len(s)`
unfoldable pub text_length : String → ℕ
text_length [] = 0
text_length (c ∷ s) = suc (text_length s)

pub truthy_of_length : (s : String) → 0 < text_length s → truthy s ≡ true
unfolding text_length
truthy_of_length [] h = absurd (omega (arith, h))
truthy_of_length (c ∷ s) h = refl

pub length_of_truthy : (s : String) → truthy s ≡ true → 0 < text_length s
unfolding text_length
length_of_truthy [] h = absurd (true≢false (sym h))
length_of_truthy (c ∷ s) h = omega arith

-- What is left of the second text when the first is taken off its front.
unfoldable pub after_prefix : String → String → Option String
after_prefix [] s = some s
after_prefix (c ∷ p) [] = none
after_prefix (c ∷ p) (d ∷ s) =
    let rest = after_prefix p s in if code c == code d then rest else none

unfoldable pub starts_with : String → String → Bool
unfolding after_prefix
starts_with s p = elim (after_prefix p s) [ none ↦ false | some _ ↦ true ]

-- `part in s`
unfoldable pub contains : String → String → Bool
unfolding starts_with
contains part [] = not (truthy part)
contains part (c ∷ s) = starts_with (c ∷ s) part || contains part s

unfoldable pub remove_prefix : String → String → String
unfolding after_prefix
remove_prefix s p = elim (after_prefix p s) [ none ↦ s | some r ↦ r ]

-- `any(test(char) for char in s)`
unfoldable pub any_char : (ℕ → Bool) → String → Bool
any_char p [] = false
any_char p (c ∷ s) = p (code c) || any_char p s

-- `s.partition(" ")`: what stands before and after the first space.
unfoldable pub partition : String → String × String
partition [] = ("", "")
partition (c ∷ s) = let rest = partition s in if code c == 32 then ("", s) else (c ∷ rest.0, rest.1)

pub truthy_iff : (s : String) → (truthy s ≡ false) ↔ (s ≡ "")
truthy_iff [] = ((λ h. refl), (λ h. refl))
truthy_iff (c ∷ s) = ((λ h. absurd (true≢false h)), (λ h. absurd (cons≢nil h)))

pub truthy_of_strip : (s : String) → truthy (strip s) ≡ true → truthy s ≡ true
unfolding strip lstrip rstrip
truthy_of_strip [] h = h
truthy_of_strip (c ∷ s) h = refl

pub after_prefix-append : (p s : String) → after_prefix p (p ++ s) ≡ some s
unfolding after_prefix
after_prefix-append [] s = rw nil-append
after_prefix-append (c ∷ p) s = rw cons-append (ground (arith, after_prefix-append p s))

pub truthy-append : (p s : String) → truthy p ≡ true → truthy (p ++ s) ≡ true
truthy-append [] s h = cc
truthy-append (c ∷ p) s h = rw cons-append refl

pub any_char-append :
    (p : ℕ → Bool) (s t : String) → any_char p (s ++ t) ≡ (any_char p s || any_char p t)
unfolding any_char
any_char-append p [] t = rw nil-append refl
any_char-append p (c ∷ s) t = rw cons-append (ground (arith, any_char-append p s t))

pub text_length-append : (s t : String) → text_length (s ++ t) ≡ text_length s + text_length t
unfolding text_length
text_length-append [] t = rw nil-append (omega arith)
text_length-append (c ∷ s) t = rw cons-append (omega (arith, text_length-append s t))

-- The text is empty or begins with no space.
starts_clean : String → Bool
starts_clean [] = true
starts_clean (c ∷ s) = not (is_space (code c))

lstrip-starts_clean : (s : String) → starts_clean (lstrip s) ≡ true
unfolding starts_clean lstrip
lstrip-starts_clean [] = refl
lstrip-starts_clean (c ∷ s) = elim (Bool-cases (is_space (code c))) [
  | inl space ↦ rw (space, starts_clean) (lstrip-starts_clean s)
  | inr other ↦ ground arith
]

lstrip_of_starts_clean : (s : String) → starts_clean s ≡ true → lstrip s ≡ s
unfolding starts_clean lstrip
lstrip_of_starts_clean [] h = refl
lstrip_of_starts_clean (c ∷ s) h = ground arith

rstrip-starts_clean : (s : String) → starts_clean s ≡ true → starts_clean (rstrip s) ≡ true
unfolding starts_clean rstrip
rstrip-starts_clean [] h = refl
rstrip-starts_clean (c ∷ s) h = ground arith

rstrip-rstrip : (s : String) → rstrip (rstrip s) ≡ rstrip s
unfolding rstrip
rstrip-rstrip [] = refl
rstrip-rstrip (c ∷ s) = ground (arith, rstrip-rstrip s)

pub strip-strip : (s : String) → strip (strip s) ≡ strip s
unfolding strip
strip-strip s =
    rw
      (lstrip_of_starts_clean (rstrip (lstrip s))
        (rstrip-starts_clean (lstrip s) (lstrip-starts_clean s)))
      (rstrip-rstrip (lstrip s))

strip_example : strip " a b  " ≡ "a b"
unfolding strip
strip_example = refl

remove_prefix_example : remove_prefix "Bearer x" "Bearer " ≡ "x"
unfolding remove_prefix
remove_prefix_example = refl
