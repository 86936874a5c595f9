-- ===== src/Base/Texts.antt =====
-- Texts as lists of code points, and the methods of `str` that the program calls.
use Prim.Native.Nat.{ℕ, ◌+◌}
use mathlib.Core.Path.{◌≡◌, refl, sym, ap, ◌∙◌}
use mathlib.Core.Logic.{◌↔◌, inl, inr}
use mathlib.Core.Bool.{Bool, true, false, ◌&&◌, ◌||◌}
use mathlib.Core.List.{List, [], ◌∷◌, map}
use native.Mathlib.Omega.{arith}
use Prim.Native.Char.{code}
use Prim.Native.String.{String}
use fastapi_newyear.Base.Tests.{leb, ◌==◌, if◌then◌else◌, Bool-cases}

abbrev pub Text : Type 0
Text = List ℕ

-- A literal as a text.
abbrev pub codes : String → Text
codes String.[] = []
codes (String.◌∷◌ c s) = code c ∷ codes s

unfoldable pub text_eq : Text → Text → Bool
text_eq [] [] = true
text_eq [] (b ∷ t) = false
text_eq (a ∷ s) [] = false
text_eq (a ∷ s) (b ∷ t) = a == b && text_eq s t

pub text_eq_refl : (s : Text) → text_eq s s ≡ true
unfolding text_eq
text_eq_refl [] = refl
text_eq_refl (a ∷ s) = ground (arith, text_eq_refl s)

text_eq→eq : (s t : Text) → text_eq s t ≡ true → s ≡ t
unfolding text_eq
text_eq→eq [] [] h = refl
text_eq→eq [] (b ∷ t) h = ground arith
text_eq→eq (a ∷ s) [] h = ground arith
text_eq→eq (a ∷ s) (b ∷ t) h = ground (arith, text_eq→eq s t)

pub text_eq_iff : (s t : Text) → (text_eq s t ≡ true) ↔ (s ≡ t)
text_eq_iff s t = (text_eq→eq s t, λ e. rw e (text_eq_refl t))

pub text_eq_sym : (a b : Text) → text_eq a b ≡ text_eq b a
text_eq_sym a b = ground (arith, text_eq_iff a b, text_eq_iff b a)

-- `str.isspace` of the ASCII characters, of U+0085 and of U+00A0.
is_space : ℕ → Bool
is_space c = (leb 9 c && leb c 13) || (leb 28 c && leb c 32) || c == 133 || c == 160

-- `str.lower` of the ASCII letters.
lower_char : ℕ → ℕ
lower_char c = if leb b'A' c && leb c b'Z' then c + 32 else c

unfoldable pub lower : Text → Text
unfolding lower_char
lower = map lower_char

unfoldable pub strip_left : (ℕ → Bool) → Text → Text
strip_left p [] = []
strip_left p (c ∷ s) = if p c then strip_left p s else c ∷ s

-- Puts a character before a text whose right end is stripped already.
strip_before : (ℕ → Bool) → ℕ → Text → Text
strip_before p c [] = if p c then [] else c ∷ []
strip_before p c (d ∷ s) = c ∷ d ∷ s

unfoldable pub strip_right : (ℕ → Bool) → Text → Text
unfolding strip_before
strip_right p [] = []
strip_right p (c ∷ s) = strip_before p c (strip_right p s)

-- `str.strip(chars)`, the characters given by a test.
unfoldable pub strip_chars : (ℕ → Bool) → Text → Text
unfolding strip_left strip_right
strip_chars p s = strip_right p (strip_left p s)

unfoldable pub strip : Text → Text
unfolding strip_chars is_space
strip = strip_chars is_space

strip-lower_test :
    strip (lower (codes "  Maria.Test@Example.COM ")) ≡ codes "maria.test@example.com"
unfolding strip lower
strip-lower_test = refl

-- A text with nothing to strip at its left end.
IsClean : (ℕ → Bool) → Text → Type 0
IsClean p [] = Unit
IsClean p (c ∷ s) = p c ≡ false

module _ (p : ℕ → Bool) where
  strip_left-IsClean : (s : Text) → IsClean p (strip_left p s)
  unfolding strip_left IsClean
  strip_left-IsClean [] = tt
  strip_left-IsClean (c ∷ s) = elim (Bool-cases (p c)) [
    | inl space ↦ rw space (strip_left-IsClean s)
    | inr other ↦ rw other other
  ]

  strip_left_clean : (s : Text) → IsClean p s → strip_left p s ≡ s
  unfolding strip_left IsClean
  strip_left_clean [] h = refl
  strip_left_clean (c ∷ s) h = rw h

  strip_before-IsClean : (c : ℕ) (s : Text) → p c ≡ false → IsClean p (strip_before p c s)
  unfolding strip_before IsClean
  strip_before-IsClean c [] h = rw h h
  strip_before-IsClean c (d ∷ s) h = h

  strip_right-IsClean : (s : Text) → IsClean p s → IsClean p (strip_right p s)
  unfolding strip_right IsClean
  strip_right-IsClean [] h = tt
  strip_right-IsClean (c ∷ s) h = strip_before-IsClean c (strip_right p s) h

  strip_right-before :
      (c : ℕ) (s : Text)
      → strip_right p s ≡ s
      → strip_right p (strip_before p c s) ≡ strip_before p c s
  unfolding strip_right strip_before
  strip_right-before c [] h = ground arith
  strip_right-before c (d ∷ s) h = ap (strip_before p c) h

  strip_right_idem : (s : Text) → strip_right p (strip_right p s) ≡ strip_right p s
  unfolding strip_right
  strip_right_idem [] = refl
  strip_right_idem (c ∷ s) = strip_right-before c (strip_right p s) (strip_right_idem s)

  strip_chars_idem : (s : Text) → strip_chars p (strip_chars p s) ≡ strip_chars p s
  unfolding strip_chars
  strip_chars_idem s =
      ap (strip_right p) (strip_left_clean _ (strip_right-IsClean _ (strip_left-IsClean s)))
      ∙ strip_right_idem (strip_left p s)

  module _ (f : ℕ → ℕ) (same : (c : ℕ) → p (f c) ≡ p c) where
    strip_left-map : (s : Text) → strip_left p (map f s) ≡ map f (strip_left p s)
    unfolding strip_left
    strip_left-map [] = refl
    strip_left-map (c ∷ s) = ground (arith, same c, strip_left-map s)

    strip_before-map :
        (c : ℕ) (s : Text) → strip_before p (f c) (map f s) ≡ map f (strip_before p c s)
    unfolding strip_before
    strip_before-map c [] = ground (arith, same c)
    strip_before-map c (d ∷ s) = refl

    strip_right-map : (s : Text) → strip_right p (map f s) ≡ map f (strip_right p s)
    unfolding strip_right
    strip_right-map [] = refl
    strip_right-map (c ∷ s) = rw (strip_right-map s) (strip_before-map c (strip_right p s))

    strip_chars-map : (s : Text) → strip_chars p (map f s) ≡ map f (strip_chars p s)
    unfolding strip_chars
    strip_chars-map s = ap (strip_right p) (strip_left-map s) ∙ strip_right-map (strip_left p s)

lower_char_idem : (c : ℕ) → lower_char (lower_char c) ≡ lower_char c
unfolding lower_char
lower_char_idem c = ground arith

is_space-lower_char : (c : ℕ) → is_space (lower_char c) ≡ is_space c
unfolding lower_char is_space
is_space-lower_char c = ground arith

lower_idem : (s : Text) → lower (lower s) ≡ lower s
unfolding lower
lower_idem [] = refl
lower_idem (c ∷ s) = cc (lower_char_idem c, lower_idem s)

lower-strip : (s : Text) → lower (strip s) ≡ strip (lower s)
unfolding lower strip
lower-strip s = sym (strip_chars-map is_space lower_char is_space-lower_char s)

-- Lower case and stripping, done twice, are done once.
pub strip-lower_idem : (s : Text) → strip (lower (strip (lower s))) ≡ strip (lower s)
unfolding strip
strip-lower_idem s =
    ap strip (lower-strip (lower s) ∙ ap strip (lower_idem s)) ∙ strip_chars_idem is_space (lower s)
