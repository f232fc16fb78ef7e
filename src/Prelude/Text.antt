-- ===== src/Prelude/Text.antt =====
-- Python's text methods on the native `String`, character by character.
use Prim.Native.Char.{Char, code}
use Prim.Native.String.{String}
use Prim.Native.Nat.{ℕ, suc}
use mathlib.Core.Path.{◌≡◌, refl}
use mathlib.Core.Bool.{Bool, true, false, ◌&&◌, ◌||◌}
use mathlib.Core.Option.{Option, none, some}
use mathlib.Core.Logic.{inl, inr}
use native.Mathlib.Omega.{arith}
use human_llm_gateway.Prelude.Tests.{leb, ◌==◌, if◌then◌else◌, Bool-cases}

-- The code points for which `str.isspace` holds, and which `str.strip` removes.
unfoldable pub is_space_code : ℕ → Bool
is_space_code c =
    (leb 9 c && leb c 13)
    || ((leb 28 c && leb c 32)
        || (c == 133
            || (c == 160
                || (c == 5760
                    || ((leb 8192 c && leb c 8202)
                        || ((leb 8232 c && leb c 8233)
                            || (c == 8239 || (c == 8287 || c == 12288))))))))

abbrev pub is_space : Char → Bool
is_space c = is_space_code (code c)

abbrev pub is_empty : String → Bool
is_empty String.[] = true
is_empty (String.◌∷◌ c s) = false

-- `not s.strip()`
abbrev pub is_blank : String → Bool
is_blank String.[] = true
is_blank (String.◌∷◌ c s) = is_space c && is_blank s

abbrev pub lstrip : String → String
lstrip String.[] = String.[]
lstrip (String.◌∷◌ c s) = let rest = lstrip s in if is_space c then rest else String.◌∷◌ c s

-- A character goes if it and all that follows are spaces.
abbrev pub rstrip : String → String
rstrip String.[] = String.[]
rstrip (String.◌∷◌ c s) =
    let rest = String.◌∷◌ c (rstrip s) in if is_space c && is_blank s then String.[] else rest

abbrev pub strip : String → String
strip s = rstrip (lstrip s)

abbrev pub append : String → String → String
append String.[] t = t
append (String.◌∷◌ c s) t = String.◌∷◌ c (append s t)

-- `len(text)`
abbrev pub text_length : String → ℕ
text_length String.[] = 0
text_length (String.◌∷◌ c s) = suc (text_length s)

-- `text.strip() or None`
abbrev pub stripped : String → Option String
stripped s = let t = strip s in if is_empty t then none else some t

-- `(text.strip() or None) if text else None`, for an optional text.
abbrev pub stripped_option : Option String → Option String
stripped_option none = none
stripped_option (some s) = stripped s

pub rstrip-blank : (s : String) → is_blank s ≡ true → rstrip s ≡ String.[]
rstrip-blank String.[] h = refl
rstrip-blank (String.◌∷◌ c s) h = ground arith

pub blank-rstrip : (s : String) → is_blank (rstrip s) ≡ is_blank s
blank-rstrip String.[] = refl
blank-rstrip (String.◌∷◌ c s) = elim (Bool-cases (is_space c && is_blank s)) [
  | inl e ↦ rw e refl
  | inr e ↦ rw (e, blank-rstrip s) e
]

pub rstrip-rstrip : (s : String) → rstrip (rstrip s) ≡ rstrip s
rstrip-rstrip String.[] = refl
rstrip-rstrip (String.◌∷◌ c s) = elim (Bool-cases (is_space c && is_blank s)) [
  | inl e ↦ rw e refl
  | inr e ↦ rw (e, blank-rstrip s, e, rstrip-rstrip s) refl
]

pub lstrip-rstrip : (s : String) → lstrip (rstrip (lstrip s)) ≡ rstrip (lstrip s)
lstrip-rstrip String.[] = refl
lstrip-rstrip (String.◌∷◌ c s) = ground (arith, lstrip-rstrip s)

pub strip-strip : (s : String) → strip (strip s) ≡ strip s
strip-strip s = rw lstrip-rstrip (rstrip-rstrip (lstrip s))
