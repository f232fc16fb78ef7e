-- ===== src/Commands/Strips.antt =====
-- What `str.strip` and `str.partition` do to a text made of a word and a rest.
use Prim.Native.Char.{Char, code}
use human_llm_gateway.Prelude.{
  ℕ, ◌≡◌, refl, ◌∙◌, ap, String, Bool, true, false, ◌||◌, ◌==◌, is_space, is_blank, lstrip, rstrip,
  strip, append, rstrip-rstrip, Bool-cases, inl, inr, arith,
}
use human_llm_gateway.Prelude.Text.{is_space_code}
use human_llm_gateway.Commands.Syntax.{before, after}

abbrev pub has_space : String → Bool
has_space String.[] = false
has_space (String.◌∷◌ c s) = is_space c || has_space s

pub has_space-cons :
    (c : Char) (s : String)
    → has_space (String.◌∷◌ c s) ≡ false
    → (is_space c ≡ false) × (has_space s ≡ false)
has_space-cons c s h = ground arith

pub append-nil : (s : String) → append s String.[] ≡ s
append-nil String.[] = refl
append-nil (String.◌∷◌ c s) = ap (String.◌∷◌ c) (append-nil s)

-- A word is no space, so `rstrip` leaves it.
pub rstrip-append : (w t : String) → has_space w ≡ false → rstrip (append w t) ≡ append w (rstrip t)
rstrip-append String.[] t h = refl
rstrip-append (String.◌∷◌ c w) t h =
    let (dark, rest) = has_space-cons c w h in rw (dark, rstrip-append w t rest) refl

rstrip_word : (w : String) → has_space w ≡ false → rstrip w ≡ w
rstrip_word String.[] h = refl
rstrip_word (String.◌∷◌ c w) h =
    let (dark, rest) = has_space-cons c w h in rw (dark, rstrip_word w rest) refl

pub strip_word : (w : String) → has_space w ≡ false → strip w ≡ w
strip_word String.[] h = refl
strip_word (String.◌∷◌ c w) h =
    let (dark, rest) = has_space-cons c w h in rw (dark, dark, rstrip_word w rest) refl

dark-not-separator : (n : ℕ) → is_space_code n ≡ false → (n == 32) ≡ false
unfolding is_space_code
dark-not-separator n h = ground arith

pub before-append :
    (w t : String) → has_space w ≡ false → before 32 (append w t) ≡ append w (before 32 t)
before-append String.[] t h = refl
before-append (String.◌∷◌ c w) t h =
    let (dark, rest) = has_space-cons c w h in
    rw (dark-not-separator (code c) dark, before-append w t rest) refl

pub after-append : (w t : String) → has_space w ≡ false → after 32 (append w t) ≡ after 32 t
after-append String.[] t h = refl
after-append (String.◌∷◌ c w) t h =
    let (dark, rest) = has_space-cons c w h in
    rw (dark-not-separator (code c) dark) (after-append w t rest)

pub lstrip-blank : (s : String) → is_blank s ≡ true → lstrip s ≡ String.[]
lstrip-blank String.[] h = refl
lstrip-blank (String.◌∷◌ c s) h = ground (arith, lstrip-blank s)

pub lstrip-swap : (s : String) → lstrip (rstrip s) ≡ rstrip (lstrip s)
lstrip-swap String.[] = refl
lstrip-swap (String.◌∷◌ c s) = elim (Bool-cases (is_space c)) [
  | inl space ↦ elim (Bool-cases (is_blank s)) [
    | inl blank ↦ rw (space, blank, lstrip-blank s blank) refl
    | inr more ↦ rw (space, more, space) (lstrip-swap s)
  ]
  | inr dark ↦ rw (dark, dark) refl
]

pub strip-rstrip : (s : String) → strip (rstrip s) ≡ strip s
strip-rstrip s = ap rstrip (lstrip-swap s) ∙ rstrip-rstrip (lstrip s)
