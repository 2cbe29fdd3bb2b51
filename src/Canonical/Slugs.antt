-- ===== src/Canonical/Slugs.antt =====
-- canonical/canonical.mapper.ts: `slugify`, and the first free name of a numbered series, which the keys of
-- sections and the slugs of tests share. `toLowerCase` and `normalize` belong to the platform.
pub mod Digits
pub mod Fresh
use Prim.Native.Char.{Char, code}
use Prim.Native.String.{◌++◌ as append, [] as empty, ◌∷◌ as cons}
use tmx_assessment.Prelude.{
  ℕ, zero, suc, ◌+◌, String, Bool, true, false, ◌&&◌, ◌||◌, not, leb, ◌==◌, List, [], ◌∷◌, any,
  length, if◌then◌else◌,
}
use tmx_assessment.Prelude.Text.{◌===◌, filled}
use tmx_assessment.Canonical.Questions.{nat_text}

-- `toLowerCase`, `normalize` to NFKD and `toUpperCase`
pub record Unicode : Type 0 where
  pub lower : String → String
  pub nfkd : String → String
  pub upper : String → String

-- The combining marks, U+0300 to U+036F
abbrev is_mark : Char → Bool
is_mark c = leb 0x300 (code c) && leb (code c) 0x36f

unfoldable without_marks : String → String
without_marks empty = empty
without_marks (cons c s) = let rest = without_marks s in if is_mark c then rest else cons c rest

-- `[a-z0-9]`
abbrev is_slug_char : Char → Bool
is_slug_char c = leb 97 (code c) && leb (code c) 122 || leb 48 (code c) && leb (code c) 57

abbrev is_hyphen : Char → Bool
is_hyphen c = code c == 45

-- Each run of other characters becomes one hyphen; the flag says that the run has its hyphen.
unfoldable hyphenated : Bool → String → String
hyphenated in_run empty = empty
hyphenated in_run (cons c s) =
    let within = hyphenated true s in
    let outside = hyphenated false s in
    if is_slug_char c then cons c outside else if in_run then within else append "-" within

unfoldable strip_start : String → String
strip_start empty = empty
strip_start (cons c s) = let rest = strip_start s in if is_hyphen c then rest else cons c s

unfoldable pub strip_end : String → String
strip_end empty = empty
strip_end (cons c s) =
    let rest = strip_end s in if is_hyphen c && not (filled rest) then empty else cons c rest

unfoldable pub slice_to : ℕ → String → String
slice_to zero s = empty
slice_to (suc n) empty = empty
slice_to (suc n) (cons c s) = cons c (slice_to n s)

abbrev pub or_fallback : String → String → String
or_fallback fallback slug = if filled slug then slug else fallback

unfoldable pub slugify : Unicode → String → String → String
unfolding without_marks hyphenated strip_start strip_end slice_to
slugify u text fallback = or_fallback fallback (
    strip_end (
      slice_to 80
        (strip_end (strip_start (hyphenated false (u.lower (without_marks (u.nfkd text))))))))

-- `${base}-${n}`
unfoldable pub numbered : String → ℕ → String
unfolding nat_text
numbered base n = append base (append "-" (nat_text n))

abbrev pub is_used : List String → String → Bool
is_used taken name = any (λ t. t === name) taken

-- The loop over n: the first of `base-n`, `base-(n+1)`... that is not taken, within the fuel.
unfoldable pub first_numbered : ℕ → List String → String → ℕ → String
unfolding numbered
first_numbered zero taken base n = numbered base n
first_numbered (suc fuel) taken base n =
    let next = first_numbered fuel taken base (suc n) in
    if is_used taken (numbered base n) then next else numbered base n

-- `base` itself where it is free, and otherwise the first free number from 2. One of the names up to
-- the number of those taken is free, so their number is enough fuel.
unfoldable pub first_free : List String → String → String
unfolding first_numbered
first_free taken base =
    let other = first_numbered (length taken) taken base 2 in
    if is_used taken base then other else base
