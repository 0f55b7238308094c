-- ===== src/Jaxrs/Client/Replacing.antt =====
-- `String.replaceAll` with a quoted pattern, as buildOperation of ProxyHandler.java calls it.
use Prim.Native.Char.{Char, code}
use Prim.Native.String as Text
use text.Mathlib.Text.{starts_with}
use xenon_ext.Prelude.{
  ℕ, zero, suc, ◌-◌, ◌≡◌, refl, Bool, true, not, ◌&&◌, String, if◌then◌else◌, ◌==◌, arith, ltb,
}
use xenon_ext.Effect.{Throwable, illegal_argument, user_exception, Attempt, value, raise}
use xenon_ext.Fsm.Representation.{◌<>◌}
use xenon_ext.Jaxrs.Metadata.{and_then}

abbrev backslash : ℕ
backslash = 92

abbrev dollar : ℕ
dollar = 36

-- Where the walk over a replacement stands: after a backslash, after a dollar, and after the number
-- of a group, which goes on with zeros, since the quoted pattern has no group but 0.
pub data Walk : Type 0 where
  plain escaped group zeros : Walk

unfoldable pub onto : Char → Attempt String → Attempt String
onto c r = and_then (λ s. value (Text.◌∷◌ c s)) r

-- A group reference by a character other than 0.
unfoldable pub no_group : Char → Throwable
no_group c =
    if ltb 48 (code c) && ltb (code c) 58
    then user_exception "IndexOutOfBoundsException"
    else illegal_argument "Illegal group reference"

-- What a replacement stands for, where `found` is the text that the pattern has matched.
unfoldable pub expand : Walk → String → String → Attempt String
unfolding onto no_group
expand escaped found Text.[] = raise (illegal_argument "character to be escaped is missing")
expand group found Text.[] =
    raise (illegal_argument "Illegal group reference: group index is missing")
expand _ found Text.[] = value ""
expand escaped found (Text.◌∷◌ c s) = onto c (expand plain found s)
expand group found (Text.◌∷◌ c s) =
    let rest = expand zeros found s in
    if code c == 48 then and_then (λ t. value (found <> t)) rest else raise (no_group c)
expand plain found (Text.◌∷◌ c s) =
    let after_backslash = expand escaped found s in
    let after_dollar = expand group found s in
    let rest = expand plain found s in
    if code c == backslash
    then after_backslash
    else if code c == dollar
    then after_dollar
    else onto c rest
expand zeros found (Text.◌∷◌ c s) =
    let more = expand zeros found s in
    let after_backslash = expand escaped found s in
    let after_dollar = expand group found s in
    let rest = expand plain found s in
    if code c == 48
    then more
    else if code c == backslash
    then after_backslash
    else if code c == dollar
    then after_dollar
    else onto c rest

-- The rest of a text after some of its characters, with each occurrence of the pattern replaced.
unfoldable pub replace_from : String → String → ℕ → String → Attempt String
unfolding expand onto
replace_from pattern_ replacement skip Text.[] = value ""
replace_from pattern_ replacement (suc skip) (Text.◌∷◌ c s) =
    replace_from pattern_ replacement skip s
replace_from pattern_ replacement zero (Text.◌∷◌ c s) =
    let after = replace_from pattern_ replacement (Text.count pattern_ - 1) s in
    let rest = replace_from pattern_ replacement zero s in
    if starts_with (Text.◌∷◌ c s) pattern_
    then and_then (λ e. and_then (λ t. value (e <> t)) after) (expand plain pattern_ replacement)
    else onto c rest

-- `s.replaceAll(Pattern.quote(pattern), replacement)` for a pattern that is not empty.
unfoldable pub replace_all : String → String → String → Attempt String
unfolding replace_from
replace_all pattern_ replacement s = replace_from pattern_ replacement 0 s

-- The text has no backslash and no dollar.
abbrev pub is_literal : String → Bool
is_literal Text.[] = true
is_literal (Text.◌∷◌ c s) = not (code c == backslash) && (not (code c == dollar) && is_literal s)

-- A replacement without backslashes and dollars stands for itself.
pub expand-literal : (found s : String) → is_literal s ≡ true → expand plain found s ≡ value s
unfolding expand onto
expand-literal found Text.[] h = refl
expand-literal found (Text.◌∷◌ c s) h = ground (arith, expand-literal found s)
