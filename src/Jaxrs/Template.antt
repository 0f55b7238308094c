-- ===== src/Jaxrs/Template.antt =====
-- Paths as templates: pieces behind slashes that are words or placeholders, against the texts that
-- RequestRouterBuilder.java, MethodInfoBuilder.java and ProxyHandler.java work on.
pub mod Splitting
pub mod Passing
pub mod Filling
pub mod Built
pub mod Placing
pub mod RoundTrip
mod Tests
use Prim.Native.String as Text
use xenon_ext.Prelude.{
  ◌≡◌, Bool, true, false, Option, none, some, List, [], ◌∷◌, map, String, str_eq, if◌then◌else◌,
}
use xenon_ext.Fsm.Representation.{◌<>◌}
use xenon_ext.Jaxrs.Paths.{contains_char, is_blank}

pub data Piece : Type 0 where
  word hole : String → Piece

abbrev pub show : Piece → String
show (word s) = s
show (hole name) = "{" <> (name <> "}")

-- "/a/{b}" for the word a and the placeholder b.
abbrev pub path_of : List Piece → String
path_of [] = ""
path_of (p ∷ ps) = "/" <> (show p <> path_of ps)

abbrev pub words : List String → List Piece
words l = map word l

-- A text without slashes and opening braces that is not empty.
abbrev pub IsWord : String → Type 0
IsWord s = (contains_char 47 s ≡ false) × (contains_char 123 s ≡ false) × (is_blank s ≡ false)

-- A word, or a placeholder without slashes and braces in its name.
abbrev pub IsPiece : Piece → Type 0
IsPiece (word s) = IsWord s
IsPiece (hole name) =
    (contains_char 47 name ≡ false)
    × (contains_char 123 name ≡ false)
    × (contains_char 125 name ≡ false)
