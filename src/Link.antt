-- ===== src/Link.antt =====
-- The links of documents: ServiceClientUtil.selfLinkToId, and the link that docGraphson of
-- FSMStatsServiceImpl.java takes of a document's service.
pub mod Parts
pub mod Removing
use Prim.Native.Char.{Char, code}
use Prim.Native.String as Text
use xenon_ext.Prelude.{Option, none, some, String, if◌then◌else◌, ◌==◌}

unfoldable pub before_slash : Char → Option String → Option String
before_slash c (some s) = some (Text.◌∷◌ c s)
before_slash c none = if code c == 47 then some "" else none

-- `uri.substring(0, uri.lastIndexOf("/"))`, which throws without a slash.
unfoldable pub before_last_slash : String → Option String
unfolding before_slash
before_last_slash Text.[] = none
before_last_slash (Text.◌∷◌ c s) = before_slash c (before_last_slash s)

-- What stands behind the last slash, by whether the rest of the text has one, and by what stands
-- behind that one.
unfoldable pub behind_slash : Char → String → Option String → String → String
behind_slash c s (some before) behind = behind
behind_slash c s none behind = if code c == 47 then s else Text.◌∷◌ c s

-- `selfLink.substring(selfLink.lastIndexOf("/") + 1, selfLink.length())`, which is the whole text
-- without a slash.
unfoldable pub self_link_to_id : String → String
unfolding behind_slash before_last_slash
self_link_to_id Text.[] = ""
self_link_to_id (Text.◌∷◌ c s) = behind_slash c s (before_last_slash s) (self_link_to_id s)
