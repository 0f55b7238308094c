-- ===== src/Fsm/Create.antt =====
-- handleCreate of FSMService.java, which registers the class of the service with the statistics
-- service.
pub mod Registered
mod Tests
use Prim.Native.Char.{Char, code}
use Prim.Native.String as Text
use xenon_ext.Prelude.{
  ℕ, Bool, true, false, List, [], ◌∷◌, String, if◌then◌else◌, ◌==◌, ◌&&◌, not, ◌||◌,
}
use xenon_ext.Effect.{Attempt, Comp, done, lift, modify, ◌>>=◌, ◌>>◌}
use xenon_ext.Fsm.Representation.{◌<>◌}
use xenon_ext.Fsm.Behaviour.{OperationRef}
use xenon_ext.Jaxrs.Client.Replacing.{replace_all}

-- An instance of the service, and the world.
pub record Instance (W : Type 0) : Type 0 where
  pub do_registration : Bool
  pub world : W

-- What a call does to the world, and leaves the instance as it is.
abbrev pub in_world : {W A : Type 0} → Comp W A → Comp (Instance W) A
in_world m s = let (r, w) = m s.world in (r, record s { world = w })

-- The characters that stand for more than themselves in a regular expression.
abbrev metacharacters : List ℕ
metacharacters = 92 ∷ 94 ∷ 36 ∷ 46 ∷ 124 ∷ 63 ∷ 42 ∷ 43 ∷ 40 ∷ 41 ∷ 91 ∷ 93 ∷ 123 ∷ 125 ∷ []

abbrev is_one_of : ℕ → List ℕ → Bool
is_one_of n [] = false
is_one_of n (k ∷ ks) = n == k || is_one_of n ks

unfoldable pub is_plain : String → Bool
is_plain Text.[] = true
is_plain (Text.◌∷◌ c s) = not (is_one_of (code c) metacharacters) && is_plain s

-- `self_link.replaceAll("/" + self_id, "")`; `replace_pattern` is `replaceAll` with a pattern that
-- does not stand for itself.
unfoldable pub svc_uri_of :
    (String → String → String → Attempt String) → String → String → Attempt String
unfolding is_plain replace_all
svc_uri_of replace_pattern self_link self_id =
    if is_plain self_id
    then replace_all ("/" <> self_id) "" self_link
    else replace_pattern ("/" <> self_id) "" self_link

-- `handle_base` is `handleCreate` of StatefulService; `build` makes the client of the statistics
-- service, and `register` is its `registerSvc`.
module _ {W C : Type 0} (replace_pattern : String → String → String → Attempt String)
    (handle_base : OperationRef → Comp W (Unit {0})) (build : Comp W C)
    (register : C → String → String → Comp W (List String)) where
  unfoldable pub register_with : String → String → String → C → Comp (Instance W) (Unit {0})
  unfolding svc_uri_of
  register_with self_link self_id class_name stats_service = do
    modify (λ s. record s { do_registration = false })
    svc_uri ← lift (svc_uri_of replace_pattern self_link self_id)
    services ← in_world (register stats_service svc_uri class_name)
    done tt

  unfoldable pub register_if : Bool → String → String → String → Comp (Instance W) (Unit {0})
  unfolding register_with
  register_if false self_link self_id class_name = done tt
  register_if true self_link self_id class_name = do
    stats_service ← in_world build
    register_with self_link self_id class_name stats_service

  unfoldable pub handle_create :
      String → String → String → OperationRef → Comp (Instance W) (Unit {0})
  unfolding register_if
  handle_create self_link self_id class_name post = do
    in_world (handle_base post)
    λ s. register_if s.do_registration self_link self_id class_name s
