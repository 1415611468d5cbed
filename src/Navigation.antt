-- ===== src/Navigation.antt =====
-- The URLs that the front end builds (frontend/src/navigation/routePaths.ts), with ECMAScript's
-- `encodeURIComponent`.
pub mod Encode
use full_stack_resume.Common.{◌+◌, ◌/◌, ◌<◌, String, Option, none, some, ◌++◌, ◌==◌, if◌then◌else◌}
use Prim.Native.String
use Encode.{encode}

infixr 66 ◌<>◌
abbrev pub ◌<>◌ : String → String → String
a <> b = String.◌++◌ a b

unfoldable pub home : String
home = "/"

-- `login(next)`; without a place to return to, or with the board, the bare path
unfoldable pub login : Option String → String
login none = "/login"
login (some next) = if next == "/" then "/login" else "/login?next=" <> encode next

unfoldable pub application : String → String
application id = "/applications/" <> encode id

unfoldable pub resume_application : String → String
unfolding application
resume_application id = application id <> "/resume"

unfoldable pub analysis : String → String
unfolding application
analysis id = application id <> "/analysis"

unfoldable pub matching : String → String
unfolding application
matching id = application id <> "/analysis/matching"

unfoldable pub verification : String → String
unfolding application
verification id = application id <> "/verification"

unfoldable pub draft : String → String
unfolding application
draft id = application id <> "/draft"

unfoldable pub ready : String → String
unfolding application
ready id = application id <> "/ready"
