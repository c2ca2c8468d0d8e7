-- ===== src/Tests/Resolving.antt =====
-- A router with two providers, one of them disabled.
use onegw.Prelude.{◌≡◌, ◌⊎◌, refl, Bool, true, false, String, List, [], ◌∷◌}
use onegw.Prelude.Assoc.{lookup}
use onegw.Prelude.Text.{Unicode, to_lower, cut_slash}
use onegw.Router.{
  Router, Def, Resolution, found, direct, target, ordered, find_first, any, retry_forever_model,
  bare_retry_forever, follow, canonical, resolve_bare, resolve, known_model,
}
use onegw.Router.Known.{Claimed, resolve-known}
use onegw.Router.Bare.{EnabledIn, bare-EnabledIn}

abbrev ascii : Unicode
ascii = record { lower = λ c. c; fold = λ c. c }

abbrev no_glob : String → String → Bool
no_glob pattern model = false

abbrev def : String → Bool → List String → Def
def n off ms = record {
  name = n;
  disabled = off;
  system_one = false;
  models = ms;
  retry_forever = [];
}

abbrev router : Router
router = record {
  pool = ("x", def "x" true ("gpt" ∷ [])) ∷ ("y", def "y" false ("gpt" ∷ [])) ∷ [];
  models = ("x/gpt", target "x" "gpt") ∷ ("y/gpt", target "y" "gpt") ∷ [];
  bare = ("gpt", "x" ∷ "y" ∷ []) ∷ [];
  combos = [];
  aliases = [];
}

abbrev served : Resolution
served = record {
  targets = target "y" "gpt" ∷ [];
  is_combo = false;
  model = "";
  strategy = ordered;
  combo = "";
}

gpt_resolves : resolve ascii no_glob router "gpt" ≡ found served
unfolding resolve canonical follow resolve_bare find_first bare_retry_forever retry_forever_model
    any lookup to_lower cut_slash
gpt_resolves = refl

gpt_bare : resolve_bare ascii no_glob router "gpt" ≡ found served
unfolding resolve_bare find_first bare_retry_forever retry_forever_model any lookup to_lower
gpt_bare = refl

resolve-known_example :
    ((known_model ascii no_glob router "gpt") ≡ true)
    ⊎ Claimed ascii no_glob router (canonical ascii no_glob router "gpt")
resolve-known_example = resolve-known ascii no_glob router "gpt" served gpt_resolves

bare-EnabledIn_example : (p : String) × (found served ≡ direct p "gpt") × EnabledIn router.pool p
bare-EnabledIn_example = bare-EnabledIn ascii no_glob router "gpt" served gpt_bare
