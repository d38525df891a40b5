-- ===== src/Registry/Tests.antt =====
-- Small inputs of swr-update-repo-attr.py: runs, and the theorems at them.
use dev_llmops.Prelude.{◌≡◌, refl, String, Bool, true, false, some, List, [], ◌∷◌, ◌++◌}
use dev_llmops.Prelude.Dict.{get, str_eq}
use dev_llmops.Registry.{
  Value, Config, Listed, body, Updated, accepted, refused, Update, End, stopped, filter_of,
  replace_slash, run, main,
}
use dev_llmops.Registry.Names.{has_char, restore, restore-replace_slash}
use dev_llmops.Registry.Updates.{planned, IsAnswered, run-asks}

abbrev value : String → Value
value s = record { shown = s; truthy = true }

abbrev config : Config
config =
    ("ak", value "a")
    ∷ ("sk", value "s")
    ∷ ("region", value "north")
    ∷ ("namespace", value "models")
    ∷ ("limit", value "50")
    ∷ ("target_attr", value "public")
    ∷ []

filter_runs : filter_of config ≡ "namespace::models|limit::50"
unfolding filter_of
filter_runs = refl

restore-replace_slash_example :
    (has_char b'/' (replace_slash "llm/qwen/7b") ≡ false)
    × (has_char b'$' "llm/qwen/7b" ≡ false → restore (replace_slash "llm/qwen/7b") ≡ "llm/qwen/7b")
restore-replace_slash_example = restore-replace_slash "llm/qwen/7b"

-- A world that is the updates asked for. The registry lists three repositories, and refuses to update
-- the one named `b`.
abbrev list_repos : String → List Update → Listed × List Update
list_repos filter w = (body ("x/a" ∷ "b" ∷ "c" ∷ []), w)

abbrev if_b : Bool → Updated
if_b true = refused
if_b false = accepted

abbrev update_repo : Update → List Update → Updated × List Update
update_repo u w = (if_b (str_eq u.repository "b"), w ++ u ∷ [])

main_runs : main list_repos update_repo (λ region. true) (some config) [] ≡ (
  stopped,
  record { namespace = "models"; repository = "x$a"; is_public = true }
      ∷ record { namespace = "models"; repository = "b"; is_public = true }
      ∷ [],
)
unfolding main
main_runs = refl

-- The same with the answers in the world.
abbrev quiet_list : String → List (Update × Updated) → Listed × List (Update × Updated)
quiet_list filter w = (body ("x/a" ∷ "b" ∷ "c" ∷ []), w)

abbrev logged_update : Update → List (Update × Updated) → Updated × List (Update × Updated)
logged_update u w = (if_b (str_eq u.repository "b"), w ++ (u, if_b (str_eq u.repository "b")) ∷ [])

run-asks_example :
    let ended : End × List (Update × Updated) = run quiet_list logged_update config [] in
    IsAnswered [] (planned "models" true ("x/a" ∷ "b" ∷ "c" ∷ [])) ended.0 ended.1
unfolding get
run-asks_example =
    run-asks quiet_list logged_update (λ w. w) (λ u w. refl) (λ filter w. refl) config "x/a"
      ("b" ∷ "c" ∷ []) (value "models") (value "public") [] refl refl refl
