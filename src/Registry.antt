-- ===== src/Registry.antt =====
-- scripts/huaweicloud/swr-update-repo/swr-update-repo-attr.py: makes the image repositories of a cloud
-- registry public or private.
pub mod Names
pub mod Updates
mod Tests
use Prim.Native.Char.{code}
use Prim.Native.String
use dev_llmops.Prelude.{
  ℕ, String, Bool, true, false, Option, none, some, List, [], ◌∷◌, ◌++◌, ◌==◌, if◌then◌else◌,
}
use dev_llmops.Prelude.Text.{text, join}
use dev_llmops.Prelude.Dict.{Dict, get, str_eq}

-- A value of the configuration: its text, and whether it counts as true.
pub record Value : Type 0 where
  pub shown : String
  pub truthy : Bool

abbrev pub Config : Type 0
Config = Dict Value

-- What `client.list_repos_details` does: list_refused is the exception that the script catches, and
-- list_failure any other.
pub data Listed : Type 0 where
  body : List String → Listed
  no_body : Listed
  list_refused : Listed
  list_failure : Listed

-- What `client.update_repo` does.
pub data Updated : Type 0 where
  accepted : Updated
  refused : Updated
  update_failure : Updated

pub record Update : Type 0 where
  pub namespace : String
  pub repository : String
  pub is_public : Bool

-- What `get_repo_list` returns.
pub data Repos : Type 0 where
  names : List String → Repos
  no_value : Repos
  list_raises : Repos

-- How the script ends: with nothing to update, with all updated, with an error that is logged, or by an
-- exception.
pub data End : Type 0 where
  nothing : End
  completed : End
  stopped : End
  raises : End

-- "key::value" where the entry counts as true
unfoldable pub filter_part : String → Config → List String
unfolding get text
filter_part key config = elim (get key config) [
  | none ↦ []
  | some v ↦ if v.truthy then text (key ∷ "::" ∷ v.shown ∷ []) ∷ [] else []
]

-- request.filter
unfoldable pub filter_of : Config → String
unfolding filter_part join
filter_of config =
    join "|" (
      filter_part "namespace" config
      ++ filter_part "limit" config
      ++ filter_part "is_public" config)

-- s.replace('/', '$')
unfoldable pub replace_slash : String → String
replace_slash String.[] = ""
replace_slash (String.◌∷◌ c s) =
    let rest = replace_slash s in if code c == b'/' then String.◌∷◌ "$" rest else String.◌∷◌ c rest

-- The client of the cloud: `list_repos` and `update_repo` on the state of the outside world.
module _ {S : Type 0} (list_repos : String → S → Listed × S)
    (update_repo : Update → S → Updated × S) where
  unfoldable pub get_repo_list : Config → S → Repos × S
  unfolding filter_of
  get_repo_list config w =
      let (listed, w') = list_repos (filter_of config) w in
      (
        elim listed [
          | body repos ↦ names repos
          | no_body ↦ names []
          | list_refused ↦ no_value
          | list_failure ↦ list_raises
        ],
        w',
      )

  -- The loop over the repositories.
  unfoldable pub update_all : String → Bool → List String → S → End × S
  unfolding replace_slash
  update_all namespace is_public [] w = (completed, w)
  update_all namespace is_public (repo ∷ repos) w =
      let request : Update = record {
        namespace = namespace;
        repository = replace_slash repo;
        is_public = is_public;
      } in
      let (updated, w') = update_repo request w in
      elim updated [
        | accepted ↦ update_all namespace is_public repos w'
        | refused ↦ (stopped, w')
        | update_failure ↦ (raises, w')
      ]

  -- A missing entry raises.
  unfoldable pub update_repo_attr : Config → List String → S → End × S
  unfolding update_all get
  update_repo_attr config [] w = (nothing, w)
  update_repo_attr config (repo ∷ repos) w = elim (get "namespace" config) [
    | none ↦ (raises, w)
    | some namespace ↦ elim (get "target_attr" config) [
      | none ↦ (raises, w)
      | some target ↦ update_all namespace.shown (str_eq target.shown "public") (repo ∷ repos) w
    ]
  ]

  -- The main program, after the client is made from the configuration; `len(None)` raises.
  unfoldable pub run : Config → S → End × S
  unfolding get_repo_list update_repo_attr
  run config w =
      let (listed, w') = get_repo_list config w in
      elim listed [
        | names repos ↦ update_repo_attr config repos w'
        | no_value ↦ (raises, w')
        | list_raises ↦ (raises, w')
      ]

  -- The main program. A configuration that is not loaded is None, and making the client raises then,
  -- as it does where an entry is missing; `value_of` says whether a region is known.
  unfoldable pub main : (String → Bool) → Option Config → S → End × S
  unfolding run get
  main value_of none w = (raises, w)
  main value_of (some config) w = elim (get "ak" config) [
    | none ↦ (raises, w)
    | some ak ↦ elim (get "sk" config) [
      | none ↦ (raises, w)
      | some sk ↦ elim (get "region" config) [
        | none ↦ (raises, w)
        | some region ↦ if value_of region.shown then run config w else (raises, w)
      ]
    ]
  ]
