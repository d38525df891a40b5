-- ===== src/Registry/Updates.antt =====
-- The updates that swr-update-repo-attr.py sends.
use dev_llmops.Prelude.{
  ◌≡◌, refl, ap, sym, ◌∙◌, String, Bool, some, List, [], ◌∷◌, ◌++◌, map, append_assoc, append-nil,
}
use dev_llmops.Prelude.Dict.{get, str_eq}
use dev_llmops.Registry.{
  Value, Config, Listed, body, Updated, accepted, refused, update_failure, Update, End, completed,
  stopped, raises, filter_of, replace_slash, get_repo_list, update_all, update_repo_attr, run,
}

-- The updates of repositories, in order.
abbrev pub planned : String → Bool → List String → List Update
planned namespace is_public [] = []
planned namespace is_public (repo ∷ repos) =
    record { namespace = namespace; repository = replace_slash repo; is_public = is_public }
    ∷ planned namespace is_public repos

-- How a run ends by an answer that does not accept.
abbrev pub Ends : Updated → End → Type 0
Ends accepted e = ⊥
Ends refused e = e ≡ stopped
Ends update_failure e = e ≡ raises

abbrev pub accepts : List Update → List (Update × Updated)
accepts us = map (λ u. (u, accepted)) us

-- The requests that follow `before` in a log, with their answers, against a plan: each of the plan, all
-- accepted, or the first of them, all accepted, and one more that is not.
pub data IsAnswered (before : List (Update × Updated)) (plan : List Update) (e : End)
    (after : List (Update × Updated)) : Type 0 where
  all_accepted : e ≡ completed → after ≡ before ++ accepts plan → IsAnswered before plan e after
  not_accepted :
      (good left : List Update) (u : Update) (answer : Updated)
      → plan ≡ good ++ u ∷ left
      → after ≡ before ++ (accepts good ++ (u, answer) ∷ [])
      → Ends answer e
      → IsAnswered before plan e after

longer :
    (u : Update) (plan : List Update) (e : End) (before next after : List (Update × Updated))
    → next ≡ before ++ (u, accepted) ∷ []
    → IsAnswered next plan e after
    → IsAnswered before (u ∷ plan) e after
longer u plan e before next after one (all_accepted done logged) = all_accepted done (
    logged
    ∙ ap (λ us. us ++ accepts plan) one
    ∙ append_assoc before ((u, accepted) ∷ []) (accepts plan))
longer u plan e before next after one (not_accepted good left v answer parts logged ends) =
    not_accepted (u ∷ good) left v answer (ap (λ us. u ∷ us) parts)
      (logged
        ∙ ap (λ us. us ++ (accepts good ++ (v, answer) ∷ [])) one
        ∙ append_assoc before ((u, accepted) ∷ []) (accepts good ++ (v, answer) ∷ []))
      ends

-- `log` reads from a world the updates that were asked for and their answers; listing asks for none.
module _ {S : Type 0} (list_repos : String → S → Listed × S)
    (update_repo : Update → S → Updated × S) (log : S → List (Update × Updated))
    (logs : (u : Update) (w : S) → log (update_repo u w).1 ≡ log w ++ (u, (update_repo u w).0) ∷ [])
    (quiet : (filter : String) (w : S) → log (list_repos filter w).1 ≡ log w) where
  -- One more update in front, by what it was answered.
  update-IsAnswered :
      (u : Update) (plan : List Update) (w w' : S) (updated : Updated) (rest : End × S)
      → log w' ≡ log w ++ (u, updated) ∷ []
      → IsAnswered (log w') plan rest.0 (log rest.1)
      → let ended : End × S = elim updated [
        | accepted ↦ rest
        | refused ↦ (stopped, w')
        | update_failure ↦ (raises, w')
      ] in
        IsAnswered (log w) (u ∷ plan) ended.0 (log ended.1)
  update-IsAnswered u plan w w' accepted rest one h =
      longer u plan rest.0 (log w) (log w') (log rest.1) one h
  update-IsAnswered u plan w w' refused rest one h = not_accepted [] plan u refused refl one refl
  update-IsAnswered u plan w w' update_failure rest one h =
      not_accepted [] plan u update_failure refl one refl

  update_all-IsAnswered :
      (namespace : String) (is_public : Bool) (repos : List String) (w : S)
      → let ended : End × S = update_all list_repos update_repo namespace is_public repos w in
        IsAnswered (log w) (planned namespace is_public repos) ended.0 (log ended.1)
  unfolding update_all
  update_all-IsAnswered namespace is_public [] w = all_accepted refl (sym (append-nil (log w)))
  update_all-IsAnswered namespace is_public (repo ∷ repos) w =
      let u : Update = record {
        namespace = namespace;
        repository = replace_slash repo;
        is_public = is_public;
      } in
      let w' = (update_repo u w).1 in
      update-IsAnswered u (planned namespace is_public repos) w w' (update_repo u w).0
        (update_all list_repos update_repo namespace is_public repos w') (logs u w)
        (update_all-IsAnswered namespace is_public repos w')

  -- Where the listing gives repositories and the configuration has a namespace and a target, the run
  -- asks for one update of each repository in the order of the list, under the escaped name and with
  -- the target's visibility, up to the first that is not accepted. By the answers that the log has:
  -- either every update was asked for and accepted and the run completes; or some were accepted, the
  -- next was not and was the last, and the run is stopped by a refusal or raises by another failure.
  pub run-asks :
      (config : Config) (repo : String) (repos : List String) (namespace target : Value) (w : S)
      → (list_repos (filter_of config) w).0 ≡ body (repo ∷ repos)
      → get "namespace" config ≡ some namespace
      → get "target_attr" config ≡ some target
      → let ended : End × S = run list_repos update_repo config w in
        IsAnswered
          (log w)
          (planned namespace.shown (str_eq target.shown "public") (repo ∷ repos))
          ended.0
          (log ended.1)
  unfolding run get_repo_list update_repo_attr
  run-asks config repo repos namespace target w listed named aimed =
      let is_public = str_eq target.shown "public" in
      let w' = (list_repos (filter_of config) w).1 in
      let answered = update_all-IsAnswered namespace.shown is_public (repo ∷ repos) w' in
      rw (listed, named, aimed, update_repo_attr) (rw (quiet (filter_of config) w) at answered)
