-- ===== src/PerfEval/Mode1/Sheets.antt =====
-- The sheets that `run_mode1` of llm-perf-eval.py writes.
use dev_llmops.Prelude.{
  ℕ, ◌+◌, String, ◌≡◌, refl, ◌∙◌, ap, true, false, none, List, [], ◌∷◌, ◌++◌, append_assoc,
  append-nil, inl, inr, Bool-cases,
}
use dev_llmops.PerfEval.Mode1.{
  Engine, start, health, row, logs, warmup, sheet, Steps, Service, Settings, empty_rows,
  failed_sheet, run_cases, measure, serve_command, test_command, run_command, run_commands,
  run_engines, run_mode1,
}

-- A sheet: the engine and the command, and the cases of its rows in order.
abbrev pub Sheet : Type 0 → Type 0 → Type 0
Sheet A B = (String × String) × List (A × B)

module _ {A B : Type 0} where
  -- A row goes to the newest sheet.
  abbrev pub add_row : A × B → List (Sheet A B) → List (Sheet A B)
  add_row c [] = []
  add_row c ((name, cases) ∷ sheets) = (name, cases ++ c ∷ []) ∷ sheets

module _ {A B : Type 0} (cases : List (A × B)) where
  -- A sheet for each command, with all the cases; the newest first.
  abbrev pub command_sheets : String → List String → List (Sheet A B) → List (Sheet A B)
  command_sheets engine_name [] older = older
  command_sheets engine_name (cmd ∷ cmds) older =
      command_sheets engine_name cmds (((engine_name, cmd), cases) ∷ older)

  abbrev pub engine_sheets : List Engine → List (Sheet A B) → List (Sheet A B)
  engine_sheets [] older = older
  engine_sheets (e ∷ engines) older =
      engine_sheets engines (command_sheets e.engine_name e.commands older)

module _ {A B R : Type 0} where
  -- The sheets of a history, the newest first.
  abbrev pub sheets_of : Steps A B R → List (Sheet A B)
  sheets_of [] = []
  sheets_of (sheet i engine_name cmd ∷ h) = ((engine_name, cmd), []) ∷ sheets_of h
  sheets_of (row ctx br result ∷ h) = add_row (ctx, br) (sheets_of h)
  sheets_of (e ∷ h) = sheets_of h

  empty_rows-sheets :
      (name : String × String) (before cases : List (A × B)) (older : List (Sheet A B))
      (h : Steps A B R)
      → sheets_of h ≡ (name, before) ∷ older
      → sheets_of (empty_rows cases h) ≡ (name, before ++ cases) ∷ older
  unfolding empty_rows
  empty_rows-sheets name before [] older h e = rw (append-nil before) e
  empty_rows-sheets name before ((ctx, br) ∷ cases) older h e =
      empty_rows-sheets name (before ++ (ctx, br) ∷ []) cases older (row ctx br none ∷ h)
        (ap (add_row (ctx, br)) e)
      ∙ ap (λ (l : List (A × B)). (name, l) ∷ older) (append_assoc before ((ctx, br) ∷ []) cases)

module _ {A B R : Type 0} (service : Service A B R) (settings : Settings)
    (cases : List (A × B)) where
  run_cases-sheets :
      (name : String × String) (before rest : List (A × B)) (older : List (Sheet A B))
      (h : Steps A B R)
      → sheets_of h ≡ (name, before) ∷ older
      → sheets_of (run_cases service settings cases rest h) ≡ (name, before ++ rest) ∷ older
  unfolding run_cases
  run_cases-sheets name before [] older h e = rw (append-nil before) e
  run_cases-sheets name before ((ctx, br) ∷ rest) older h e =
      run_cases-sheets name (before ++ (ctx, br) ∷ []) rest older _ (ap (add_row (ctx, br)) e)
      ∙ ap (λ (l : List (A × B)). (name, l) ∷ older) (append_assoc before ((ctx, br) ∷ []) rest)

  failed_sheet-sheets :
      (title : String) (i : ℕ) (engine_name cmd : String) (h : Steps A B R)
      → sheets_of (failed_sheet title i engine_name cmd cases h)
        ≡ ((engine_name, cmd), cases) ∷ sheets_of h
  unfolding failed_sheet
  failed_sheet-sheets title i engine_name cmd h =
      empty_rows-sheets (engine_name, cmd) [] cases (sheets_of h) (sheet i engine_name cmd ∷ h) refl

  measure-sheets :
      (i : ℕ) (engine_name cmd : String) (h : Steps A B R)
      → sheets_of (measure service settings cases i engine_name cmd h)
        ≡ ((engine_name, cmd), cases) ∷ sheets_of h
  unfolding measure
  measure-sheets i engine_name cmd h = elim (Bool-cases settings.warmup_enabled) [
    | inl on ↦ rw on (
        run_cases-sheets (engine_name, cmd) [] cases (sheets_of h)
          (sheet i engine_name cmd ∷ warmup ∷ h) refl)
    | inr none_on ↦ rw none_on (
        run_cases-sheets (engine_name, cmd) [] cases (sheets_of h) (sheet i engine_name cmd ∷ h)
          refl)
  ]

  test_command-sheets :
      (i : ℕ) (engine_name cmd : String) (h : Steps A B R)
      → sheets_of (test_command service settings cases i engine_name cmd h)
        ≡ ((engine_name, cmd), cases) ∷ sheets_of h
  unfolding test_command
  test_command-sheets i engine_name cmd h = elim (Bool-cases settings.bench_only_healthcheck) [
    | inr skipped ↦ rw skipped (measure-sheets i engine_name cmd h)
    | inl asked ↦ elim (Bool-cases (service.is_healthy h)) [
      | inl well ↦ rw (asked, well) (measure-sheets i engine_name cmd (health true ∷ h))
      | inr ill ↦
          rw (asked, ill) (failed_sheet-sheets "健康检查失败" i engine_name cmd (health false ∷ h))
    ]
  ]

  serve_command-sheets :
      (i : ℕ) (engine_name cmd : String) (h : Steps A B R)
      → sheets_of (serve_command service settings cases i engine_name cmd h)
        ≡ ((engine_name, cmd), cases) ∷ sheets_of h
  unfolding serve_command
  serve_command-sheets i engine_name cmd h = elim (Bool-cases (service.starts h cmd)) [
    | inr down ↦ rw down (failed_sheet-sheets "启动失败日志" i engine_name cmd (start cmd false ∷ h))
    | inl up ↦ elim (Bool-cases (service.is_healthy (start cmd true ∷ h))) [
      | inl well ↦
          rw (up, well) (measure-sheets i engine_name cmd (health true ∷ start cmd true ∷ h))
      | inr ill ↦
          rw (up, ill)
            (failed_sheet-sheets "健康检查失败日志" i engine_name cmd
              (logs ∷ health false ∷ start cmd true ∷ h))
    ]
  ]

  run_command-sheets :
      (i : ℕ) (engine_name cmd : String) (h : Steps A B R)
      → sheets_of (run_command service settings cases i engine_name cmd h)
        ≡ ((engine_name, cmd), cases) ∷ sheets_of h
  unfolding run_command
  run_command-sheets i engine_name cmd h = elim (Bool-cases settings.bench_only) [
    | inl alone ↦ rw alone (test_command-sheets i engine_name cmd h)
    | inr own ↦ rw own (serve_command-sheets i engine_name cmd h)
  ]

  run_commands-sheets :
      (i : ℕ) (engine_name : String) (cmds : List String) (h : Steps A B R)
      → sheets_of (run_commands service settings cases i engine_name cmds h)
        ≡ command_sheets cases engine_name cmds (sheets_of h)
  unfolding run_commands
  run_commands-sheets i engine_name [] h = refl
  run_commands-sheets i engine_name (cmd ∷ cmds) h =
      run_commands-sheets (i + 1) engine_name cmds _
      ∙ ap (command_sheets cases engine_name cmds) (run_command-sheets i engine_name cmd h)

  run_engines-sheets :
      (engines : List Engine) (h : Steps A B R)
      → sheets_of (run_engines service settings cases engines h)
        ≡ engine_sheets cases engines (sheets_of h)
  unfolding run_engines
  run_engines-sheets [] h = refl
  run_engines-sheets (e ∷ engines) h =
      run_engines-sheets engines _
      ∙ ap (engine_sheets cases engines) (run_commands-sheets 1 e.engine_name e.commands h)

module _ {A B R : Type 0} (service : Service A B R) (settings : Settings) where
  -- Mode 1 with at least one case, whatever the service answers and with `bench_only` or without:
  -- every command of every engine gets one sheet, in order, and the sheet has exactly one row for each
  -- case, in the order of the cases, also where the model does not start or is not healthy.
  pub run_mode1-sheets :
      (c : A × B) (rest : List (A × B)) (engines : List Engine)
      → sheets_of (run_mode1 service settings (c ∷ rest) engines)
        ≡ engine_sheets (c ∷ rest) engines []
  unfolding run_mode1
  run_mode1-sheets c rest engines = run_engines-sheets service settings (c ∷ rest) engines []
