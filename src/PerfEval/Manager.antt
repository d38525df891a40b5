-- ===== src/PerfEval/Manager.antt =====
-- The life of a model's container: the class `ModelManager` of LLMOps/Benchmark/llm-perf-eval.py.
pub mod Quoting
pub mod Health
use Prim.Native.Char.{code}
use Prim.Native.String
use dev_llmops.Prelude.{
  ℕ, zero, suc, String, Bool, true, false, not, ◌&&◌, ◌||◌, Option, none, some, List, [], ◌∷◌, ◌++◌,
  leb, ◌==◌, if◌then◌else◌,
}
use dev_llmops.Prelude.Text.{text, join, show, strip, is_empty, is_space, after_prefix}

-- The fields that the methods read; an empty `ssh_cmd` counts as none.
pub record Manager : Type 0 where
  pub container_cmd : String
  pub stop_cmd : String
  pub ssh_cmd : Option String
  pub container_name : Option String
  pub initial_delay : ℕ
  pub interval : ℕ
  pub retry_count : ℕ

-- cmd.replace("'", "'\"'\"'"), followed by a text
unfoldable pub escape_quotes : String → String → String
escape_quotes String.[] end = end
escape_quotes (String.◌∷◌ c s) end =
    let rest = escape_quotes s end in
    if code c == b'\''
    then String.◌∷◌ "'" (String.◌∷◌ "\"" (String.◌∷◌ "'" (String.◌∷◌ "\"" (String.◌∷◌ "'" rest))))
    else String.◌∷◌ c rest

-- The command as one word for the shell.
unfoldable pub single_quoted : String → String
unfolding escape_quotes
single_quoted cmd = String.◌∷◌ "'" (escape_quotes cmd "'")

-- The text that `_run_cmd` gives to the shell.
unfoldable pub exec_cmd : Option String → String → String
unfolding single_quoted text
exec_cmd none cmd = cmd
exec_cmd (some ssh_cmd) cmd = text (ssh_cmd ∷ " " ∷ single_quoted cmd ∷ [])

-- What `subprocess.run` does: the return code (that of a signal, which is negative, as any other than
-- 0), stdout and stderr, or an exception with its text.
pub data Ran : Type 0 where
  finished : ℕ → String → String → Ran
  timed_out raised : String → Ran

-- part in text
unfoldable pub contains : String → String → Bool
unfolding after_prefix
contains part String.[] = elim (after_prefix part "") [ none ↦ false | some rest ↦ true ]
contains part (String.◌∷◌ c s) =
    let later = contains part s in
    elim (after_prefix part (String.◌∷◌ c s)) [ none ↦ later | some rest ↦ true ]

-- ("sudo docker" in container_cmd) or ("sudo docker" in stop_cmd)
unfoldable pub prefers_sudo : Manager → Bool
unfolding contains
prefers_sudo m = contains "sudo docker" m.container_cmd || contains "sudo docker" m.stop_cmd

-- A command with `sudo` and without, the preferred one first.
unfoldable pub candidates : Manager → String → List String
unfolding prefers_sudo text
candidates m base =
    let sudo = text ("sudo " ∷ base ∷ []) in
    if prefers_sudo m then sudo ∷ base ∷ [] else base ∷ sudo ∷ []

unfoldable pub log_error : String → ℕ → String → String → String
unfolding strip is_empty text show
log_error cmd rc out err =
    let said =
      if not (is_empty (strip err))
      then strip err
      else if not (is_empty (strip out))
      then strip out
      else "无输出" in
    text ("[" ∷ cmd ∷ "] rc=" ∷ show rc ∷ ", err=" ∷ said ∷ [])

-- `S` is the outside world; `subprocess` runs a command with a timeout; `post` is the request of the
-- health check, whose answer is a status code, or none for an exception of `requests`.
module _ {S : Type 0} (subprocess : String → ℕ → S → Ran × S) (post : S → Option ℕ × S)
    (sleep : ℕ → S → S) (m : Manager) where
  unfoldable pub run_cmd : String → ℕ → S → Ran × S
  unfolding exec_cmd
  run_cmd cmd timeout w = subprocess (exec_cmd m.ssh_cmd cmd) timeout w

  -- Errors are ignored.
  unfoldable pub cleanup : S → S
  unfolding run_cmd
  cleanup w = sleep 2 (run_cmd m.stop_cmd 60 w).1

  unfoldable pub stop_model : S → S
  unfolding run_cmd
  stop_model w = (run_cmd m.stop_cmd 60 w).1

  -- The loop over the log commands: the text to return, or the errors.
  unfoldable pub read_logs : List String → List String → S → (Option String × List String) × S
  unfolding run_cmd strip is_empty text log_error
  read_logs [] errors w = ((none, errors), w)
  read_logs (cmd ∷ cmds) errors w =
      let (ran, w') = run_cmd cmd 30 w in
      elim ran [
        | finished rc out err ↦
            if rc == 0
            then (
              (some (if is_empty (strip out) then "容器日志为空（命令执行成功但无输出）" else strip out), errors),
              w',
            )
            else read_logs cmds (errors ++ log_error cmd rc out err ∷ []) w'
        | timed_out e ↦ ((some (text ("获取容器日志失败: " ∷ e ∷ [])), errors), w')
        | raised e ↦ ((some (text ("获取容器日志失败: " ∷ e ∷ [])), errors), w')
      ]

  -- The loop over the status commands: the output, or the text of an exception.
  unfoldable pub read_status : List String → S → (String × Option String) × S
  unfolding run_cmd strip is_empty
  read_status [] w = (("", none), w)
  read_status (cmd ∷ cmds) w =
      let (ran, w') = run_cmd cmd 15 w in
      elim ran [
        | finished rc out err ↦
            if rc == 0 && not (is_empty (strip out))
            then ((strip out, none), w')
            else read_status cmds w'
        | timed_out e ↦ (("", some e), w')
        | raised e ↦ (("", some e), w')
      ]

  unfoldable pub status_report : List String → String × Option String → String
  unfolding text join is_empty
  status_report errors (status, some e) = text ("获取容器日志失败: " ∷ e ∷ [])
  status_report errors (status, none) = text (
      "获取容器日志失败: "
      ∷ join " | " errors
      ∷ (if is_empty status then "" else text ("; 容器状态: " ∷ status ∷ []))
      ∷ [])

  unfoldable pub get_container_logs : S → String × S
  unfolding candidates read_logs read_status status_report text
  get_container_logs w = elim m.container_name [
    | none ↦ ("未解析到容器名称，无法获取日志", w)
    | some name ↦
        let logs = candidates m (text ("docker logs " ∷ name ∷ " --tail 200" ∷ [])) in
        let states = candidates m (
          text
            ("docker ps -a --filter name=" ∷ name ∷ " --format '{{.Names}} {{.Status}}'" ∷ [])) in
        let ((found, errors), w') = read_logs logs [] w in
        let (status, w'') = read_status states w' in
        elim found [ some shown ↦ (shown, w') | none ↦ (status_report errors status, w'') ]
  ]

  -- What `start_model` returns of a command that ran.
  unfoldable pub start_result : Ran → S → (Bool × String) × S
  unfolding get_container_logs text
  start_result (finished rc out err) w =
      let (container_logs, w') = get_container_logs w in
      if rc == 0 then ((true, out), w) else (
        (false, text ("STDOUT:\n" ∷ out ∷ "\nSTDERR:\n" ∷ err ∷ "\n容器日志:\n" ∷ container_logs ∷ [])),
        w',
      )
  start_result (timed_out e) w = ((false, "启动命令执行超时(120s)"), w)
  start_result (raised e) w = ((false, e), w)

  -- `start_model`, given what `build_full_cmd` makes of the command.
  unfoldable pub start_model : String → S → (Bool × String) × S
  unfolding cleanup run_cmd start_result
  start_model full_cmd w = let (ran, w') = run_cmd full_cmd 120 (cleanup w) in start_result ran w'

  unfoldable pub is_ok : Option ℕ → Bool
  is_ok none = false
  is_ok (some status) = status == 200

  -- `left` tries are left.
  unfoldable pub try_health : ℕ → S → Bool × S
  unfolding is_ok
  try_health zero w = (false, w)
  try_health (suc left) w =
      let (answer, w') = post w in
      let rest = try_health left (sleep m.interval w') in if is_ok answer then (true, w') else rest

  unfoldable pub health_check : S → Bool × S
  unfolding try_health
  health_check w = try_health m.retry_count (sleep m.initial_delay w)
