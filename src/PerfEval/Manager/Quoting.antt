-- ===== src/PerfEval/Manager/Quoting.antt =====
-- The quoting of a remote command in llm-perf-eval.py, as a shell reads it.
use Prim.Native.Char.{code}
use text.Mathlib.TextEquality.{Char-path}
use dev_llmops.Prelude.{
  String, ◌≡◌, refl, ap, sym, ◌∙◌, ==_iff, ◌==◌, if◌then◌else◌, inl, inr, Bool-cases,
}
use dev_llmops.PerfEval.Manager.{escape_quotes, single_quoted}

-- Where a shell stands in a word: outside of quotes, in single or in double quotes.
pub data Mode : Type 0 where
  bare single double : Mode

-- The text that a shell reads in a word of quoted parts: quotes that open or close a part are left
-- out, all else stands for itself.
abbrev pub read_word : Mode → String → String
read_word mode String.[] = ""
read_word bare (String.◌∷◌ c s) =
    let quoted = read_word single s in
    let doubled = read_word double s in
    let other = String.◌∷◌ c (read_word bare s) in
    if code c == b'\'' then quoted else if code c == b'"' then doubled else other
read_word single (String.◌∷◌ c s) =
    let closed = read_word bare s in
    let other = String.◌∷◌ c (read_word single s) in if code c == b'\'' then closed else other
read_word double (String.◌∷◌ c s) =
    let closed = read_word bare s in
    let other = String.◌∷◌ c (read_word double s) in if code c == b'"' then closed else other

read-escape : (s : String) → read_word single (escape_quotes s "'") ≡ s
unfolding escape_quotes
read-escape String.[] = refl
read-escape (String.◌∷◌ c s) = elim (Bool-cases (code c == b'\'')) [
  | inl quote ↦ rw quote (
      ap (String.◌∷◌ "'") (read-escape s)
      ∙ ap (λ d. String.◌∷◌ d s) (sym (Char-path c "'" ((==_iff (code c) b'\'').0 quote))))
  | inr other ↦ rw other (rw other (ap (String.◌∷◌ c) (read-escape s)))
]

-- A shell reads a quoted command as the command itself, whatever its characters.
pub read-single_quoted : (cmd : String) → read_word bare (single_quoted cmd) ≡ cmd
unfolding single_quoted
read-single_quoted cmd = read-escape cmd
