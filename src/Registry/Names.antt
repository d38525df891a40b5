-- ===== src/Registry/Names.antt =====
-- The names of repositories in the updates of swr-update-repo-attr.py.
use Prim.Native.Char.{code}
use text.Mathlib.TextEquality.{Char-path}
use mathlib.Core.Path.{ap₂}
use dev_llmops.Prelude.{
  ℕ, ◌≡◌, refl, sym, ap, inl, inr, String, Bool, false, ◌||◌, ◌==◌, ==_iff, Bool-cases,
  if◌then◌else◌, arith,
}
use dev_llmops.Registry.{replace_slash}

-- A character of a text.
abbrev pub has_char : ℕ → String → Bool
has_char c String.[] = false
has_char c (String.◌∷◌ d s) = code d == c || has_char c s

-- s.replace('$', '/')
abbrev pub restore : String → String
restore String.[] = ""
restore (String.◌∷◌ c s) =
    if code c == b'$' then String.◌∷◌ "/" (restore s) else String.◌∷◌ c (restore s)

-- No slash is left in a name of an update, and the name of the repository is read off it by putting
-- slashes for dollar signs, where the repository has none.
pub restore-replace_slash :
    (s : String)
    → (has_char b'/' (replace_slash s) ≡ false)
      × (has_char b'$' s ≡ false → restore (replace_slash s) ≡ s)
unfolding replace_slash
restore-replace_slash String.[] = (refl, λ h. refl)
restore-replace_slash (String.◌∷◌ c s) =
    let (clean, back) = restore-replace_slash s in
    elim (Bool-cases (code c == b'/')) [
      | inl slash ↦
          let same : c ≡ "/" = Char-path c "/" ((==_iff (code c) b'/').0 slash) in
          (rw (slash, clean) refl, λ h. rw slash (ap₂ String.◌∷◌ (sym same) (back (ground arith))))
      | inr other ↦ (
        rw (other, clean) (ground arith),
        λ h.
            let no_dollar : (code c == b'$') ≡ false = ground arith in
            rw (other, no_dollar) (ap (λ t. String.◌∷◌ c t) (back (ground arith))),
      )
    ]
