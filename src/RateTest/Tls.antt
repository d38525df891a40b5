-- ===== src/RateTest/Tls.antt =====
-- `build_ssl_context` of DevOps/nginx/rate-limit/rate-test.py: when certificates are verified.
use dev_llmops.Prelude.{
  ◌≡◌, refl, ◌↔◌, inl, inr, Bool, true, false, String, Option, none, some, Bool-cases, arith, subst,
  if◌then◌else◌,
}
use dev_llmops.Prelude.Text.{is_empty}
use dev_llmops.RateTest.Requests.{
  Context, unverified, verified, verified_by_system, build_ssl_context,
}

-- No context that skips the check.
Checks : Option Context → Type 0
Checks none = Unit
Checks (some unverified) = ⊥
Checks (some (verified file)) = Unit
Checks (some verified_by_system) = Unit

Checks-not_unverified : (o : Option Context) → Checks o → o ≡ some unverified → ⊥
unfolding Checks
Checks-not_unverified o h e = subst Checks e h

module _ (loads : String → Bool) where
  loaded-Checks : (b : Bool) (file : String) → Checks (if b then some (verified file) else none)
  unfolding Checks
  loaded-Checks true file = tt
  loaded-Checks false file = tt

  fallback-Checks :
      (c : Option String)
      → Checks (elim c [
        | none ↦ some verified_by_system
        | some file ↦ if loads file then some (verified file) else some verified_by_system
      ])
  unfolding Checks
  fallback-Checks none = tt
  fallback-Checks (some file) = elim (Bool-cases (loads file)) [
    | inl good ↦ rw good tt
    | inr broken ↦ rw broken tt
  ]

  build_ssl_context-Checks :
      (certifi_where : Option String) (ca_bundle : String)
      → Checks (build_ssl_context loads certifi_where ca_bundle false)
  unfolding build_ssl_context Checks
  build_ssl_context-Checks certifi_where ca_bundle = elim (Bool-cases (is_empty ca_bundle)) [
    | inr named ↦ rw named (loaded-Checks (loads ca_bundle) ca_bundle)
    | inl empty ↦ rw empty (fallback-Checks certifi_where)
  ]

  fallback :
      (certifi_where : Option String)
      → (c : Context) × (build_ssl_context loads certifi_where "" false ≡ some c)
  unfolding build_ssl_context
  fallback none = (verified_by_system, refl)
  fallback (some file) = elim (Bool-cases (loads file)) [
    | inl good ↦ (verified file, rw good refl)
    | inr broken ↦ (verified_by_system, rw broken refl)
  ]

  -- Certificates go unverified exactly where `--insecure-skip-verify` is given; and where it is not and
  -- no bundle is named, there is always a context, whether certifi can be used or not.
  pub build_ssl_context_iff :
      (certifi_where : Option String) (ca_bundle : String) (insecure_skip_verify : Bool)
      → ((build_ssl_context loads certifi_where ca_bundle insecure_skip_verify ≡ some unverified)
          ↔ (insecure_skip_verify ≡ true))
        × ((c : Context) × (build_ssl_context loads certifi_where "" insecure_skip_verify ≡ some c))
  unfolding build_ssl_context
  build_ssl_context_iff certifi_where ca_bundle true = ((λ h. refl, λ h. refl), (unverified, refl))
  build_ssl_context_iff certifi_where ca_bundle false = (
    (
      λ h. absurd (
          Checks-not_unverified (build_ssl_context loads certifi_where ca_bundle false)
            (build_ssl_context-Checks certifi_where ca_bundle) h),
      λ h. ground arith,
    ),
    fallback certifi_where,
  )
