-- ===== src/Toll/Credential/Settings.antt =====
-- Which providers client/toll/registry.go makes, and where they connect to.
use backend_pkg.Common.{
  ◌≡◌, ◌≢◌, ◌↔◌, refl, sym, ap, ◌∙◌, ◌⊎◌, inl, inr, Bool, true, false, ◌&&◌, ◌||◌, not, [], Bytes,
  ◌=ᵇ◌, =ᵇ_iff, =ᵇ-nil, =ᵇ→eq, is_some, trim_space, contains, arith, Bool-cases,
}
use backend_pkg.Toll.PrePass.{prepass_sftp}
use backend_pkg.Toll.Credential.{
  Credential, rules_for, is_valid, is_white, is_non_prod_app_env, new_prepass_sftp, new_provider,
  test_host, test_directory,
}

is_valid_lem : (pt : Bytes) → is_valid pt ≡ (pt =ᵇ prepass_sftp)
is_valid_lem pt = elim (Bool-cases (pt =ᵇ prepass_sftp)) [
  | inl known ↦
      ap is_valid (=ᵇ→eq pt prepass_sftp known) ∙ unfold is_valid contains ◌=ᵇ◌ in sym known
  | inr other ↦ elim (Bool-cases (prepass_sftp =ᵇ pt)) [
    | inl e ↦
        let bad : false ≡ true =
          sym other ∙ (=ᵇ_iff pt prepass_sftp).1 (sym (=ᵇ→eq prepass_sftp pt e)) in
        cc
    | inr e ↦ rw other (unfold is_valid contains in rw e refl)
  ]
]

rules_for_prepass :
    (pt : Bytes)
    → pt =ᵇ prepass_sftp ≡ true
    → ((rules_for pt).requires_username ≡ true)
      × ((rules_for pt).requires_secret ≡ true)
      × ((rules_for pt).requires_host ≡ true)
      × ((rules_for pt).requires_base_url ≡ false)
unfolding rules_for
rules_for_prepass pt known = rw known (refl, refl, refl, refl)

module _ (getenv : Bytes → Bytes) where
  accepts : Credential → Bool
  accepts c =
      c.provider_type =ᵇ prepass_sftp
      && (not (is_white c.username)
          && (not (c.secret =ᵇ []) && (not (is_white c.host) || is_non_prod_app_env getenv)))

  accepts_lem :
      (c : Credential)
      → c.provider_type =ᵇ prepass_sftp ≡ true
      → is_white c.username ≡ false
      → c.secret =ᵇ [] ≡ false
      → (not (is_white c.host) || is_non_prod_app_env getenv) ≡ true
      → accepts c ≡ true
  unfolding accepts
  accepts_lem c known user secret host = rw (known, user, secret, host) refl

  is_some-new_provider : (c : Credential) → is_some (new_provider getenv c) ≡ accepts c
  unfolding new_provider accepts
  is_some-new_provider c =
      ground (arith, is_valid_lem c.provider_type, rules_for_prepass c.provider_type)

  -- A provider is made exactly if the credential is for PrePass, has a user name that is not blank and a
  -- secret, and, unless the process is known not to be in production, a host that is not blank.
  new_provider_iff :
      (c : Credential)
      → (is_some (new_provider getenv c) ≡ true) ↔ (
          (c.provider_type ≡ prepass_sftp)
          × (trim_space c.username ≢ [])
          × (c.secret ≢ [])
          × ((trim_space c.host ≢ []) ⊎ (is_non_prod_app_env getenv ≡ true)))
  unfolding accepts
  new_provider_iff c = (
    λ made.
        let ok : accepts c ≡ true = sym (is_some-new_provider c) ∙ made in
        (
          ground (arith, =ᵇ_iff c.provider_type prepass_sftp),
          λ e. absurd (ground (arith, =ᵇ_iff (trim_space c.username) [])),
          λ e. absurd (ground (arith, =ᵇ_iff c.secret [])),
          elim (Bool-cases (is_white c.host)) [
            | inl white ↦ inr (ground arith)
            | inr black ↦ inl (λ e. absurd (ground (arith, =ᵇ_iff (trim_space c.host) [])))
          ],
        ),
    λ (known, user, secret, host).
        is_some-new_provider c
        ∙ accepts_lem c ((=ᵇ_iff c.provider_type prepass_sftp).1 known)
            (=ᵇ-nil (trim_space c.username) user) (=ᵇ-nil c.secret secret)
            (elim host [
              | inl named ↦ rw (=ᵇ-nil (trim_space c.host) named) refl
              | inr test ↦ rw test (ground arith)
            ]),
  )

  -- In production a provider connects to the host and the folder of the credential; elsewhere, if a host
  -- and a folder are set for tests, to these, whatever the credential says.
  new_prepass_sftp_host :
      (c : Credential)
      → (is_non_prod_app_env getenv ≡ false
          → ((new_prepass_sftp getenv c).host ≡ trim_space c.host)
            × ((new_prepass_sftp getenv c).directory ≡ trim_space c.directory))
        × (is_non_prod_app_env getenv ≡ true
            → test_host getenv ≢ []
            → test_directory getenv ≢ []
            → ((new_prepass_sftp getenv c).host ≡ test_host getenv)
              × ((new_prepass_sftp getenv c).directory ≡ test_directory getenv))
  unfolding new_prepass_sftp
  new_prepass_sftp_host c = (λ e. ground arith, λ e h d. ground arith)
