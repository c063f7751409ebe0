-- ===== src/Auth/Keys.antt =====
-- Which service a secret key belongs to.
use aeroflare.Base.{
  ℕ, ◌≡◌, refl, ap, ◌∙◌, ◌⊎◌, inl, inr, false, none, some, List, [], ◌∷◌, ◌++◌, text_beq, if_true,
  if_false, if_both, In, Text, codes, has_prefix, has_suffix, trim_suffix, has_prefix-append,
  trim_suffix-append, has_suffix-append, trim_prefix-append, nat_eq, text_eq,
}
use aeroflare.Auth.{
  github_service, gitlab_service, username_key, token_key, generic_oci_service,
  service_for_registry, host_or, host_before, oci_host_from_key, owner_or, service_for_secret_key,
  Field, Service,
}
use mathlib.Core.List.{reverse, reverse-append}

-- A property of the services of all registries.
pub service_for_registry-all :
    (P : Service → Type 0) (host : Text)
    → P github_service
    → P gitlab_service
    → P (generic_oci_service host)
    → P (service_for_registry host)
unfolding service_for_registry
service_for_registry-all P host github gitlab generic =
    if_both P _ _ _ github (if_both P _ _ _ gitlab generic)

-- The key of a token does not end like that of a user name.
no_username_suffix : (s : Text) → has_suffix (s ++ codes "-token") (codes "-username") ≡ false
unfolding has_suffix has_prefix
no_username_suffix s =
    ap (λ r. has_prefix r (reverse (codes "-username"))) (reverse-append s (codes "-token"))

host_of_suffix :
    (c : ℕ) (host suffix : Text) (suffixes : List Text)
    → host_before (codes "oci-" ++ ((c ∷ host) ++ suffix)) (suffix ∷ suffixes) ≡ some (c ∷ host)
unfolding host_before
host_of_suffix c host suffix suffixes =
    let key = codes "oci-" ++ ((c ∷ host) ++ suffix) in
    let later = host_before key suffixes in
    if_true _ _ later (has_suffix-append (codes "oci-" ++ (c ∷ host)) suffix)
    ∙ ap (λ s. host_or (trim_suffix s suffix) later)
        (trim_prefix-append (codes "oci-") ((c ∷ host) ++ suffix))
    ∙ ap (λ s. host_or s later) (trim_suffix-append (c ∷ host) suffix)

module _ (c : ℕ) (host : Text) where
  oci_host-username : oci_host_from_key (username_key (c ∷ host)) ≡ some (c ∷ host)
  unfolding oci_host_from_key
  oci_host-username =
      if_true _ _ none (has_prefix-append (codes "oci-") ((c ∷ host) ++ codes "-username"))
      ∙ host_of_suffix c host (codes "-username") (codes "-token" ∷ [])

  oci_host-token : oci_host_from_key (token_key (c ∷ host)) ≡ some (c ∷ host)
  unfolding oci_host_from_key host_before
  oci_host-token =
      if_true _ _ none (has_prefix-append (codes "oci-") ((c ∷ host) ++ codes "-token"))
      ∙ if_false _ _ _ (no_username_suffix (codes "oci-" ++ (c ∷ host)))
      ∙ host_of_suffix c host (codes "-token") []

  IsOwned : Field → Service → Type 0
  IsOwned f s =
      (service_for_secret_key f.secret_key ≡ some s)
      ⊎ (service_for_secret_key f.secret_key ≡ some (service_for_registry (c ∷ host)))

  by_key :
      (key : Text) (f : Field) {s : Service}
      → f.secret_key ≡ key
      → service_for_secret_key key ≡ some s
      → service_for_secret_key f.secret_key ≡ some s
  by_key key f same e = ap service_for_secret_key same ∙ e

  github-IsOwned : (f : Field) → In f github_service.fields → IsOwned f github_service
  unfolding IsOwned service_for_secret_key text_beq
  github-IsOwned f (inl e) = inl (by_key (codes "github-token") f (ap (λ f. f.secret_key) e) refl)
  github-IsOwned f (inr m) = absurd m

  gitlab-IsOwned : (f : Field) → In f gitlab_service.fields → IsOwned f gitlab_service
  unfolding IsOwned service_for_secret_key text_beq
  gitlab-IsOwned f (inl e) = inl (by_key (codes "gitlab-token") f (ap (λ f. f.secret_key) e) refl)
  gitlab-IsOwned f (inr m) = absurd m

  generic-IsOwned :
      (f : Field)
      → In f (generic_oci_service (c ∷ host)).fields
      → IsOwned f (generic_oci_service (c ∷ host))
  unfolding IsOwned service_for_secret_key text_beq
  generic-IsOwned f (inl e) = inr (
      by_key (username_key (c ∷ host)) f (ap (λ f. f.secret_key) e)
        (ap (owner_or none) oci_host-username))
  generic-IsOwned f (inr (inl e)) = inr (
      by_key (token_key (c ∷ host)) f (ap (λ f. f.secret_key) e)
        (ap (owner_or none) oci_host-token))
  generic-IsOwned f (inr (inr m)) = absurd m

  -- The key of every field of the service of a registry belongs to that service, if the name of the
  -- registry is not empty.
  pub service_for_secret_key-service_for_registry :
      (f : Field)
      → In f (service_for_registry (c ∷ host)).fields
      → service_for_secret_key f.secret_key ≡ some (service_for_registry (c ∷ host))
  unfolding IsOwned
  service_for_secret_key-service_for_registry f m =
      elim (service_for_registry-all (λ s. In f s.fields → IsOwned f s) (c ∷ host)
        (github-IsOwned f) (gitlab-IsOwned f) (generic-IsOwned f) m) [ inl e ↦ e | inr e ↦ e ]
