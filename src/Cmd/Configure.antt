-- ===== src/Cmd/Configure.antt =====
-- pkg/cmd/configure/configure.go: the command that writes the public key of a cache. The form and the
-- token of the registry are the environment.
pub mod Shown
use aeroflare.Base.{
  Option, none, some, [], ◌∷◌, if◌then◌else◌, ◌==◌, Text, codes, Dict, or_fail, Outcome, failure,
  nat_eq, text_eq,
}
use aeroflare.Proxy.Start.{bootstrap_config_with_annotations, RemoteConfig}
use aeroflare.Oci.{Registry, Descriptor, value_of, push_config_manifest}

-- What the form comes to.
pub data FormAnswer : Type 0 where
  submitted : Text → FormAnswer
  user_aborted form_broke : FormAnswer

pub data ConfigureError : Type 0 where
  no_registry no_credential is_cancelled form_failed not_saved : ConfigureError

-- The key that the form shows first: that of the annotations, if there are any.
abbrev pub existing_public_key : Option (RemoteConfig × Dict Text Text) → Text
existing_public_key none = []
existing_public_key (some (config, anns)) =
    if value_of (codes "aeroflare.public-key") anns == []
    then value_of (codes "public-key") anns
    else value_of (codes "aeroflare.public-key") anns

module _ {R : Type 0} (registry : Registry R) (empty_layer : Descriptor)
    (form : Text → FormAnswer) where
  abbrev pub save_key : R → FormAnswer → Outcome ConfigureError R
  save_key r user_aborted = failure is_cancelled
  save_key r form_broke = failure form_failed
  save_key r (submitted key) =
      or_fail not_saved
        (push_config_manifest registry empty_layer r ((codes "aeroflare.public-key", key) ∷ []))

  abbrev pub with_token : R → Option Text → Outcome ConfigureError R
  with_token r none = failure no_credential
  with_token r (some token) =
      save_key r (form (existing_public_key (bootstrap_config_with_annotations registry r)))

  abbrev pub with_target : R → Option (Text × Text) → Option Text → Outcome ConfigureError R
  with_target r none token = failure no_registry
  with_target r (some target) token = with_token r token

  -- `configureRun`, on the answer of `RegistryAndRepository` and the token: the registry after it.
  unfoldable pub configure_run : R → Option (Text × Text) → Option Text → Outcome ConfigureError R
  unfolding push_config_manifest bootstrap_config_with_annotations value_of
  configure_run r target token = with_target r target token
