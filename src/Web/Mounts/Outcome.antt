-- ===== src/Web/Mounts/Outcome.antt =====
-- cert_mount.go: `applyTrust` as a whole.
use kernel_su_tun2proxy.Prelude.{String, List, [], some, ◌≡◌, ◌⊎◌, true, false}
use kernel_su_tun2proxy.Prelude.Exec.{Result, Ensures}
use kernel_su_tun2proxy.Web.Certificates.{Inventory}
use kernel_su_tun2proxy.Web.Mounts.{CertMount, TrustEnvironment, MountError, Host, State}
use kernel_su_tun2proxy.Web.Mounts.Planning.{has_managed}
use kernel_su_tun2proxy.Web.Mounts.Removal.{Cleaner, AllFree}
use kernel_su_tun2proxy.Web.Mounts.Sources.{places, all_places}
use kernel_su_tun2proxy.Web.Mounts.Layers.{Mounts}
use kernel_su_tun2proxy.Web.Mounts.Rollback.{Restored, Installed}

module _ {W : Type 0} (h : Host W) (laws : Mounts h) where
  -- No certificate is to be added, or there is no place to show one at: our own layers are taken
  -- off, and no target that is found has one of them as its newest layer.
  pub record Cleaned (v : Inventory) (s t : State W) : Type 0 where
    pub cleaner : Cleaner h s t
    pub environment : TrustEnvironment
    pub detected : h.detect s.world ≡ some environment
    pub nothing :
        (has_managed v.entries ≡ false)
        ⊎ (all_places environment.namespaces environment.targets ≡ [])
    pub free : AllFree h environment.namespaces environment.targets t

  -- There is a plan for each target in each namespace; the plans share one directory for each
  -- target, and are shown.
  pub record Applied (v : Inventory) (s t : State W) : Type 0 where
    pub managed : has_managed v.entries ≡ true
    pub environment : TrustEnvironment
    pub detected : h.detect s.world ≡ some environment
    pub plans : List CertMount
    pub placed : places plans ≡ all_places environment.namespaces environment.targets
    pub source : String → String
    pub installed : Installed h laws source plans s t

  pub record Failed (s : State W) (e : MountError) (t : State W) : Type 0 where
    pub plans : List CertMount
    pub source : String → String
    pub restored : Restored h laws source plans s e t

  -- What the removal leaves, from any state.
  abbrev Removed : State W → State W → Type 0
  Removed s t =
      Cleaner h s t
      × ((d : TrustEnvironment) × (h.detect s.world ≡ some d) × AllFree h d.namespaces d.targets t)

  abbrev Ends : Inventory → State W → State W × Result MountError (Unit {0}) → Type 0
  Ends v s = Ensures (λ _ t. Cleaned v s t ⊎ Applied v s t) (λ e t. Cleaner h s t ⊎ Failed s e t)
