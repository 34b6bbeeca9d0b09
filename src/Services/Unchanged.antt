-- ===== src/Services/Unchanged.antt =====
-- `RestartOnChange` of openstack_hypervisor/hooks.py around a block that writes no template's file.
use snap_openstack_hyperviso.Base.{
  ◌≡◌, refl, ap, Option, none, some, List, [], ◌∷◌, ◌++◌, All, Result, ok, err, text_eq, dedup,
  keep_if, ==_of_eq,
}
use snap_openstack_hyperviso.Base.Dict.{Dict, or_default}
use snap_openstack_hyperviso.Base.Text.{Text}
use snap_openstack_hyperviso.Base.Effects.{Exec}
use snap_openstack_hyperviso.Services.Restart.{
  Templates, Files, record_hash, record_hashes, services_of_file, changed_services,
  services_to_restart,
}
use snap_openstack_hyperviso.Services.OnChange.{
  restart_each, restart_changed, leave, restart_on_change,
}
use snap_openstack_hyperviso.Services.Changed.{noted, Recorded, record_hashes-Recorded}

-- The file is missing or can be read.
abbrev pub Readable : Option (Result Text) → Type 0
Readable none = Unit
Readable (some (ok bytes)) = Unit
Readable (some (err c)) = ⊥

module _ (sha256 : Text → Text) where
  record_hash-total :
      (file : Text) (o : Option (Result Text)) (file_hash : Dict Text Text)
      → Readable o
      → (out : Dict Text Text) × (record_hash sha256 file o file_hash ≡ ok out)
  unfolding record_hash
  record_hash-total file none file_hash h = (file_hash, refl)
  record_hash-total file (some (ok bytes)) file_hash h = (_, refl)
  record_hash-total file (some (err c)) file_hash h = absurd h

  record_hashes-total :
      (templates : Templates) (files : Files) (file_hash : Dict Text Text)
      → All (λ (file, services). Readable (files file)) templates
      → (out : Dict Text Text) × (record_hashes sha256 templates files file_hash ≡ ok out)
  unfolding record_hashes
  record_hashes-total [] files file_hash h = (file_hash, refl)
  record_hashes-total ((file, services) ∷ templates) files file_hash (h, hs) =
      let (more, e) = record_hash-total file (files file) file_hash h in
      let (out, e') = record_hashes-total templates files more hs in (out, rw e e')

  same_file :
      (services : List Text) (o : Option (Result Text))
      → Readable o
      → services_of_file sha256 services o (noted sha256 o none) ≡ ok []
  unfolding services_of_file
  same_file services none h = refl
  same_file services (some (ok bytes)) h = rw (==_of_eq (sha256 bytes) (sha256 bytes) refl) refl
  same_file services (some (err c)) h = absurd h

  append_nil : (xs : List Text) → xs ++ [] ≡ xs
  append_nil [] = refl
  append_nil (x ∷ xs) = ap (λ l. x ∷ l) (append_nil xs)

  same_files :
      (templates : Templates) (before after : Files) (file_hash : Dict Text Text)
      (so_far : List Text)
      → All (λ (file, services). Readable (before file)) templates
      → Recorded sha256 before file_hash templates
      → All (λ (file, services). after file ≡ before file) templates
      → changed_services sha256 templates after file_hash so_far ≡ ok so_far
  unfolding changed_services
  same_files [] before after file_hash so_far h r same = refl
  same_files ((file, services) ∷ templates) before after file_hash so_far (h, hs) (r, rs)
        (same, sames) =
      rw (same, r, same_file (or_default [] services) (before file) h, append_nil so_far)
        (same_files templates before after file_hash so_far hs rs sames)

module _ {W A : Type 0} (sha256 : Text → Text) (content : W → Files)
    (listed : W → Result (List Text)) (stop start : Text → Exec W (Unit {0}))
    (enum : List Text → List Text) where
  -- A block that leaves the files of the templates as they were, all of them missing or readable, is run as it is:
  -- no service is stopped or started, if the services can be listed after it.
  pub restart_on_change-unchanged :
      enum [] ≡ []
      → (templates : Templates) (exclude_services services : List Text) (body : Exec W A) (w : W)
      → All (λ (file, services). Readable (content w file)) templates
      → All (λ (file, services). content (body w).1 file ≡ content w file) templates
      → listed (body w).1 ≡ ok services
      → restart_on_change sha256 content listed stop start enum templates exclude_services body w
        ≡ body w
  unfolding restart_on_change leave restart_changed restart_each services_to_restart dedup keep_if
  restart_on_change-unchanged empty templates exclude services body w h same l =
      let (file_hash, e) = record_hashes-total sha256 templates (content w) [] h in
      rw
        (
          e,
          same_files sha256 templates (content w) (content (body w).1) file_hash [] h
              (record_hashes-Recorded sha256 templates (content w) e) same,
          l,
          empty,
        )
        refl
