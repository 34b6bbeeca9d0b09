-- ===== src/Services/Changed.antt =====
-- Which services `RestartOnChange` of openstack_hypervisor/hooks.py restarts.
use snap_openstack_hyperviso.Base.{
  Bool, true, false, not, ◌≡◌, refl, sym, ap, ◌∙◌, ◌&&◌, ◌||◌, Option, none, some, List, [], ◌∷◌,
  ◌++◌, if◌then◌else◌, ◌==◌, contains, contains-append, contains-keep_if, contains-dedup, text_eq,
  dedup, diff, if_true, any, All, Result, ok, err, >>=-eq-ok, ok-injective, arith,
}
use snap_openstack_hyperviso.Base.Dict.{Dict, lookup, lookup-insert, or_default, keys}
use snap_openstack_hyperviso.Base.Text.{Text}
use snap_openstack_hyperviso.Services.Restart.{
  Templates, Files, record_hash, record_hashes, services_of_file, changed_services,
  services_to_restart,
}

module _ (sha256 : Text → Text) where
  -- The file is there, and was not or had another hash.
  abbrev pub is_changed : Option (Result Text) → Option (Result Text) → Bool
  is_changed before none = false
  is_changed none (some content) = true
  is_changed (some (err c)) (some content) = true
  is_changed (some (ok old)) (some (err c)) = true
  is_changed (some (ok old)) (some (ok new)) = not (sha256 new == sha256 old)

  -- The hash that is noted for a file, after `prior`.
  abbrev pub noted : Option (Result Text) → Option Text → Option Text
  noted none prior = prior
  noted (some (err c)) prior = prior
  noted (some (ok bytes)) prior = some (sha256 bytes)

  noted_twice :
      (o : Option (Result Text)) (prior : Option Text) → noted o (noted o prior) ≡ noted o prior
  noted_twice none prior = refl
  noted_twice (some (err c)) prior = refl
  noted_twice (some (ok bytes)) prior = refl

  lookup-record_hash :
      (file : Text) (o : Option (Result Text)) (file_hash : Dict Text Text) (j : Text)
      {out : Dict Text Text}
      → record_hash sha256 file o file_hash ≡ ok out
      → lookup j out ≡ (if file == j then noted o (lookup j file_hash) else lookup j file_hash)
  unfolding record_hash
  lookup-record_hash file none file_hash j h = ap (lookup j) (sym (ok-injective h)) ∙ ground arith
  lookup-record_hash file (some (err c)) file_hash j h = cc
  lookup-record_hash file (some (ok bytes)) file_hash j h =
      ap (lookup j) (sym (ok-injective h)) ∙ lookup-insert j file (sha256 bytes) file_hash

  noted_step :
      (files : Files) (file j : Text) (prior : Option Text) (later : Bool)
      → (if later
          then noted (files j) (if file == j then noted (files file) prior else prior)
          else (if file == j then noted (files file) prior else prior))
        ≡ (if j == file || later then noted (files j) prior else prior)
  noted_step files file j prior later = ground (arith, noted_twice (files j) prior)

  lookup-record_hashes :
      (templates : Templates) (files : Files) (file_hash : Dict Text Text) (j : Text)
      {out : Dict Text Text}
      → record_hashes sha256 templates files file_hash ≡ ok out
      → lookup j out ≡ (
          if contains (keys templates) j
          then noted (files j) (lookup j file_hash)
          else lookup j file_hash)
  unfolding record_hashes keys
  lookup-record_hashes [] files file_hash j h = ap (lookup j) (sym (ok-injective h))
  lookup-record_hashes ((file, services) ∷ templates) files file_hash j h =
      let (more, e, h') = >>=-eq-ok (record_hash sha256 file (files file) file_hash) _ h in
      lookup-record_hashes templates files more j h'
      ∙ rw (lookup-record_hash file (files file) file_hash j e)
          (noted_step files file j (lookup j file_hash) (contains (keys templates) j))

  -- For each file the hash that was noted is the one it had.
  abbrev pub Recorded : Files → Dict Text Text → Templates → Type 0
  Recorded before file_hash =
      All (λ (file, services). lookup file file_hash ≡ noted (before file) none)

  recorded :
      (before : Files) (file_hash : Dict Text Text) (all_files : List Text) (templates : Templates)
      → ((j : Text)
          → lookup j file_hash ≡ (if contains all_files j then noted (before j) none else none))
      → ((j : Text) → contains (keys templates) j ≡ true → contains all_files j ≡ true)
      → Recorded before file_hash templates
  unfolding keys
  recorded before file_hash all_files [] known within = tt
  recorded before file_hash all_files ((file, services) ∷ templates) known within = (
    known file ∙ if_true _ _ _ (within file (ground arith)),
    recorded before file_hash all_files templates known (λ j h. within j (ground (arith, h))),
  )

  pub record_hashes-Recorded :
      (templates : Templates) (before : Files) {file_hash : Dict Text Text}
      → record_hashes sha256 templates before [] ≡ ok file_hash
      → Recorded before file_hash templates
  unfolding lookup
  record_hashes-Recorded templates before h =
      recorded before _ (keys templates) templates
        (λ j. lookup-record_hashes templates before [] j h) (λ j k. k)

  contains-services_of_file :
      (services : List Text) (before after : Option (Result Text)) (a : Text) {out : List Text}
      → services_of_file sha256 services after (noted before none) ≡ ok out
      → contains out a ≡ (is_changed before after && contains services a)
  unfolding services_of_file
  contains-services_of_file services before none a h = ap (λ o. contains o a) (sym (ok-injective h))
  contains-services_of_file services none (some content) a h =
      ap (λ o. contains o a) (sym (ok-injective h))
  contains-services_of_file services (some (err c)) (some content) a h =
      ap (λ o. contains o a) (sym (ok-injective h))
  contains-services_of_file services (some (ok old)) (some (err c)) a h = cc
  contains-services_of_file services (some (ok old)) (some (ok new)) a h =
      ap (λ o. contains o a) (sym (ok-injective h)) ∙ ground arith

  -- Some file that has changed names the service.
  abbrev pub named_by_changed : Files → Files → Templates → Text → Bool
  named_by_changed before after templates svc =
      any
        (λ (file, services).
          is_changed (before file) (after file) && contains (or_default [] services) svc)
        templates

  contains-changed_services :
      (templates : Templates) (before after : Files) (file_hash : Dict Text Text)
      (so_far : List Text) (a : Text) {out : List Text}
      → Recorded before file_hash templates
      → changed_services sha256 templates after file_hash so_far ≡ ok out
      → contains out a ≡ (contains so_far a || named_by_changed before after templates a)
  unfolding changed_services
  contains-changed_services [] before after file_hash so_far a r h =
      ap (λ o. contains o a) (sym (ok-injective h)) ∙ ground arith
  contains-changed_services ((file, services) ∷ templates) before after file_hash so_far a (r, rs)
        h =
      let (more, e, h') =
        >>=-eq-ok
          (services_of_file sha256 (or_default [] services) (after file) (lookup file file_hash)) _
          h in
      contains-changed_services templates before after file_hash (so_far ++ more) a rs h'
      ∙ rw
          (
            contains-append so_far more a,
            contains-services_of_file (or_default [] services) (before file) (after file) a
                (sym (ap (services_of_file sha256 (or_default [] services) (after file)) r) ∙ e),
          )
          (ground arith)

  -- Between two states of the files that can be read, a service is restarted exactly if some file
  -- that is there now, and was not or had another hash, names it, and it is not excluded. The order
  -- in which Python visits a set has the members of the set.
  pub contains-services_to_restart :
      (enum : List Text → List Text)
      → ((xs : List Text) (a : Text) → contains (enum xs) a ≡ contains xs a)
      → (templates : Templates) (exclude_services : List Text) (before after : Files)
        {file_hash : Dict Text Text} {restart_services : List Text}
      → record_hashes sha256 templates before [] ≡ ok file_hash
      → changed_services sha256 templates after file_hash [] ≡ ok restart_services
      → (svc : Text)
      → contains (services_to_restart enum exclude_services restart_services) svc
        ≡ (named_by_changed before after templates svc && not (contains exclude_services svc))
  unfolding services_to_restart
  contains-services_to_restart enum members templates exclude before after {file_hash = file_hash}
        {restart_services = out} h k svc =
      members (dedup (diff out exclude)) svc
      ∙ contains-dedup (diff out exclude) svc
      ∙ contains-keep_if (λ s. not (contains exclude s)) out svc
      ∙ ap (λ b. b && not (contains exclude svc))
          (contains-changed_services templates before after file_hash [] svc
            (record_hashes-Recorded templates before h) k)
