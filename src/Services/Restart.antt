-- ===== src/Services/Restart.antt =====
-- `RestartOnChange` of openstack_hypervisor/hooks.py: the context manager that notes the hashes of
-- the configuration files and restarts the services of those that its block wrote.
--
-- The parameters are SHA-256 and the files under the snap's directory: `content` is none for a
-- path that does not exist, and a file that exists may fail to be read. `enum` is the order in which
-- Python visits a set.
use snap_openstack_hyperviso.Base.{
  Option, none, some, List, [], ◌∷◌, ◌++◌, if◌then◌else◌, ◌==◌, text_eq, dedup, diff, Result, ok,
  ◌>>=◌,
}
use snap_openstack_hyperviso.Base.Dict.{Dict, lookup, insert, or_default}
use snap_openstack_hyperviso.Base.Text.{Text}

-- What the template of a file says: the services to restart, if it names any.
abbrev pub Templates : Type 0
Templates = Dict Text (Option (List Text))

-- Which files exist, and what they hold.
abbrev pub Files : Type 0
Files = Text → Option (Result Text)

module _ (sha256 : Text → Text) where
  -- The body of the loop of `__enter__`.
  unfoldable pub record_hash :
      Text → Option (Result Text) → Dict Text Text → Result (Dict Text Text)
  record_hash file none file_hash = ok file_hash
  record_hash file (some content) file_hash = do
    bytes ← content
    ok (insert file (sha256 bytes) file_hash)

  -- `__enter__`
  unfoldable pub record_hashes : Templates → Files → Dict Text Text → Result (Dict Text Text)
  record_hashes [] files file_hash = ok file_hash
  record_hashes ((file, services) ∷ templates) files file_hash = do
    more ← record_hash file (files file) file_hash
    record_hashes templates files more

  -- What the loop of `__exit__` adds for a file: a file that was not there is not read.
  unfoldable pub services_of_file :
      List Text → Option (Result Text) → Option Text → Result (List Text)
  services_of_file services none hash = ok []
  services_of_file services (some content) none = ok services
  services_of_file services (some content) (some hash) = do
    bytes ← content
    ok (if sha256 bytes == hash then [] else services)

  -- The loop of `__exit__`.
  unfoldable pub changed_services :
      Templates → Files → Dict Text Text → List Text → Result (List Text)
  changed_services [] files file_hash restart_services = ok restart_services
  changed_services ((file, services) ∷ templates) files file_hash restart_services = do
    more ← services_of_file (or_default [] services) (files file) (lookup file file_hash)
    changed_services templates files file_hash (restart_services ++ more)

-- `set([s for s in restart_services if s not in self.exclude_services])`, in the order it is visited.
unfoldable pub services_to_restart : (List Text → List Text) → List Text → List Text → List Text
services_to_restart enum exclude_services restart_services =
    enum (dedup (diff restart_services exclude_services))
