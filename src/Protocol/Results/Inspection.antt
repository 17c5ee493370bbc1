-- ===== src/Protocol/Results/Inspection.antt =====
-- The checks of an inspection's records, crates/gaze-lens-protocol/src/wire.rs.
use gaze_lens.Prelude.{
  Bool, true, false, not, ◌&&◌, ◌||◌, ◌==◌, ℕ_eq, ℕ_discrete, Text-eq, Text-discrete, text_ltb,
  if◌then◌else◌, Text, List, [], ◌∷◌, Option, none, some, length, is_empty, ok, err, ◌>>◌, each,
}
use gaze_lens.Protocol.Errors.{Checked, invalid_request}
use gaze_lens.Protocol.Bounds.{require, configured_id, text}
use gaze_lens.Protocol.Query.{if_some}
use gaze_lens.Protocol.Args.{Inspect, View, host, packages, php, is_none}
use gaze_lens.Protocol.Results.Types.{
  Reason, bytes, records, PackagePage, Evidence, Evidence-eq, Evidence-discrete, os_release,
  dpkg_database, configured_php, no_evidence, Host, Package, PackageStatus, present,
  ObservationStatus, observed, AppBinding, proven, FpmObservation, Php, Records, host_records,
  package_records, php_records, records_length,
}
use gaze_lens.Protocol.Results.Checks.{reasons, check_page}

unfoldable pub is_present : PackageStatus → Bool
is_present present = true
is_present _ = false

unfoldable pub is_observed : ObservationStatus → Bool
is_observed observed = true
is_observed _ = false

unfoldable pub is_proven : AppBinding → Bool
is_proven proven = true
is_proven _ = false

abbrev pub agree : Bool → Bool → Bool
agree true b = b
agree false b = not b

abbrev pub is_active : Option Bool → Bool
is_active (some true) = true
is_active _ = false

unfoldable pub check_host : Host → Checked (Unit {0})
check_host x = do text x.os_id; text x.architecture; if_some text x.version_id

-- The pairs of name and architecture, in the order of pairs.
unfoldable pub package_before : Package → Package → Bool
unfolding text_ltb Text-discrete
package_before p q =
    text_ltb p.name q.name || p.name == q.name && text_ltb p.architecture q.architecture

unfoldable pub check_packages : Option Package → List Package → Checked (Unit {0})
unfolding package_before
check_packages last [] = ok tt
check_packages last (x ∷ rest) = do
  text x.name
  text x.version
  text x.architecture
  require (elim last [ none ↦ true | some p ↦ package_before p x ])
  check_packages (some x) rest

unfoldable pub check_fpm : FpmObservation → Checked (Unit {0})
unfolding is_observed is_proven
check_fpm fpm = do
  require (agree (is_observed fpm.status) (not (is_none fpm.version)))
  if not (is_observed fpm.status)
      then require (is_none fpm.active && not (is_proven fpm.app_binding))
      else ok tt
  if is_proven fpm.app_binding then require (is_active fpm.active) else ok tt

unfoldable pub check_php : Option Text → Php → Checked (Unit {0})
unfolding configured_id text_ltb is_present is_observed check_fpm
check_php last x = do
  configured_id x.runtime_id
  require (elim last [ none ↦ true | some p ↦ text_ltb p x.runtime_id ])
  require (
      agree (is_present x.installed_package.status) (not (is_none x.installed_package.version))
      && agree (is_present x.installed_package.status) (not (is_none x.installed_package.name)))
  require (agree (is_observed x.cli.status) (not (is_none x.cli.version)))
  check_fpm x.fpm
  if_some text x.installed_package.name
  if_some text x.installed_package.version
  if_some text x.cli.version
  if_some text x.fpm.version

unfoldable pub check_php_list : Option Text → List Php → Checked (Unit {0})
unfolding check_php
check_php_list last [] = ok tt
check_php_list last (x ∷ rest) = do check_php last x; check_php_list (some x.runtime_id) rest

abbrev pub expected_evidence : View → Evidence
expected_evidence host = os_release
expected_evidence packages = dpkg_database
expected_evidence php = configured_php

-- The arm of a collector that answers no records.
unfoldable pub check_without_records :
    View → Evidence → Records → Option PackagePage → List Reason → Checked (Unit {0})
unfolding Evidence-discrete ℕ_discrete records_length
check_without_records view evidence found page truncated = do
  require (evidence == no_evidence || evidence == expected_evidence view)
  require (records_length found == 0 && is_none page && is_empty truncated)

unfoldable pub check_records :
    Inspect → Evidence → Records → Option PackagePage → List Reason → Checked (Unit {0})
unfolding Evidence-discrete ℕ_discrete check_host reasons check_packages check_page check_php_list
check_records i evidence (host_records xs) page truncated = do
  require (evidence == os_release && length xs == 1 && is_none page && is_empty truncated)
  each check_host xs
check_records i evidence (package_records xs) page truncated = do
  require (evidence == dpkg_database)
  reasons truncated (bytes ∷ records ∷ [])
  check_packages none xs
  elim page [ none ↦ err invalid_request | some p ↦ check_page p i (length xs) truncated ]
check_records i evidence (php_records xs) page truncated = do
  require (evidence == configured_php && is_none page)
  reasons truncated (bytes ∷ records ∷ [])
  check_php_list none xs
