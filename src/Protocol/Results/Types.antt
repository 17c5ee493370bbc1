-- ===== src/Protocol/Results/Types.antt =====
-- What a result is made of, crates/gaze-lens-protocol/src/wire.rs.
use gaze_lens.Prelude.{ℕ, Bool, Text, List, Option, length, Eq}
use gaze_lens.Protocol.Args.{View}

pub data Reason : Type 0 where
  bytes rows lines scan_bytes scan_lines boundary records : Reason

unfoldable pub Reason-discrete : Discrete Reason
Reason-discrete = hlevel

instance abbrev pub Reason-eq : Eq Reason
Reason-eq = record { dec = Reason-discrete }

-- The derived order.
unfoldable pub rank : Reason → ℕ
rank bytes = 0
rank rows = 1
rank lines = 2
rank scan_bytes = 3
rank scan_lines = 4
rank boundary = 5
rank records = 6

pub record Window : Type 0 where
  pub scanned_bytes : ℕ
  pub scanned_lines : ℕ
  pub admitted_lines : ℕ

pub record PackagePage : Type 0 where
  pub offset : ℕ
  pub returned : ℕ
  pub total : ℕ
  pub next_offset : Option ℕ

pub record Column : Type 0 where
  pub name : Text
  pub data_type : Text
  pub nullable : Bool

pub data Status : Type 0 where
  ok_status unavailable unsupported unknown : Status

pub data Evidence : Type 0 where
  os_release dpkg_database configured_php no_evidence : Evidence

pub record Host : Type 0 where
  pub os_id : Text
  pub version_id : Option Text
  pub architecture : Text

pub record Package : Type 0 where
  pub name : Text
  pub version : Text
  pub architecture : Text

pub data PackageStatus : Type 0 where
  present absent unavailable_package unsupported_package : PackageStatus

pub data ObservationStatus : Type 0 where
  observed unavailable_observation unknown_observation : ObservationStatus

pub data AppBinding : Type 0 where
  proven unknown_binding : AppBinding

pub record PackageObservation : Type 0 where
  pub status : PackageStatus
  pub name : Option Text
  pub version : Option Text

pub record CliObservation : Type 0 where
  pub status : ObservationStatus
  pub version : Option Text

pub record FpmObservation : Type 0 where
  pub status : ObservationStatus
  pub version : Option Text
  pub active : Option Bool
  pub app_binding : AppBinding

pub record Php : Type 0 where
  pub runtime_id : Text
  pub installed_package : PackageObservation
  pub cli : CliObservation
  pub fpm : FpmObservation

pub data Records : Type 0 where
  host_records : List Host → Records
  package_records : List Package → Records
  php_records : List Php → Records

unfoldable pub records_length : Records → ℕ
records_length (host_records xs) = length xs
records_length (package_records xs) = length xs
records_length (php_records xs) = length xs

unfoldable pub View-discrete : Discrete View
View-discrete = hlevel

instance abbrev pub View-eq : Eq View
View-eq = record { dec = View-discrete }

unfoldable pub Status-discrete : Discrete Status
Status-discrete = hlevel

instance abbrev pub Status-eq : Eq Status
Status-eq = record { dec = Status-discrete }

unfoldable pub Evidence-discrete : Discrete Evidence
Evidence-discrete = hlevel

instance abbrev pub Evidence-eq : Eq Evidence
Evidence-eq = record { dec = Evidence-discrete }
