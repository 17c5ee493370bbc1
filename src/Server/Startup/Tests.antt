-- ===== src/Server/Startup/Tests.antt =====
-- A server that starts on an empty ledger.
use gaze_lens.Prelude.{◌≡◌, refl, [], ◌∷◌, Text, codes, ok, Text-discrete, true, arith}
use gaze_lens.Protocol.Bounds.{hex}
use gaze_lens.Server.History.{Kind, Identity, Entry, Ledger, principal, resource, Kind-discrete}
use gaze_lens.Server.Auth.{Principal, Resource, Authority, log, check}
use gaze_lens.Server.Startup.{Fingerprints, Disk, History, open_history}
use gaze_lens.Server.Startup.Sorting.{AreDigests}
use gaze_lens.Server.Startup.Opened.{IsOpened, IsOpened-open_history}

abbrev digest : Text
digest = codes "0123456789abcdef0123456789abcdef0123456789abcdef0123456789abcdef"

abbrev fingerprints : Fingerprints
fingerprints = record { of_principal = λ p. ok digest; of_resource = λ r. ok digest }

digest_is_hex : hex digest 64 ≡ true
unfolding hex
digest_is_hex = refl

fingerprints-AreDigests : AreDigests fingerprints
fingerprints-AreDigests = record {
  of_principal = λ p t e. let same : digest ≡ t = ground arith in rw (← same) digest_is_hex;
  of_resource = λ r t e. let same : digest ≡ t = ground arith in rw (← same) digest_is_hex;
}

abbrev alice : Principal
alice = record {
  id = codes "a0000000000000000000000000000001";
  generation = codes "b0000000000000000000000000000001";
  sha256 = digest;
}

abbrev app_log : Resource
app_log = record {
  alias = codes "app-log";
  id = codes "c0000000000000000000000000000001";
  generation = codes "d0000000000000000000000000000001";
  class = log;
}

abbrev authority : Authority
authority = record { principals = alice ∷ []; resources = app_log ∷ []; grants = [] }

authority_ok : check authority ≡ ok authority
unfolding check
authority_ok = refl

abbrev disk : Disk
disk = record { parsed = ok (record { version = 1; entries = [] }); persist = λ l. ok tt }

abbrev alice_identity : Identity
alice_identity = record {
  kind = principal;
  id = alice.id;
  generation = alice.generation;
  fingerprint = digest;
}

abbrev log_identity : Identity
log_identity = record {
  kind = resource;
  id = app_log.id;
  generation = app_log.generation;
  fingerprint = digest;
}

abbrev opened : History
opened = record {
  ledger = record {
    version = 1;
    entries =
        record { identity = alice_identity; active = true }
        ∷ record { identity = log_identity; active = true }
        ∷ [];
  };
  enrolled = alice_identity ∷ log_identity ∷ [];
}

opens : open_history fingerprints (λ l. 700) disk authority ≡ ok opened
unfolding open_history gaze_lens.Server.History.validate gaze_lens.Server.History.enroll_all
    gaze_lens.Server.History.enroll_one gaze_lens.Server.History.rposition Text-discrete
    gaze_lens.Server.History.retire
opens = refl

IsOpened-open_history_example : IsOpened fingerprints authority opened
IsOpened-open_history_example =
    IsOpened-open_history fingerprints (λ l. 700) disk authority opened fingerprints-AreDigests
      authority_ok opens
