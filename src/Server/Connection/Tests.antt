-- ===== src/Server/Connection/Tests.antt =====
-- A readiness call that is answered, and a principal whose first call ends before its second.
use gaze_lens.Prelude.{
  ℕ, ◌≡◌, refl, true, [], ◌∷◌, ◌++◌, none, some, Text, codes, ok, err, List, arith,
}
use gaze_lens.Protocol.Errors.{Checked, unauthorized}
use gaze_lens.Protocol.Wire.{readiness, Prepare}
use gaze_lens.Protocol.Args.{Args, Call}
use gaze_lens.Server.History.{principal, resource}
use gaze_lens.Server.Auth.{
  Principal, Resource, Grant, Authority, Pinned, log, pin_of, check, revalidate, Principal-discrete,
  Resource-discrete,
}
use gaze_lens.Server.Startup.{Fingerprints, History}
use gaze_lens.Server.Connection.{
  Counts, update, acquire, drop_permit, Reading, Success, call, Frame, prepared, success,
  prepared_of, connection,
}
use gaze_lens.Server.Connection.Served.{AreCounts, IsServed, IsServed-connection}
use gaze_lens.Server.Connection.Released.{IsReleased, IsReleased-call}
use gaze_lens.Server.Connection.Admission.{Reachable, start, admit, leave, Agrees, Agrees-Reachable}

abbrev digest : Text
digest = codes "0123456789abcdef0123456789abcdef0123456789abcdef0123456789abcdef"

abbrev fingerprints : Fingerprints
fingerprints = record { of_principal = λ p. ok digest; of_resource = λ r. ok digest }

abbrev alice : Principal
alice = record {
  id = codes "a0000000000000000000000000000001";
  generation = codes "b0000000000000000000000000000001";
  sha256 = digest;
}

abbrev app_log : Resource
app_log = record {
  alias = codes "app-log";
  id = codes "c0000000000000000000000000000001";
  generation = codes "d0000000000000000000000000000001";
  class = log;
}

abbrev may_probe : Grant
may_probe = record {
  principal = alice.id;
  resource = app_log.id;
  operation = readiness;
  enabled = true;
  expires_unix = 2000;
}

abbrev authority : Authority
authority = record { principals = alice ∷ []; resources = app_log ∷ []; grants = may_probe ∷ [] }

abbrev history : History
history = record {
  ledger = record { version = 1; entries = [] };
  enrolled =
      record {
        kind = principal;
        id = alice.id;
        generation = alice.generation;
        fingerprint = digest;
      }
      ∷ record {
        kind = resource;
        id = app_log.id;
        generation = app_log.generation;
        fingerprint = digest;
      }
      ∷ [];
}

abbrev pin : Pinned
pin = pin_of alice app_log readiness

abbrev probe : Call
probe = record {
  id = codes "01ARZ3NDEKTSV4RRFFQ69G5FAV";
  binding = pin.binding;
  args = Args.readiness;
}

abbrev encode : Success → Call → Checked Text
encode s c = ok (codes "configured" ++ s.id)

abbrev at_time : ℕ → Reading
at_time n = record { file = ok (some authority); now = ok n }

abbrev reply : Text
reply = codes "configured01ARZ3NDEKTSV4RRFFQ69G5FAV"

answered :
    call fingerprints encode history pin probe.id (ok probe) (at_time 1000) (at_time 1001)
    ≡ ok reply
unfolding call Principal-discrete Resource-discrete gaze_lens.Server.Auth.grant
answered = refl

IsReleased-call_example :
    IsReleased fingerprints encode history pin probe.id
      (ok probe)
      (at_time 1000)
      (at_time 1001)
      reply
IsReleased-call_example =
    IsReleased-call fingerprints encode history pin probe.id (ok probe) (at_time 1000)
      (at_time 1001) reply answered

-- The grant has expired by the last reading.
refused_late :
    call fingerprints encode history pin probe.id (ok probe) (at_time 1000) (at_time 2000)
    ≡ err unauthorized
unfolding call Principal-discrete Resource-discrete gaze_lens.Server.Auth.grant
refused_late = refl

abbrev nobody : Counts
nobody id = none

abbrev one_call : Counts
one_call = update nobody alice.id (some 1)

one_call-Reachable : Reachable one_call (alice.id ∷ [])
unfolding acquire
one_call-Reachable = admit nobody one_call [] alice.id start refl

Agrees-Reachable_example : Agrees (drop_permit one_call alice.id) [] alice.id
Agrees-Reachable_example =
    Agrees-Reachable (drop_permit one_call alice.id) []
      (leave one_call [] [] alice.id one_call-Reachable) alice.id

abbrev hello : Prepare
hello = record {
  id = probe.id;
  credential = codes "secret";
  resource = codes "app-log";
  operation = readiness;
}

abbrev frames : List Frame
frames = prepared (prepared_of hello pin) ∷ success reply ∷ []

abbrev sha256 : Text → Text
sha256 credential = digest

served :
    connection sha256 fingerprints encode history nobody
      (ok hello)
      (at_time 999)
      (ok probe)
      (at_time 1000)
      (at_time 1001)
    ≡ (ok frames, drop_permit (update nobody alice.id (some 1)) alice.id)
unfolding connection Principal-discrete Resource-discrete gaze_lens.Server.Auth.grant
    gaze_lens.Server.Auth.fold_principals
served = refl

nobody-AreCounts : AreCounts nobody
nobody-AreCounts id e = absurd (ground arith)

IsServed-connection_example :
    IsServed sha256 fingerprints encode history nobody
      (ok hello)
      (at_time 999)
      (ok probe)
      (at_time 1000)
      (at_time 1001)
      frames
      (drop_permit (update nobody alice.id (some 1)) alice.id)
IsServed-connection_example =
    IsServed-connection sha256 fingerprints encode history nobody (ok hello) (at_time 999)
      (ok probe) (at_time 1000) (at_time 1001) frames
      (drop_permit (update nobody alice.id (some 1)) alice.id) nobody-AreCounts served
