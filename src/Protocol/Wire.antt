-- ===== src/Protocol/Wire.antt =====
-- The messages of one connection, crates/gaze-lens-protocol/src/wire.rs.
use gaze_lens.Prelude.{Text, Eq, Text-discrete}

pub data Operation : Type 0 where
  query schema list_tables log_tail log_window log_regex inspect readiness : Operation

unfoldable pub Operation-discrete : Discrete Operation
Operation-discrete = hlevel

instance abbrev pub Operation-eq : Eq Operation
Operation-eq = record { dec = Operation-discrete }

pub record DestinationBinding : Type 0 where
  pub principal : Text
  pub principal_generation : Text
  pub resource : Text
  pub resource_generation : Text

unfoldable pub DestinationBinding-discrete : Discrete DestinationBinding
unfolding Text-discrete
DestinationBinding-discrete = hlevel Text-discrete

instance abbrev pub DestinationBinding-eq : Eq DestinationBinding
DestinationBinding-eq = record { dec = DestinationBinding-discrete }

-- The one version and the one privacy mode are left out: serde admits no other.
pub record Prepare : Type 0 where
  pub id : Text
  pub credential : Text
  pub resource : Text
  pub operation : Operation

pub record Prepared : Type 0 where
  pub id : Text
  pub operation : Operation
  pub binding : DestinationBinding
