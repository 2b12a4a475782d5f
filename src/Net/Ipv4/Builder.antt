-- ===== src/Net/Ipv4/Builder.antt =====
-- src/extensions/networking/protocols/ipv4.rs: the packet builder, from the DSCP on.
use rucoonos.Prelude.{ℕ}
use rucoonos.Net.Wire.{Array4, Array6}
use rucoonos.Net.Ipv4.{Protocol, DestinationState}

pub record DscpState : Type 0 where
  pub dscp : ℕ

pub record IdentificationState : Type 0 where
  pub dscp : ℕ
  pub ident : ℕ

pub record TtlState : Type 0 where
  pub dscp : ℕ
  pub ident : ℕ
  pub ttl : ℕ

pub record ProtocolState : Type 0 where
  pub dscp : ℕ
  pub ident : ℕ
  pub ttl : ℕ
  pub protocol : Protocol

pub record SourceState : Type 0 where
  pub dscp : ℕ
  pub ident : ℕ
  pub ttl : ℕ
  pub protocol : Protocol
  pub source : Array4
  pub source_mac : Array6

unfoldable pub dscp : ℕ → DscpState
dscp d = record { dscp = d }

unfoldable pub identification : DscpState → ℕ → IdentificationState
identification s ident = record { dscp = s.dscp; ident = ident }

unfoldable pub ttl : IdentificationState → ℕ → TtlState
ttl s t = record { dscp = s.dscp; ident = s.ident; ttl = t }

unfoldable pub protocol : TtlState → Protocol → ProtocolState
protocol s p = record { dscp = s.dscp; ident = s.ident; ttl = s.ttl; protocol = p }

unfoldable pub source : ProtocolState → Array4 → Array6 → SourceState
source s ip mac = record {
  dscp = s.dscp;
  ident = s.ident;
  ttl = s.ttl;
  protocol = s.protocol;
  source = ip;
  source_mac = mac;
}

unfoldable pub destination : SourceState → Array4 → Array6 → DestinationState
destination s ip mac = record {
  dscp = s.dscp;
  ident = s.ident;
  ttl = s.ttl;
  protocol = s.protocol;
  source = s.source;
  source_mac = s.source_mac;
  destination = ip;
  destination_mac = mac;
}
