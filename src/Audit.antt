-- ===== src/Audit.antt =====
-- src/audit.rs: who sent the request in flight, and from where.
use kerplace.Base.{Text, Option, none}

pub record AuditContext : Type 0 where
  pub access_key : Option Text
  pub remote_ip : Option Text

-- `AuditContext::default`
abbrev pub no_context : AuditContext
no_context = record { access_key = none; remote_ip = none }
