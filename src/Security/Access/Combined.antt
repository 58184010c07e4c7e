-- ===== src/Security/Access/Combined.antt =====
-- api/dependencies.py: several authenticators as one.
use enterprise_multi_agent_o.Base.{List, [], ◌∷◌}
use enterprise_multi_agent_o.Base.Lists.{All}
use enterprise_multi_agent_o.Security.Roles.{AuthenticatedIdentity}
use enterprise_multi_agent_o.Security.Authenticators.{Headers, Authenticator}
use enterprise_multi_agent_o.Security.Authenticators.Composite.{Gives, composite-Gives}
use enterprise_multi_agent_o.Security.Access.{combine}

pub combine-Gives :
    (Q : Headers → AuthenticatedIdentity → Type 0) (these : List Authenticator)
    → All (Gives Q) these
    → Gives Q (combine these)
unfolding combine
combine-Gives Q [] g = composite-Gives Q [] g
combine-Gives Q (a ∷ []) g = g.0
combine-Gives Q (a ∷ b ∷ rest) g = composite-Gives Q (a ∷ b ∷ rest) g
