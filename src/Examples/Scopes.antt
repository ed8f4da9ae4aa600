-- ===== src/Examples/Scopes.antt =====
-- Runs and instances for HttpServer.Scopes.
use synthient_mcp.Prelude.{List, [], ◌∷◌, ◌≡◌, refl}
use synthient_mcp.Text.{Text, codes}
use synthient_mcp.HttpServer.Scopes.{unique_strings}

abbrev scopes : List Text
scopes = codes "a" ∷ codes " b" ∷ codes " " ∷ codes "a " ∷ []

two_scopes : unique_strings scopes ≡ codes "a" ∷ codes "b" ∷ []
unfolding unique_strings
two_scopes = refl
