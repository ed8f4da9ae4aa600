-- ===== src/BuildInfo.antt =====
-- go/internal/buildinfo: the name that the program gives itself upstream.
use synthient_mcp.Prelude.{[], ◌++◌, if◌then◌else◌}
use synthient_mcp.Text.{Text, codes, text_eq, trim_space}

unfoldable pub user_agent : Text → Text
unfolding trim_space text_eq
user_agent version =
    codes "synthient-mcp-go/"
    ++ (if text_eq (trim_space version) [] then codes "dev" else trim_space version)
