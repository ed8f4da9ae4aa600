-- ===== src/HttpServer/Scopes.antt =====
-- uniqueStrings of go/internal/httpserver/oauth.go, which makes the scopes of a token out of its
-- claims. The keys of its map `seen` are the strings of the result.
pub mod Sets
use synthient_mcp.Prelude.{List, [], ◌∷◌, ◌++◌, Bool, true, false, ◌||◌, if◌then◌else◌}
use synthient_mcp.Text.{Text, text_eq, member, trim_space}

-- The loop, with the result so far.
unfoldable pub collect_unique : List Text → List Text → List Text
unfolding trim_space text_eq member
collect_unique result [] = result
collect_unique result (value ∷ values) =
    let kept = collect_unique result values in
    let longer = collect_unique (result ++ trim_space value ∷ []) values in
    if text_eq (trim_space value) [] || member (trim_space value) result then kept else longer

unfoldable pub unique_strings : List Text → List Text
unfolding collect_unique
unique_strings values = collect_unique [] values
