-- ===== src/Sandbox/Provision/Options.antt =====
-- provision-sandbox.workflow.ts: the environment in the options of the create call.
use agent_platform_api.Common.{Text, List, ◌∷◌, ◌++◌, some, ok, ◌≡◌}
use agent_platform_api.Sandbox.Provision.{Scene, PreparedWorkspace, Quota, EnvMap, Credential}
use agent_platform_api.Sandbox.Provision.Maps.{lookup, merge_credential_env}
use agent_platform_api.Sandbox.Provision.Maps.Merge.{merged_entry_wins}
use agent_platform_api.Sandbox.Provision.Steps.{Image}
use agent_platform_api.Sandbox.Provision.Pipeline.{create_options}

-- Where the credentials do not clash, the environment of the options that the instance is created with
-- gives each variable of a credential that credential's value, whatever the image says of it.
pub create_options_env :
    (s : Scene) (ws : PreparedWorkspace) (image : Image) (quota : Quota) (before : List Credential)
    (c : Credential) (after : List Credential) (m : EnvMap) (name value : Text)
    → merge_credential_env (before ++ c ∷ after) ≡ ok m
    → lookup name c.env ≡ some value
    → lookup name (create_options s ws image quota m).env ≡ some value
create_options_env s ws image quota before c after m name value h there =
    merged_entry_wins image.env before c after m name value h there
