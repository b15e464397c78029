-- ===== src/Sandbox/Provision/Wiping.antt =====
-- The `finally` around the creation and the start: every credential that was prepared is wiped.
use agent_platform_api.Common.{Option, List, [], ◌∷◌, All}
use agent_platform_api.Sandbox.Provision.{
  Scene, Env, Effect, Credential, Quota, PreparedWorkspace, Handle, emit, zeroizes,
}
use agent_platform_api.Sandbox.Provision.Credentials.{zeroize_all, finally_zeroize}
use agent_platform_api.Sandbox.Provision.Steps.{Image}
use agent_platform_api.Sandbox.Provision.Pipeline.{create_finally}
use agent_platform_api.Sandbox.Provision.Restart.{start_finally}
use agent_platform_api.Sandbox.Provision.Laws.Ends.{Did, Did-last, Did-before}

abbrev IsWiped : List Credential → Scene → Type 0
IsWiped cs s = All (λ c. Did (zeroizes c) s.done) cs

zeroize_all-Did :
    (cs : List Credential) (e : Effect) (s : Scene) → Did e s.done → Did e (zeroize_all cs s).done
unfolding zeroize_all
zeroize_all-Did [] e s h = h
zeroize_all-Did (c ∷ cs) e s h =
    zeroize_all-Did cs e (emit s (zeroizes c)) (Did-before e (zeroizes c) s.done h)

zeroize_all-IsWiped : (cs : List Credential) (s : Scene) → IsWiped cs (zeroize_all cs s)
unfolding zeroize_all
zeroize_all-IsWiped [] s = tt
zeroize_all-IsWiped (c ∷ cs) s = (
  zeroize_all-Did cs (zeroizes c) (emit s (zeroizes c)) (Did-last (zeroizes c) s.done),
  zeroize_all-IsWiped cs (emit s (zeroizes c)),
)

-- However the creation and the first start end, and however a restart ends, each credential that was
-- prepared for it has been wiped.
finally-IsWiped :
    (env : Env) (ws : PreparedWorkspace) (handle : Handle) (image : Image) (cs : List Credential)
    (quota : Option Quota) (s : Scene)
    → IsWiped cs (create_finally env ws image cs quota s).0
      × IsWiped cs (start_finally env handle image cs s).0
unfolding create_finally finally_zeroize
finally-IsWiped env ws handle image cs quota s =
    (zeroize_all-IsWiped cs _, zeroize_all-IsWiped cs _)
