-- ===== src/Sandbox/Provision/Maps.antt =====
-- provision-sandbox.workflow.ts: `mergeCredentialEnv`, and the spread that puts its map after the
-- image's. The owner of a name, which only the message of the clash reads, is left out.
pub mod Merge
use agent_platform_api.Common.{
  Text, Bool, true, false, if◌then◌else◌, text_eq, text_eq_sound, text_eq_refl, Option, none, some,
  is_some, or_else, List, [], ◌∷◌, ◌++◌, Result, ok, err, ◌>>=◌, >>=-eq-ok, ok_injective,
  Bool-cases, inl, inr, ◌≡◌, refl, sym, ap, subst, ◌∙◌, arith,
}
use agent_platform_api.Sandbox.Provision.{EnvMap, Credential, ProvisionError, name_clash}

-- `map[name]`
unfoldable pub lookup : Text → EnvMap → Option Text
lookup name [] = none
lookup name ((key, value) ∷ rest) = if text_eq name key then some value else lookup name rest

-- `map[name] = value`, in the place where the key stands, or at the end.
unfoldable pub put : Text → Text → EnvMap → EnvMap
put name value [] = (name, value) ∷ []
put name value ((key, old) ∷ rest) =
    let kept = put name value rest in
    if text_eq name key then (key, value) ∷ rest else (key, old) ∷ kept

-- `{ ...base, ...over }`
unfoldable pub spread : EnvMap → EnvMap → EnvMap
unfolding put
spread base [] = base
spread base ((name, value) ∷ over) = spread (put name value base) over

-- `if (previous !== undefined) throw`, before the rest.
unfoldable pub refuse_if : Bool → Result ProvisionError EnvMap → Result ProvisionError EnvMap
refuse_if true rest = err name_clash
refuse_if false rest = rest

-- The entries of one credential.
unfoldable pub merge_entries : EnvMap → EnvMap → Result ProvisionError EnvMap
unfolding refuse_if
merge_entries merged [] = ok merged
merge_entries merged ((name, value) ∷ entries) =
    refuse_if (is_some (lookup name merged)) (merge_entries (put name value merged) entries)

unfoldable pub merge_all : EnvMap → List Credential → Result ProvisionError EnvMap
unfolding merge_entries
merge_all merged [] = ok merged
merge_all merged (c ∷ cs) = merge_entries merged c.env >>= λ m. merge_all m cs

unfoldable pub merge_credential_env : List Credential → Result ProvisionError EnvMap
unfolding merge_all
merge_credential_env credentials = merge_all [] credentials
