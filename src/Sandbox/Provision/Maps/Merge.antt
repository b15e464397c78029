-- ===== src/Sandbox/Provision/Maps/Merge.antt =====
-- A merge that does not clash keeps every variable of every credential, and no variable of the image
-- replaces one.
use agent_platform_api.Common.{
  Text, Bool, true, false, if◌then◌else◌, text_eq, text_eq_sound, text_eq_refl, none, some, is_some,
  or_else, List, [], ◌∷◌, ◌++◌, Result, ok, >>=-eq-ok, ok_injective, Bool-cases, inl, inr, ◌≡◌,
  refl, sym, ap, subst, ◌∙◌, arith,
}
use agent_platform_api.Sandbox.Provision.{EnvMap, Credential, ProvisionError}
use agent_platform_api.Sandbox.Provision.Maps.{
  lookup, put, spread, merge_entries, merge_all, merge_credential_env, refuse_if,
}

text_eq_sym : (a b : Text) → text_eq a b ≡ true → text_eq b a ≡ true
text_eq_sym a b h = subst (λ c. text_eq c a ≡ true) (text_eq_sound a b h) (text_eq_refl a)

text_eq_trans : (a b c : Text) → text_eq a b ≡ true → text_eq b c ≡ true → text_eq a c ≡ true
text_eq_trans a b c p q = subst (λ d. text_eq a d ≡ true) (text_eq_sound b c q) p

lookup-put :
    (name key value : Text) (m : EnvMap)
    → lookup name (put key value m) ≡ (if text_eq name key then some value else lookup name m)
unfolding lookup put
lookup-put name key value [] = refl
lookup-put name key value ((k, old) ∷ rest) = elim (Bool-cases (text_eq key k)) [
  | inl same ↦
      rw same
        (ground (arith, text_eq_sym key k, text_eq_trans name key k, text_eq_trans name k key))
  | inr other ↦
      rw (other, lookup-put name key value rest)
        (ground (arith, text_eq_sym name key, text_eq_trans key name k))
]

refuse_if_inverse :
    (b : Bool) (rest : Result ProvisionError EnvMap) {m : EnvMap}
    → refuse_if b rest ≡ ok m
    → (b ≡ false) × (rest ≡ ok m)
unfolding refuse_if
refuse_if_inverse true rest h = cc
refuse_if_inverse false rest h = (refl, h)

-- A name that is in the map stays as it is where an absent name is put.
lookup-put_absent :
    (name key value old : Text) (m : EnvMap)
    → lookup name m ≡ some old
    → is_some (lookup key m) ≡ false
    → lookup name (put key value m) ≡ some old
lookup-put_absent name key value old m there fresh = elim (Bool-cases (text_eq name key)) [
  | inl same ↦
      let clash =
        subst (λ k. is_some (lookup k m) ≡ false) (sym (text_eq_sound name key same)) fresh in
      let present : is_some (lookup name m) ≡ true = ap is_some there in cc
  | inr other ↦ lookup-put name key value m ∙ rw other there
]

lookup-put_same :
    (name key value : Text) (m : EnvMap)
    → text_eq name key ≡ true
    → lookup name (put key value m) ≡ some value
lookup-put_same name key value m same = lookup-put name key value m ∙ rw same refl

merge_entries_keeps :
    (merged entries m : EnvMap) (name value : Text)
    → merge_entries merged entries ≡ ok m
    → lookup name merged ≡ some value
    → lookup name m ≡ some value
unfolding merge_entries
merge_entries_keeps merged [] m name value h there =
    subst (λ e. lookup name e ≡ some value) (ok_injective h) there
merge_entries_keeps merged ((k, w) ∷ entries) m name value h there =
    let (fresh, rest) = refuse_if_inverse (is_some (lookup k merged)) _ h in
    merge_entries_keeps (put k w merged) entries m name value rest
      (lookup-put_absent name k w value merged there fresh)

merge_entries_adds :
    (merged entries m : EnvMap) (name value : Text)
    → merge_entries merged entries ≡ ok m
    → lookup name entries ≡ some value
    → lookup name m ≡ some value
unfolding merge_entries lookup
merge_entries_adds merged [] m name value h there = cc
merge_entries_adds merged ((k, w) ∷ entries) m name value h there =
    let (fresh, rest) = refuse_if_inverse (is_some (lookup k merged)) _ h in
    elim (Bool-cases (text_eq name k)) [
      | inl same ↦ merge_entries_keeps (put k w merged) entries m name value rest (
          lookup-put_same name k w merged same
          ∙ subst (λ b. (if b then some w else lookup name entries) ≡ some value) same there)
      | inr other ↦
          merge_entries_adds (put k w merged) entries m name value rest
            (subst (λ b. (if b then some w else lookup name entries) ≡ some value) other there)
    ]

merge_all_keeps :
    (merged : EnvMap) (cs : List Credential) (m : EnvMap) (name value : Text)
    → merge_all merged cs ≡ ok m
    → lookup name merged ≡ some value
    → lookup name m ≡ some value
unfolding merge_all
merge_all_keeps merged [] m name value h there =
    subst (λ e. lookup name e ≡ some value) (ok_injective h) there
merge_all_keeps merged (c ∷ cs) m name value h there =
    let (e, first, rest) = >>=-eq-ok (merge_entries merged c.env) (λ e. merge_all e cs) h in
    merge_all_keeps e cs m name value rest
      (merge_entries_keeps merged c.env e name value first there)

merge_all_adds :
    (merged : EnvMap) (before : List Credential) (c : Credential) (after : List Credential)
    (m : EnvMap) (name value : Text)
    → merge_all merged (before ++ c ∷ after) ≡ ok m
    → lookup name c.env ≡ some value
    → lookup name m ≡ some value
unfolding merge_all
merge_all_adds merged [] c after m name value h there =
    let (e, first, rest) = >>=-eq-ok (merge_entries merged c.env) (λ e. merge_all e after) h in
    merge_all_keeps e after m name value rest
      (merge_entries_adds merged c.env e name value first there)
merge_all_adds merged (b ∷ before) c after m name value h there =
    let (e, first, rest) =
      >>=-eq-ok (merge_entries merged b.env) (λ e. merge_all e (before ++ c ∷ after)) h in
    merge_all_adds e before c after m name value rest there

-- No name stands twice.
IsDistinct : EnvMap → Type 0
unfolding lookup
IsDistinct [] = Unit
IsDistinct ((name, value) ∷ rest) = (lookup name rest ≡ none) × IsDistinct rest

put-IsDistinct : (name value : Text) (m : EnvMap) → IsDistinct m → IsDistinct (put name value m)
unfolding IsDistinct lookup put
put-IsDistinct name value [] h = (refl, tt)
put-IsDistinct name value ((key, old) ∷ rest) h = elim (Bool-cases (text_eq name key)) [
  | inl same ↦ rw same h
  | inr other ↦ rw other (
    lookup-put key name value rest ∙ ground (arith, h.0, other, text_eq_sym key name),
    put-IsDistinct name value rest h.1,
  )
]

merge_entries-IsDistinct :
    (merged entries m : EnvMap)
    → merge_entries merged entries ≡ ok m
    → IsDistinct merged
    → IsDistinct m
unfolding merge_entries
merge_entries-IsDistinct merged [] m h d = subst IsDistinct (ok_injective h) d
merge_entries-IsDistinct merged ((k, w) ∷ entries) m h d =
    merge_entries-IsDistinct (put k w merged) entries m
      (refuse_if_inverse (is_some (lookup k merged)) _ h).1 (put-IsDistinct k w merged d)

merge_all-IsDistinct :
    (merged : EnvMap) (cs : List Credential) (m : EnvMap)
    → merge_all merged cs ≡ ok m
    → IsDistinct merged
    → IsDistinct m
unfolding merge_all
merge_all-IsDistinct merged [] m h d = subst IsDistinct (ok_injective h) d
merge_all-IsDistinct merged (c ∷ cs) m h d =
    let (e, first, rest) = >>=-eq-ok (merge_entries merged c.env) (λ e. merge_all e cs) h in
    merge_all-IsDistinct e cs m rest (merge_entries-IsDistinct merged c.env e first d)

-- A spread is read first in the map that comes last.
lookup-spread :
    (name : Text) (base over : EnvMap)
    → IsDistinct over
    → lookup name (spread base over) ≡ or_else (lookup name over) (lookup name base)
unfolding IsDistinct lookup spread
lookup-spread name base [] d = refl
lookup-spread name base ((key, value) ∷ over) d =
    lookup-spread name (put key value base) over d.1 ∙ elim (Bool-cases (text_eq name key)) [
      | inl same ↦
          rw
            (
              same,
              lookup-put_same name key value base same,
              subst (λ k. lookup k over ≡ none) (sym (text_eq_sound name key same)) d.0,
            )
            refl
      | inr other ↦ rw (lookup-put name key value base, other) refl
    ]

pub merged_entry_wins :
    (image : EnvMap) (before : List Credential) (c : Credential) (after : List Credential)
    (m : EnvMap) (name value : Text)
    → merge_credential_env (before ++ c ∷ after) ≡ ok m
    → lookup name c.env ≡ some value
    → lookup name (spread image m) ≡ some value
unfolding merge_credential_env IsDistinct
merged_entry_wins image before c after m name value h there =
    lookup-spread name image m (merge_all-IsDistinct [] (before ++ c ∷ after) m h tt)
    ∙ rw (merge_all_adds [] before c after m name value h there) refl
