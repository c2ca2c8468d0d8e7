-- ===== src/Policy/Allowlist.antt =====
-- The model allowlist of server/policy.go against a description of the entries that match.
use onegw.Prelude.{◌≡◌, ◌⊎◌, ◌↔◌, true, String, Option, none, some, List, [], ◌∷◌, arith}
use onegw.Prelude.Text.{Unicode, equal_fold}
use onegw.Policy.{AuthKey, Target, target_name, matches_target, matches_entry, model_allowed}

-- Some element of the list has the property.
abbrev pub Any {ℓ} : {A : Type ℓ} → (A → Type 0) → List A → Type 0
Any P [] = ⊥
Any P (x ∷ xs) = P x ⊎ Any P xs

-- The entry names the target, as provider/model or by its model alone.
abbrev pub Names : Unicode → String → Target → Type 0
Names u e t = (equal_fold u e (target_name t) ≡ true) ⊎ (equal_fold u e t.model ≡ true)

abbrev pub NamesSome : Unicode → String → Option (List Target) → Type 0
NamesSome u e none = ⊥
NamesSome u e (some ts) = Any (Names u e) ts

-- The entry is the client's model string, or names a target that it resolved to.
abbrev pub Covers : Unicode → String → Option (List Target) → String → Type 0
Covers u model res e = (equal_fold u e model ≡ true) ⊎ NamesSome u e res

matches_target_iff :
    (u : Unicode) (e : String) (ts : List Target)
    → (matches_target u e ts ≡ true) ↔ Any (Names u e) ts
unfolding matches_target
matches_target_iff u e [] = (λ h. cc, λ h. absurd h)
matches_target_iff u e (t ∷ ts) =
    let ih = matches_target_iff u e ts in (λ h. ground (arith, ih.0), λ h. ground (arith, ih.1))

matches_entry_iff :
    (u : Unicode) (es : List String) (model : String) (res : Option (List Target))
    → (matches_entry u es model res ≡ true) ↔ Any (Covers u model res) es
unfolding matches_entry
matches_entry_iff u [] model res = (λ h. cc, λ h. absurd h)
matches_entry_iff u (e ∷ es) model none =
    let ih = matches_entry_iff u es model none in
    (λ h. ground (arith, ih.0), λ h. ground (arith, ih.1))
matches_entry_iff u (e ∷ es) model (some ts) =
    let ih = matches_entry_iff u es model (some ts) in
    let m = matches_target_iff u e ts in
    (λ h. ground (arith, ih.0, m.0), λ h. ground (arith, ih.1, m.1))

-- A key's allowlist lets a model pass exactly when it is empty, or one of its entries is the
-- client's model string or names a target of the resolution, in any letter case.
model_allowed_iff :
    (u : Unicode) (ak : AuthKey) (model : String) (res : Option (List Target))
    → (model_allowed u (some ak) model res ≡ true)
      ↔ ((ak.models ≡ []) ⊎ Any (Covers u model res) ak.models)
unfolding model_allowed
model_allowed_iff u ak model res =
    let m = matches_entry_iff u ak.models model res in
    (λ h. ground (arith, m.0), λ h. ground (arith, m.1))
