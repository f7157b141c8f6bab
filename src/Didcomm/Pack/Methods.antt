-- ===== src/Didcomm/Pack/Methods.antt =====
-- affinidi-messaging-didcomm/src/message/pack_encrypted: the methods that keys are chosen from are
-- those of the documents.
use affinidi_messaging.Common.{eq_iff, first_of, Result, if◌then◌else◌}
use affinidi_messaging.Common.{
  ℕ, ltb, String, Bool, true, false, not, List, [], ◌∷◌, length, All, find, Option, none, some, ◌≡◌,
  refl, arith, ◌=ₛ◌, subst, ok, then_ok-eq-ok, ok-injective, ensure,
}
use affinidi_messaging.Didcomm.Error.{ErrorKind, ok_or-eq-ok}
use affinidi_messaging.Didcomm.Keys.{VerificationMethod, Document}
use affinidi_messaging.Didcomm.Crypto.{Crates}
use affinidi_messaging.Didcomm.Pack.Encrypt.{
  shares_alg, no_kids, methods_of, vm_alg, find_from, sender_methods, recipient_methods,
}

module _ {K : Type 0} (crates : Crates K) where
  -- The document's method under the method's own id is this method.
  abbrev pub IsMethodOf : Document → VerificationMethod → Type 0
  IsMethodOf doc vm = find (λ v. v.id =ₛ vm.id) doc.verification_method ≡ some vm

  first_of-holds :
      (b : Bool) (test : VerificationMethod → Bool) (x y : VerificationMethod)
      (found : Option VerificationMethod)
      → test x ≡ b
      → (found ≡ some y → test y ≡ true)
      → first_of b x found ≡ some y
      → test y ≡ true
  first_of-holds true test x y found e later h = cc
  first_of-holds false test x y found e later h = later h

  find-holds :
      (test : VerificationMethod → Bool) (xs : List VerificationMethod) (y : VerificationMethod)
      → find test xs ≡ some y
      → test y ≡ true
  find-holds test [] y h = cc
  find-holds test (x ∷ xs) y h =
      first_of-holds (test x) test x y (find test xs) refl (find-holds test xs y) h

  same_id : (a b : String) → (a =ₛ b) ≡ true → b ≡ a
  same_id a b h = ground (arith, eq_iff a b)

  find-IsMethodOf :
      (doc : Document) (kid : String) (vm : VerificationMethod)
      → find (λ v. v.id =ₛ kid) doc.verification_method ≡ some vm
      → IsMethodOf doc vm
  find-IsMethodOf doc kid vm h =
      subst (λ k. find (λ v. v.id =ₛ k) doc.verification_method ≡ some vm)
        (same_id vm.id kid (find-holds (λ v. v.id =ₛ kid) doc.verification_method vm h)) h

  methods_of-IsMethodOf :
      (e : ErrorKind) (doc : Document) (kids : List String) (vms : List VerificationMethod)
      → methods_of crates e doc.verification_method kids ≡ ok vms
      → All (IsMethodOf doc) vms
  unfolding methods_of
  methods_of-IsMethodOf e doc [] vms h = subst (All (IsMethodOf doc)) (ok-injective [] vms h) tt
  methods_of-IsMethodOf e doc (kid ∷ kids) vms h =
      let (vm, e₁, h₁) = then_ok-eq-ok _ _ h in
      let (rest, e₂, h₂) = then_ok-eq-ok (methods_of crates e doc.verification_method kids) _ h₁ in
      subst (All (IsMethodOf doc)) (ok-injective (vm ∷ rest) vms h₂)
        (find-IsMethodOf doc kid vm (ok_or-eq-ok _ _ e₁), methods_of-IsMethodOf e doc kids rest e₂)

  chosen-holds :
      (P : VerificationMethod → Type 0) (b : Bool) (vm chosen : VerificationMethod)
      (rest : Result ErrorKind (Option VerificationMethod))
      → P vm
      → (rest ≡ ok (some chosen) → P chosen)
      → (if b then ok (some vm) else rest) ≡ ok (some chosen)
      → P chosen
  chosen-holds P true vm chosen rest here later h =
      subst P (some_eq vm chosen (ok-injective _ _ h)) here
    where
      some_eq :
          (a b : VerificationMethod) → Path (Option VerificationMethod) (some a) (some b) → a ≡ b
      some_eq a b h = cc
  chosen-holds P false vm chosen rest here later h = later h

  -- The key that the sender's methods are searched for is one of them.
  pub find_from-holds :
      (P : VerificationMethod → Type 0) (to_keys vms : List VerificationMethod)
      (chosen : VerificationMethod)
      → All P vms
      → find_from crates to_keys vms ≡ ok (some chosen)
      → P chosen
  unfolding find_from
  find_from-holds P to_keys [] chosen all h = absurd (none-ne-some (ok-injective _ _ h))
    where
      none-ne-some : Path (Option VerificationMethod) none (some chosen) → ⊥
      none-ne-some h = cc
  find_from-holds P to_keys (vm ∷ vms) chosen all h =
      let (alg, e₁, h₁) = then_ok-eq-ok (vm_alg crates vm) _ h in
      let (shared, e₂, h₂) = then_ok-eq-ok (shares_alg crates alg to_keys) _ h₁ in
      chosen-holds P shared vm chosen (find_from crates to_keys vms) all.0
        (find_from-holds P to_keys vms chosen all.1) h₂

  pub recipient_methods-IsMethodOf :
      (e : ErrorKind) (doc : Document) (kid : Option String) (limit : ℕ)
      (vms : List VerificationMethod)
      → recipient_methods crates e doc kid limit ≡ ok vms
      → All (IsMethodOf doc) vms
  unfolding recipient_methods
  recipient_methods-IsMethodOf e doc kid limit vms h =
      let agreed = crates.resolvers.find_key_agreement doc kid in
      let (u, some_kids, h₁) =
        then_ok-eq-ok (ensure (not (no_kids agreed)) ErrorKind.did_url_not_found) _ h in
      let (u₂, few, h₂) =
        then_ok-eq-ok
          (ensure (not (ltb limit (length agreed))) ErrorKind.too_many_crypto_operations) _ h₁ in
      methods_of-IsMethodOf e doc (crates.resolvers.find_key_agreement doc kid) vms h₂

  pub sender_methods-IsMethodOf :
      (doc : Document) (kid : Option String) (vms : List VerificationMethod)
      → sender_methods crates doc kid ≡ ok vms
      → All (IsMethodOf doc) vms
  unfolding sender_methods
  sender_methods-IsMethodOf doc kid vms h =
      let agreed = crates.resolvers.find_key_agreement doc kid in
      let (u, some_kids, h₁) =
        then_ok-eq-ok (ensure (not (no_kids agreed)) ErrorKind.did_url_not_found) _ h in
      let (kids, e₁, h₂) = then_ok-eq-ok (crates.resolvers.find_secrets agreed) _ h₁ in
      let (u₂, some_secrets, h₃) =
        then_ok-eq-ok (ensure (not (no_kids kids)) ErrorKind.secret_not_found) _ h₂ in
      methods_of-IsMethodOf ErrorKind.malformed doc kids vms h₃
