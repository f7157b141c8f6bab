-- ===== src/Didcomm/Routing/Services/Chain.antt =====
-- affinidi-messaging-didcomm/src/protocols/routing/mod.rs: the loop that follows a chain of services
-- ends, and the shape of the chain.
use affinidi_messaging.Common.{
  ℕ, zero, suc, String, Bool, true, false, not, ltb, length, List, [], ◌∷◌, find, Option, none,
  some, ◌≡◌, ◌≢◌, ◌⊎◌, refl, ap, ◌∙◌, sym, subst, ok-injective, Result, ok, err, panic, then_ok,
  ensure, then_ok-eq-ok, Bool-cases, inl, inr,
}
use affinidi_messaging.Didcomm.Error.{ErrorKind, ok_or, ok_or-eq-ok, ensure-eq-ok}
use affinidi_messaging.Didcomm.Keys.{Service, Endpoint, Document, is_did}
use affinidi_messaging.Didcomm.Crypto.{Resolvers}
use affinidi_messaging.Didcomm.Routing.Services.{
  ServiceSerde, Found, check_service_type, read_endpoint, accepts_didcomm, check_service,
  find_did_comm_service, next_service, follow, at_end, chain_of, resolve_did_comm_services_chain,
}

then_ok-ne-panic :
    {A B : Type 0} (r : Result ErrorKind A) (f : A → Result ErrorKind B)
    → r ≢ panic
    → ((a : A) → r ≡ ok a → f a ≢ panic)
    → then_ok r f ≢ panic
then_ok-ne-panic (ok a) f n k = k a refl
then_ok-ne-panic (err e) f n k = λ h. cc
then_ok-ne-panic panic f n k = λ h. n refl

ok_or-ne-panic : {A : Type 0} (e : ErrorKind) (x : Option A) → ok_or e x ≢ panic
ok_or-ne-panic e none h = cc
ok_or-ne-panic e (some a) h = cc

ensure-ne-panic : (b : Bool) (e : ErrorKind) → ensure b e ≢ panic
ensure-ne-panic true e h = cc
ensure-ne-panic false e h = cc

module _ (serde : ServiceSerde) (resolvers : Resolvers) where
  -- A service of the document that is found without being named.
  abbrev pub IsServiceOf : String → Found → Type 0
  IsServiceOf did service =
      (doc : Document) × (resolvers.resolve did ≡ some doc)
      × (find_did_comm_service serde resolvers doc none ≡ ok (some service))

  -- No service, one whose endpoint is no DID, or a mediator's behind one whose endpoint is the
  -- mediator's DID; the mediator's own endpoint is no DID.
  abbrev pub IsChain : List Found → Type 0
  IsChain [] = Unit
  IsChain (service ∷ []) = is_did service.1.uri ≡ false
  IsChain (next ∷ service ∷ []) =
      (is_did service.1.uri ≡ true) × (IsServiceOf service.1.uri next) × (is_did next.1.uri ≡ false)
  IsChain (_ ∷ _ ∷ _ ∷ _) = ⊥

  -- Every link of the services, the last that was found first.
  next_service-IsServiceOf :
      (service next : Found) (services : List Found)
      → next_service serde resolvers service services ≡ ok next
      → (not (ltb 1 (length services)) ≡ true) × IsServiceOf service.1.uri next
  next_service-IsServiceOf service next services h =
      let (u, short, h₁) =
        then_ok-eq-ok (ensure (not (ltb 1 (length services))) ErrorKind.invalid_state) _ h in
      let (doc, resolved, h₂) =
        then_ok-eq-ok (ok_or ErrorKind.did_not_resolved (resolvers.resolve service.1.uri)) _ h₁ in
      let (found, e, h₃) = then_ok-eq-ok (find_did_comm_service serde resolvers doc none) _ h₂ in
      (
        ensure-eq-ok _ _ short,
        (
          doc,
          ok_or-eq-ok (resolvers.resolve service.1.uri) _ resolved,
          e ∙ ap ok (ok_or-eq-ok found _ h₃),
        ),
      )

  -- A round of the loop: it ends at an endpoint that is no DID, or goes on to the next service.
  follow-eq-ok :
      (fuel : ℕ) (service : Found) (services : List Found) (end : Option (List Found))
      → follow serde resolvers (suc fuel) service services ≡ ok end
      → ((is_did service.1.uri ≡ false) × (end ≡ some services))
        ⊎ ((next : Found) × (is_did service.1.uri ≡ true)
            × (not (ltb 1 (length services)) ≡ true)
            × IsServiceOf service.1.uri next
            × (follow serde resolvers fuel next (next ∷ services) ≡ ok end))
  unfolding follow
  follow-eq-ok fuel service services end h = elim (Bool-cases (is_did service.1.uri)) [
    | inl is ↦
        let (next, e, h₁) =
          then_ok-eq-ok (next_service serde resolvers service services) _ (rw (follow, is) at h) in
        let (short, of) = next_service-IsServiceOf service next services e in
        inr (next, is, short, of, h₁)
    | inr plain ↦ inl (plain, sym (ok-injective (some services) end (rw (follow, plain) at h)))
  ]

  -- The loop from one service, with three rounds of fuel, ends with a chain.
  follow-IsChain :
      (service : Found) (end : Option (List Found))
      → follow serde resolvers 3 service (service ∷ []) ≡ ok end
      → (chain : List Found) × (end ≡ some chain) × IsChain chain
  follow-IsChain service end h = elim (follow-eq-ok 2 service (service ∷ []) end h) [
    | inl (plain, e) ↦ (service ∷ [], e, plain)
    | inr (next, is, short, of, h₁) ↦ elim (follow-eq-ok 1 next (next ∷ service ∷ []) end h₁) [
      | inl (plain, e) ↦ (next ∷ service ∷ [], e, (is, of, plain))
      | inr (third, is₂, long, of₂, rest) ↦ absurd (false-ne-true long)
    ]
  ]
    where
      false-ne-true : Path Bool false true → ⊥
      false-ne-true h = cc

  read_endpoint-ne-panic :
      (service : Service) (endpoint : Option Endpoint)
      → read_endpoint serde service endpoint ≢ panic
  read_endpoint-ne-panic service none = λ h. cc
  read_endpoint-ne-panic service (some (Endpoint.uri u)) = λ h. cc
  read_endpoint-ne-panic service (some (Endpoint.map fs)) =
      then_ok-ne-panic (ok_or ErrorKind.invalid_state (serde.read_service fs)) _
        (ok_or-ne-panic _ _) λ found e h. cc

  check_service_type-ne-panic : (service : Service) → check_service_type service ≢ panic
  check_service_type-ne-panic service = by_types service.type_ refl
    where
      by_types : (types : List String) → service.type_ ≡ types → check_service_type service ≢ panic
      by_types [] e h = cc
      by_types (t ∷ ts) e h = cc

  check_service-ne-panic : (service : Service) → check_service serde service ≢ panic
  unfolding check_service
  check_service-ne-panic service =
      then_ok-ne-panic (check_service_type service) _ (check_service_type-ne-panic service) λ u e.
        then_ok-ne-panic (ok_or ErrorKind.invalid_state service.service_endpoint) _
          (ok_or-ne-panic _ _)
          λ endpoints e₁. read_endpoint-ne-panic service (find (accepts_didcomm serde) endpoints)

  find_did_comm_service-ne-panic :
      (doc : Document) (service_id : Option String)
      → find_did_comm_service serde resolvers doc service_id ≢ panic
  unfolding find_did_comm_service
  find_did_comm_service-ne-panic doc (some id) =
      then_ok-ne-panic (ok_or ErrorKind.invalid_state (resolvers.service doc id)) _
        (ok_or-ne-panic _ _) λ service e. check_service-ne-panic service
  find_did_comm_service-ne-panic doc none = λ h. cc

  next_service-ne-panic :
      (service : Found) (services : List Found)
      → next_service serde resolvers service services ≢ panic
  next_service-ne-panic service services =
      then_ok-ne-panic (ensure (not (ltb 1 (length services))) ErrorKind.invalid_state) _
        (ensure-ne-panic _ _)
        λ u e.
          then_ok-ne-panic (ok_or ErrorKind.did_not_resolved (resolvers.resolve service.1.uri)) _
            (ok_or-ne-panic _ _)
            λ doc e₁.
              then_ok-ne-panic (find_did_comm_service serde resolvers doc none) _
                (find_did_comm_service-ne-panic doc none) λ found e₂. ok_or-ne-panic _ found

  follow-ne-panic :
      (fuel : ℕ) (service : Found) (services : List Found)
      → follow serde resolvers fuel service services ≢ panic
  unfolding follow
  follow-ne-panic zero service services = λ h. cc
  follow-ne-panic (suc fuel) service services = elim (Bool-cases (is_did service.1.uri)) [
    | inl is ↦
        rw (follow, is)
          (then_ok-ne-panic (next_service serde resolvers service services) _
            (next_service-ne-panic service services)
            λ next e. follow-ne-panic fuel next (next ∷ services))
    | inr plain ↦ rw (follow, plain) (λ h. cc)
  ]

  some-ne-panic :
      (end : Option (List Found)) (chain : List Found)
      → end ≡ some chain
      → at_end serde resolvers end ≢ panic
  some-ne-panic (some services) chain e h = cc
  some-ne-panic none chain e h = cc

  chain_of-ne-panic : (found : Option Found) → chain_of serde resolvers found ≢ panic
  chain_of-ne-panic none = λ h. cc
  chain_of-ne-panic (some service) =
      then_ok-ne-panic (follow serde resolvers 3 service (service ∷ [])) _
        (follow-ne-panic 3 service (service ∷ []))
        λ end e. let (chain, is, shape) = follow-IsChain service end e in some-ne-panic end chain is

  at_end-eq-ok :
      (end : Option (List Found)) (shape chain : List Found)
      → end ≡ some shape
      → at_end serde resolvers end ≡ ok chain
      → shape ≡ chain
  at_end-eq-ok (some services) shape chain e h = cc
  at_end-eq-ok none shape chain e h = cc

  chain_of-IsChain :
      (found : Option Found) (chain : List Found)
      → chain_of serde resolvers found ≡ ok chain
      → IsChain chain
  chain_of-IsChain none chain h = subst IsChain (ok-injective [] chain h) tt
  chain_of-IsChain (some service) chain h =
      let (end, e, h₁) = then_ok-eq-ok (follow serde resolvers 3 service (service ∷ [])) _ h in
      let (shape, is, of) = follow-IsChain service end e in
      subst IsChain (at_end-eq-ok end shape chain is h₁) of

  -- The loop over the chain of services ends, since the fuel of three rounds does not run out, and
  -- no step panics. A chain that is found has at most two services: its first service has an
  -- endpoint that is no DID; where it has a second, the endpoint of that is the DID in whose
  -- document the first was found.
  pub resolve_did_comm_services_chain-IsChain :
      (to : String) (service_id : Option String)
      → (resolve_did_comm_services_chain serde resolvers to service_id ≢ panic)
        × ((chain : List Found)
            → resolve_did_comm_services_chain serde resolvers to service_id ≡ ok chain
            → IsChain chain)
  unfolding resolve_did_comm_services_chain
  resolve_did_comm_services_chain-IsChain to service_id = (
    then_ok-ne-panic (ok_or ErrorKind.did_not_resolved (resolvers.resolve to)) _
        (ok_or-ne-panic _ _)
        λ doc e.
          then_ok-ne-panic (find_did_comm_service serde resolvers doc service_id) _
            (find_did_comm_service-ne-panic doc service_id) λ found e₁. chain_of-ne-panic found,
    λ chain h.
        let (doc, resolved, h₁) =
          then_ok-eq-ok (ok_or ErrorKind.did_not_resolved (resolvers.resolve to)) _ h in
        let (found, e, h₂) =
          then_ok-eq-ok (find_did_comm_service serde resolvers doc service_id) _ h₁ in
        chain_of-IsChain found chain h₂,
  )
