-- ===== src/Identify/Identifying.antt =====
-- What identifying a peer does to the peer store.
use state_channels.Common.{
  ◌≡◌, ◌≢◌, refl, sym, ap, subst, ◌∙◌, inl, inr, Bool, true, false, not, Bool-cases, Option, none,
  some, List, [], ◌∷◌, ◌++◌, String, str_dec, if◌then◌else◌, if_pos, if_neg, ite-str_dec, All,
  All-append, arith,
}
use state_channels.Errors.{
  Result, ok, err, ok-inj, bind-ok, then-ok, or_throw-ok, throw_if, throw_if-false, or_throw,
  err_missing_public_key, err_invalid_peer,
}
use state_channels.Identify.{
  Message, Envelope, Peers, Effect, consume_record, set_addresses, set_protocols, set_metadata,
  set_version, set_versions, parse_all, set_parsed, legacy, consumed, opened, update, same_text,
  identified, identify_peer, identify, IdentifyService, Self, handle_identify, record_or_sealed,
}

module _ {B M : Type 0} where
  -- An effect that concerns one peer alone.
  abbrev pub Concerns : String → Effect B M → Type 0
  Concerns id (consume_record v) = v.peer ≡ id
  Concerns id (set_addresses i mas) = i ≡ id
  Concerns id (set_protocols i ps) = i ≡ id
  Concerns id (set_metadata i k v) = i ≡ id

set_version-Concerns :
    (B M : Type 0) (id k : String) (v : Option String)
    → All (Concerns {B = B} {M = M} id) (set_version id k v)
set_version-Concerns B M id k none = tt
set_version-Concerns B M id k (some v) = (refl, tt)

same_text-eq : (s t : String) → same_text s t ≡ true → s ≡ t
same_text-eq s t h = ground (arith, h)

same_text-ne : (s t : String) → same_text s t ≡ false → s ≢ t
same_text-ne s t h e = ground (arith, h, e)

not-false : (b : Bool) → not b ≡ false → b ≡ true
not-false true h = refl
not-false false h = cc

module _ {K B M : Type 0} (e : Peers K B M) where
  set_versions-Concerns : (id : String) (m : Message K B) → All (Concerns id) (set_versions e id m)
  set_versions-Concerns id m =
      All-append (Concerns id) _ _ (set_version-Concerns B M id _ m.agent_version)
        (set_version-Concerns B M id _ m.protocol_version)

  set_parsed-Concerns : (id : String) (o : Option (List M)) → All (Concerns id) (set_parsed e id o)
  set_parsed-Concerns id none = tt
  set_parsed-Concerns id (some mas) = (refl, tt)

  pub legacy-Concerns : (id : String) (m : Message K B) → All (Concerns id) (legacy e id m)
  legacy-Concerns id m =
      All-append (Concerns id) _ _ (set_parsed-Concerns id (parse_all e m.listen_addrs)) (refl, tt)

  consumed-All :
      (P : Effect B M → Type 0) (v : Envelope B) (r : Result Bool)
      (done otherwise : List (Effect B M))
      → P (consume_record v)
      → All P done
      → All P otherwise
      → All P (consumed e v r done otherwise)
  consumed-All P v (ok true) done otherwise p d o = (p, d)
  consumed-All P v (ok false) done otherwise p d o = o
  consumed-All P v (err c) done otherwise p d o = o

  opened-All :
      (P : Effect B M → Type 0) (expected : Envelope B → Bool) (r : Result (Envelope B))
      (done otherwise : List (Effect B M))
      → ((v : Envelope B) → expected v ≡ true → P (consume_record v))
      → All P done
      → All P otherwise
      → All P (opened e expected r done otherwise)
  opened-All P expected (err c) done otherwise p d o = o
  opened-All P expected (ok v) done otherwise p d o = elim (Bool-cases (expected v)) [
    | inl k ↦ rw k (consumed-All P v (e.consume_peer_record v) done otherwise (p v k) d o)
    | inr k ↦ rw k o
  ]

  pub update-All :
      (P : Effect B M → Type 0) (expected : Envelope B → Bool) (r : Option B)
      (done otherwise : List (Effect B M))
      → ((v : Envelope B) → expected v ≡ true → P (consume_record v))
      → All P done
      → All P otherwise
      → All P (update e expected r done otherwise)
  update-All P expected none done otherwise p d o = o
  update-All P expected (some b) done otherwise p d o =
      opened-All P expected (e.open_and_certify b) done otherwise p d o

  -- A message names the peer of the connection, and this is another one than the node.
  identified-ok :
      (own remote id : String) (m : Message K B)
      → identified e own remote m ≡ ok id
      → (remote ≡ id)
        × ((own ≢ remote)
            × ((k : K) × ((m.public_key ≡ some k) × (e.peer_id_from_keys k ≡ ok remote))))
  unfolding identified
  identified-ok own remote id m h =
      let (k, (a, h₁)) = bind-ok (or_throw m.public_key err_missing_public_key) _ id h in
      let (i, (b, h₂)) = bind-ok (e.peer_id_from_keys k) _ id h₁ in
      let (c, h₃) = then-ok (throw_if (not (same_text remote i)) err_invalid_peer) _ id h₂ in
      let (d, h₄) = then-ok (throw_if (same_text own i) err_invalid_peer) (ok i) id h₃ in
      let x = same_text-eq remote i (not-false _ (throw_if-false _ err_invalid_peer c)) in
      let y = same_text-ne own i (throw_if-false _ err_invalid_peer d) in
      (
        x ∙ ok-inj h₄,
        (
          λ z. y (z ∙ x),
          (k, (or_throw-ok m.public_key err_missing_public_key k a, b ∙ ap ok (sym x))),
        ),
      )

  -- What the outcome of `identify` says of the message.
  abbrev pub IsIdentified :
      String
      → String
      → Option (Option (Message K B))
      → List (Effect B M) × Result (Unit {0})
      → Type 0
  IsIdentified own remote message (es, err c) = es ≡ []
  IsIdentified own remote message (es, ok u) =
      (own ≢ remote)
      × (All (Concerns remote) es
          × ((m : Message K B) × ((k : K) × ((message ≡ some (some m))
                  × ((m.public_key ≡ some k) × (e.peer_id_from_keys k ≡ ok remote))))))

  identify_peer-IsIdentified :
      (own remote : String) (m : Message K B) (r : Result String)
      → identified e own remote m ≡ r
      → IsIdentified own remote (some (some m)) (identify_peer e m r)
  identify_peer-IsIdentified own remote m (err c) h = refl
  identify_peer-IsIdentified own remote m (ok id) h =
      let (x, (n, (k, (a, b)))) = identified-ok own remote id m h in
      (
        n,
        (
          subst (λ i. All (Concerns i) (identify_peer e m (ok id)).0) (sym x)
              (update-All (Concerns id) (λ v. same_text v.peer id) m.signed_peer_record _ _
                (λ v y. same_text-eq v.peer id y) (refl, set_versions-Concerns id m)
                (All-append (Concerns id) _ _ (legacy-Concerns id m) (set_versions-Concerns id m))),
          (m, (k, (refl, (a, b)))),
        ),
      )

  -- If `identify` succeeds, the key of the message is that of the connection's peer, which is not the node itself, and
  -- everything that is written to the peer store concerns this peer; if it fails, nothing is written.
  pub identify-IsIdentified :
      (own remote : String) (message : Option (Option (Message K B)))
      → IsIdentified own remote message (identify e own remote message)
  unfolding identify
  identify-IsIdentified own remote none = refl
  identify-IsIdentified own remote (some none) = refl
  identify-IsIdentified own remote (some (some m)) = identify_peer-IsIdentified own remote m _ refl

  record_update :
      (expected : Envelope B → Bool) (r : B) (v : Envelope B) (done otherwise : List (Effect B M))
      → e.open_and_certify r ≡ ok v
      → expected v ≡ true
      → e.consume_peer_record v ≡ ok true
      → update e expected (some r) done otherwise ≡ consume_record v ∷ done
  record_update expected r v done otherwise a b c =
      ap (λ x. opened e expected x done otherwise) a
      ∙ ap (λ x. if x then consumed e v (e.consume_peer_record v) done otherwise else otherwise) b
      ∙ ap (λ x. consumed e v x done otherwise) c

  identified-own :
      (own remote : String) (m : Message K B) (k : K)
      → own ≢ remote
      → m.public_key ≡ some k
      → e.peer_id_from_keys k ≡ ok remote
      → identified e own remote m ≡ ok remote
  unfolding identified
  identified-own own remote m k n a b =
      ground (arith, a, b, ite-str_dec remote, if_neg (str_dec own remote) n true false)

  -- If a node other than `own` answers to `identify` with its key, by which it is the peer of the connection, and with a
  -- record that opens to an envelope of this peer and that the address book takes, then `identify` of the answer succeeds: it
  -- consumes the record, and sets the protocols and the versions of the peer to those of the node.
  pub identify-handle_identify :
      (own remote : String) (s : IdentifyService) (sealed r : B) (self : Self K B) (v : Envelope B)
      → own ≢ remote
      → e.peer_id_from_keys self.public_key ≡ ok remote
      → record_or_sealed sealed self.listen_addrs self.peer_record_envelope ≡ some r
      → e.open_and_certify r ≡ ok v
      → v.peer ≡ remote
      → e.consume_peer_record v ≡ ok true
      → identify e own remote (some (some (handle_identify s sealed self))) ≡ (
        consume_record v
            ∷ set_protocols remote self.protocols
            ∷ set_metadata remote "AgentVersion" s.agent_version
            ∷ set_metadata remote "ProtocolVersion" s.protocol_version
            ∷ [],
        ok tt,
      )
  unfolding identify handle_identify
  identify-handle_identify own remote s sealed r self v n k a b c d =
      let m = handle_identify s sealed self in
      let x = identified-own own remote m self.public_key n refl k in
      let w = set_versions e remote m in
      ap (identify_peer e m) x
      ∙ ap
          (λ o. (
            update e (λ u. same_text u.peer remote) o (set_protocols remote m.protocols ∷ w)
                (legacy e remote m ++ w),
            ok tt,
          ))
          a
      ∙ ap (λ es. (es, ok tt))
          (record_update (λ u. same_text u.peer remote) r v _ _ b
            (if_pos (str_dec v.peer remote) c true false) d)
