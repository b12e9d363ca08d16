-- ===== src/Errors.antt =====
-- js-libp2p/src/errors.ts: the error codes, and the outcome of a call that may throw one of them.
use state_channels.Common.{Bool, true, false, Option, none, some, ◌≡◌, ◌≢◌, refl, ap}

-- `codes`
pub data Code : Type 0 where
  dht_disabled err_pubsub_disabled pubsub_not_started dht_not_started : Code
  conn_encryption_required err_transports_required err_protector_required : Code
  err_peer_dial_intercepted err_connection_intercepted err_invalid_protocols_for_stream : Code
  err_connection_ended err_connection_failed err_node_not_started err_already_aborted : Code
  err_too_many_addresses err_no_valid_addresses err_relayed_dial err_dialed_self : Code
  err_discovered_self err_duplicate_transport err_encryption_failed : Code
  err_hop_request_failed err_invalid_key err_invalid_message err_invalid_parameters : Code
  err_invalid_peer err_muxer_unavailable err_not_found err_timeout : Code
  err_transport_unavailable err_transport_dial_failed err_unsupported_protocol : Code
  err_protocol_handler_already_registered err_invalid_multiaddr err_signature_not_valid : Code
  err_find_self err_no_routers_available err_connection_not_multiplexed : Code
  err_no_dial_tokens err_keychain_required err_invalid_cms err_missing_keys err_no_key : Code
  err_invalid_key_name err_invalid_key_type err_key_already_exists err_invalid_key_size : Code
  err_key_not_found err_old_key_name_invalid err_new_key_name_invalid : Code
  err_password_required err_pem_required err_cannot_read_key err_missing_private_key : Code
  err_missing_public_key err_invalid_old_pass_type err_invalid_new_pass_type : Code
  err_invalid_pass_length err_not_implemented err_wrong_ping_ack err_invalid_record : Code
  err_already_succeeded err_no_handler_for_protocol : Code
  err_too_many_outbound_protocol_streams err_too_many_inbound_protocol_streams : Code
  err_connection_denied : Code

-- What an asynchronous call settles to: an error that carries a code, or a value.
pub data Result {ℓ} (A : Type ℓ) : Type ℓ where
  err : (code : Code) → Result A
  ok : (value : A) → Result A

-- `if (value == null) throw errCode(…)`
abbrev pub or_throw {ℓ} : {A : Type ℓ} → Option A → Code → Result A
or_throw none e = err e
or_throw (some a) e = ok a

-- `if (test) throw errCode(…)`
abbrev pub throw_if : Bool → Code → Result (Unit {0})
throw_if true e = err e
throw_if false e = ok tt

-- `await` of a call whose error is passed on, and of one whose value is not used.
infixl 5 ◌>>=◌ ◌>>◌
abbrev pub ◌>>=◌ {ℓ₁ ℓ₂} :
    {A : Type ℓ₁} {B : Type ℓ₂} (call : Result A) (next : A → Result B) → Result B
err code >>= next = err code
ok value >>= next = next value

abbrev pub ◌>>◌ {ℓ₁} : {B : Type ℓ₁} (check : Result (Unit {0})) (next : Result B) → Result B
err code >> next = err code
ok tt >> next = next

pub ok_ne_err {ℓ} : {A : Type ℓ} {a : A} {e : Code} → Result.ok a ≢ err e
ok_ne_err h = cc

pub ok-inj {ℓ} : {A : Type ℓ} {a b : A} → Result.ok a ≡ ok b → a ≡ b
ok-inj {a = a} h = ap (λ x. elim x [ ok y ↦ y | err e ↦ a ]) h

-- A guarded value that is returned has passed its guard.
pub throw_if-ok {ℓ} :
    {A : Type ℓ} (b : Bool) (e : Code) (r : Result A) (a : A)
    → (throw_if b e >> r) ≡ ok a
    → (b ≡ false) × (r ≡ ok a)
throw_if-ok true e r a h = cc
throw_if-ok false e r a h = (refl, h)

-- A call that returns has returned from its first part, and from the rest with what that gave.
pub bind-ok {ℓ₁ ℓ₂} :
    {A : Type ℓ₁} {B : Type ℓ₂} (r : Result A) (next : A → Result B) (b : B)
    → (r >>= next) ≡ ok b
    → (a : A) × ((r ≡ ok a) × (next a ≡ ok b))
bind-ok (err e) next b h = cc
bind-ok (ok a) next b h = (a, (refl, h))

pub then-ok {ℓ₁} :
    {B : Type ℓ₁} (r : Result (Unit {0})) (next : Result B) (b : B)
    → (r >> next) ≡ ok b
    → (r ≡ ok tt) × (next ≡ ok b)
then-ok (err e) next b h = cc
then-ok (ok tt) next b h = (refl, h)

pub or_throw-ok {ℓ} :
    {A : Type ℓ} (o : Option A) (e : Code) (a : A) → or_throw o e ≡ ok a → o ≡ some a
or_throw-ok none e a h = cc
or_throw-ok (some b) e a h = ap some (ok-inj h)

pub throw_if-false : (b : Bool) (e : Code) → throw_if b e ≡ ok tt → b ≡ false
throw_if-false true e h = cc
throw_if-false false e h = refl
