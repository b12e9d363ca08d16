-- ===== src/NatManager.antt =====
-- js-libp2p/src/nat-manager.ts: `NatManager`. The client of the gateway, the addresses and the random ports are other
-- packages': a record has what they answer. Descriptions and gateways are passed on to that client.
pub mod Mapping
use state_channels.Common.{
  ℕ, ltb, Bool, true, false, not, ◌&&◌, ◌||◌, ◌==◌, Option, none, some, List, [], ◌∷◌, ◌++◌, String,
  ite, str_dec, if◌then◌else◌,
}
use state_channels.Errors.{Result, ok, err, ◌>>◌, throw_if, err_invalid_parameters}
use state_channels.Registrar.{or_default}

abbrev pub default_ttl : ℕ
default_ttl = 7200

pub record NatManagerInit : Type 0 where
  pub enabled : Bool
  pub external_address : Option String
  pub local_address : Option String
  pub ttl : Option ℕ
  pub keep_alive : Option Bool

-- `C` stands for the clients of a gateway.
pub record NatManager (C : Type 0) : Type 0 where
  pub started : Bool
  pub enabled : Bool
  pub external_address : Option String
  pub local_address : Option String
  pub ttl : ℕ
  pub keep_alive : Bool
  pub client : Option C

-- What `_start` reads of an address, and the port that `highPort` gives when it comes to it.
pub record Listened : Type 0 where
  pub is_thin_waist : Bool
  pub transport : String
  pub is_loopback : Bool
  pub family : ℕ
  pub port : ℕ
  pub high_port : ℕ

pub data Protocol : Type 0 where
  tcp_protocol udp_protocol : Protocol

pub record PortMapping : Type 0 where
  pub public_port : ℕ
  pub local_port : ℕ
  pub local_address : Option String
  pub protocol : Protocol

pub data Effect : Type 0 where
  map_port : PortMapping → Effect
  add_observed_addr : (address : String) (port : ℕ) (transport : String) → Effect

-- Whether a loop of `_start` ends or an error is thrown, which `afterStart` logs.
pub data Ended : Type 0 where
  finished failed : Ended

-- What other packages answer. `none` stands for a call that throws, but in `is_private_ip` for a text that is no address.
pub record Gateway (C : Type 0) : Type 0 where
  pub upnp_nat : (ttl : ℕ) (keep_alive : Bool) → Option C
  pub external_ip : C → Option String
  pub is_private_ip : String → Option Bool
  pub maps : C → PortMapping → Bool
  pub closes : C → Bool
  pub to_upper_case : String → String

abbrev pub same_text : String → String → Bool
same_text s t = ite (str_dec s t) true false

-- The guards at the head of the loop.
unfoldable pub is_mappable : Listened → Bool
is_mappable a =
    a.is_thin_waist && same_text a.transport "tcp" && not a.is_loopback && (a.family == 4)

-- What follows the call of `client.map`, by whether it throws.
abbrev pub when_mapped : PortMapping → (announced : Effect) → Bool → List Effect × Ended
when_mapped p announced true = (map_port p ∷ announced ∷ [], finished)
when_mapped p announced false = (map_port p ∷ [], failed)

module _ {C : Type 0} where
  unfoldable pub new : NatManagerInit → Result (NatManager C)
  new i = do
    throw_if (ltb (or_default i.ttl default_ttl) default_ttl) err_invalid_parameters
    ok (record {
      started = false;
      enabled = i.enabled;
      external_address = i.external_address;
      local_address = i.local_address;
      ttl = or_default i.ttl default_ttl;
      keep_alive = or_default i.keep_alive true;
      client = none;
    })

  abbrev pub keep_client : NatManager C → Option C → NatManager C × Option C
  keep_client m none = (m, none)
  keep_client m (some c) = (record m { client = some c }, some c)

  abbrev pub client_or_new : Gateway C → NatManager C → Option C → NatManager C × Option C
  client_or_new g m (some c) = (m, some c)
  client_or_new g m none = keep_client m (g.upnp_nat m.ttl m.keep_alive)

  -- `_getClient`
  unfoldable pub get_client : Gateway C → NatManager C → NatManager C × Option C
  get_client g m = client_or_new g m m.client

  -- `this.externalAddress ?? await client.externalIp()`
  abbrev pub public_ip : Gateway C → C → Option String → Option String
  public_ip g c (some ip) = some ip
  public_ip g c none = g.external_ip c

  abbrev pub mapping_of : Gateway C → NatManager C → Listened → PortMapping
  mapping_of g m a = record {
    public_port = a.high_port;
    local_port = a.port;
    local_address = m.local_address;
    protocol = if same_text (g.to_upper_case a.transport) "TCP" then tcp_protocol else udp_protocol;
  }

  -- What follows for an address once it is known whether its public address is private.
  abbrev pub map_public :
      Gateway C → NatManager C → C → Listened → String → Option Bool → List Effect × Ended
  map_public g m c a ip none = ([], failed)
  map_public g m c a ip (some true) = ([], failed)
  map_public g m c a ip (some false) =
      when_mapped (mapping_of g m a) (add_observed_addr ip a.high_port a.transport)
        (g.maps c (mapping_of g m a))

  abbrev pub map_address :
      Gateway C → NatManager C → C → Listened → Option String → List Effect × Ended
  map_address g m c a none = ([], failed)
  map_address g m c a (some ip) = map_public g m c a ip (g.is_private_ip ip)

  -- The body of the loop behind its guards.
  abbrev pub with_client :
      Gateway C → Listened → NatManager C × Option C → NatManager C × (List Effect × Ended)
  with_client g a (m, none) = (m, ([], failed))
  with_client g a (m, some c) = (m, map_address g m c a (public_ip g c m.external_address))

  unfoldable pub open_address :
      Gateway C → NatManager C → Listened → NatManager C × (List Effect × Ended)
  open_address g m a =
      if is_mappable a then with_client g a (get_client g m) else (m, ([], finished))

  -- `stop`
  abbrev pub close_client : Gateway C → NatManager C → Option C → NatManager C
  close_client g m none = m
  close_client g m (some c) = if g.closes c then record m { client = none } else m

  unfoldable pub stop : (is_browser : Bool) → Gateway C → NatManager C → NatManager C
  stop is_browser g m = if is_browser then m else close_client g m m.client

  -- One turn of the loop and those that follow it, unless it throws.
  abbrev pub and_then :
      NatManager C × (List Effect × Ended)
      → (NatManager C → NatManager C × (List Effect × Ended))
      → NatManager C × (List Effect × Ended)
  and_then (m, (es, failed)) next = (m, (es, failed))
  and_then (m, (es, finished)) next = let (m', (es', end)) = next m in (m', (es ++ es', end))

  -- `_start`: the loop over the addresses.
  unfoldable pub open_all :
      Gateway C → NatManager C → List Listened → NatManager C × (List Effect × Ended)
  open_all g m [] = (m, ([], finished))
  open_all g m (a ∷ rest) = and_then (open_address g m a) (λ m'. open_all g m' rest)

  -- `afterStart`
  unfoldable pub after_start :
      (is_browser : Bool)
      → Gateway C
      → NatManager C
      → List Listened
      → NatManager C × (List Effect × Ended)
  after_start is_browser g m rest =
      if is_browser || (not m.enabled || m.started)
      then (m, ([], finished))
      else open_all g (record m { started = true }) rest
