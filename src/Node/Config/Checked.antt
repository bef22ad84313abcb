-- ===== src/Node/Config/Checked.antt =====
-- When a configuration is taken.
use better_call_chain.Prelude.{
  ◌≡◌, refl, subst, ◌↔◌, inl, inr, List, [], ◌∷◌, Option, some, Option-cases, ok, Result-cases,
  ensure-yes, ensure-no, Bool-cases, ◌==◌, length, arith,
}
use better_call_chain.Core.Types.{Bytes, Address, address_discrete}
use better_call_chain.Core.Crypto.{Crypto}
use better_call_chain.Core.Address.{from_pubkey_bytes, validate}
use better_call_chain.Node.Errors.{config}
use better_call_chain.Node.State.{SocketAddr}
use better_call_chain.Node.Config.{NodeConfig, RawConfig, parse_all, from_raw}

module _ (c : Crypto) (parse : Bytes → Option SocketAddr) where
  -- Every text is parsed, in order.
  abbrev pub AreParsed : List Bytes → List SocketAddr → Type 0
  AreParsed [] [] = Unit
  AreParsed [] (_ ∷ _) = ⊥
  AreParsed (_ ∷ _) [] = ⊥
  AreParsed (s ∷ ss) (a ∷ addrs) = (parse s ≡ some a) × AreParsed ss addrs

  parse_all-AreParsed :
      (ss : List Bytes) (addrs : List SocketAddr)
      → parse_all c parse ss ≡ ok addrs
      → AreParsed ss addrs
  unfolding parse_all
  parse_all-AreParsed [] [] h = tt
  parse_all-AreParsed [] (_ ∷ _) h = absurd (cc (h))
  parse_all-AreParsed (s ∷ ss) addrs h = elim (Option-cases (parse s)) [
    | inl f ↦ absurd (ground (arith, h, f))
    | inr (a, f) ↦ elim (Result-cases (parse_all c parse ss)) [
      | inr (e, g) ↦ absurd (ground (arith, h, f, g))
      | inl (more, g) ↦
          let same : (a ∷ more) ≡ addrs = ground (arith, h, f, g) in
          subst (AreParsed (s ∷ ss)) same (f, parse_all-AreParsed ss more g)
    ]
  ]

  AreParsed-parse_all :
      (ss : List Bytes) (addrs : List SocketAddr)
      → AreParsed ss addrs
      → parse_all c parse ss ≡ ok addrs
  unfolding parse_all
  AreParsed-parse_all [] [] h = refl
  AreParsed-parse_all [] (_ ∷ _) h = elim h [ ]
  AreParsed-parse_all (_ ∷ _) [] h = elim h [ ]
  AreParsed-parse_all (s ∷ ss) (a ∷ addrs) h = rw (h.0, AreParsed-parse_all ss addrs h.1)

  -- A configuration that the raw one describes, with a key that belongs to the address.
  pub record IsTaken (raw : RawConfig) (cfg : NodeConfig) : Type 0 where
    pub listens : parse raw.listen_addr ≡ some cfg.listen_addr
    pub serves : parse raw.http_addr ≡ some cfg.http_addr
    pub dials : AreParsed raw.bootstrap_peers cfg.bootstrap_peers
    pub named : validate raw.my_address ≡ ok cfg.my_address
    pub keyed : c.hex_decode raw.my_signing_key ≡ some cfg.my_signing_key
    pub sized : length cfg.my_signing_key ≡ 32
    pub owned : from_pubkey_bytes c (c.verifying_key cfg.my_signing_key) ≡ cfg.my_address
    pub kept :
        (cfg.slot_duration_secs ≡ raw.slot_duration_secs)
        × (cfg.sled_path ≡ raw.sled_path)
        × (cfg.mempool_max_size ≡ raw.mempool_max_size)
        × (cfg.genesis_path ≡ raw.genesis_path)

  IsTaken-from_raw :
      (raw : RawConfig) (cfg : NodeConfig) → IsTaken raw cfg → from_raw c parse raw ≡ ok cfg
  unfolding from_raw
  IsTaken-from_raw raw cfg t = rw (
    t.listens,
    t.serves,
    AreParsed-parse_all raw.bootstrap_peers cfg.bootstrap_peers t.dials,
    t.named,
    t.keyed,
    t.sized,
    ensure-yes
        (address_discrete (from_pubkey_bytes c (c.verifying_key cfg.my_signing_key)) cfg.my_address)
        config t.owned,
    ← t.kept.0,
    ← t.kept.1,
    ← t.kept.2,
    ← t.kept.3,
  )

  of_parts :
      (raw : RawConfig) (cfg : NodeConfig) (listen http : SocketAddr) (addrs : List SocketAddr)
      (mine : Address) (key : Bytes)
      → parse raw.listen_addr ≡ some listen
      → parse raw.http_addr ≡ some http
      → parse_all c parse raw.bootstrap_peers ≡ ok addrs
      → validate raw.my_address ≡ ok mine
      → c.hex_decode raw.my_signing_key ≡ some key
      → from_raw c parse raw ≡ ok cfg
      → IsTaken raw cfg
  unfolding from_raw
  of_parts raw cfg listen http addrs mine key e1 e2 e3 e4 e5 h =
      elim (Bool-cases (length key == 32)) [
        | inr short ↦ absurd (ground (arith, h, e1, e2, e3, e4, e5, short))
        | inl sized ↦ elim (address_discrete (from_pubkey_bytes c (c.verifying_key key)) mine) [
          | no n ↦ absurd (
              ground (
                arith,
                h,
                e1,
                e2,
                e3,
                e4,
                e5,
                sized,
                ensure-no (address_discrete (from_pubkey_bytes c (c.verifying_key key)) mine) config
                    n,
              ))
          | yes p ↦
              subst (IsTaken raw)
                (ground (
                  arith,
                  h,
                  e1,
                  e2,
                  e3,
                  e4,
                  e5,
                  sized,
                  ensure-yes (address_discrete (from_pubkey_bytes c (c.verifying_key key)) mine)
                      config p,
                ))
                (record {
                  listens = e1;
                  serves = e2;
                  dials = parse_all-AreParsed raw.bootstrap_peers addrs e3;
                  named = e4;
                  keyed = e5;
                  sized = ground (arith, sized);
                  owned = p;
                  kept = (refl, refl, refl, refl);
                })
        ]
      ]

  from_raw-IsTaken :
      (raw : RawConfig) (cfg : NodeConfig) → from_raw c parse raw ≡ ok cfg → IsTaken raw cfg
  unfolding from_raw
  from_raw-IsTaken raw cfg h = elim (Option-cases (parse raw.listen_addr)) [
    | inl e1 ↦ absurd (ground (arith, h, e1))
    | inr (listen, e1) ↦ elim (Option-cases (parse raw.http_addr)) [
      | inl e2 ↦ absurd (ground (arith, h, e1, e2))
      | inr (http, e2) ↦ elim (Result-cases (parse_all c parse raw.bootstrap_peers)) [
        | inr (_, e3) ↦ absurd (ground (arith, h, e1, e2, e3))
        | inl (addrs, e3) ↦ elim (Result-cases (validate raw.my_address)) [
          | inr (_, e4) ↦ absurd (ground (arith, h, e1, e2, e3, e4))
          | inl (mine, e4) ↦ elim (Option-cases (c.hex_decode raw.my_signing_key)) [
            | inl e5 ↦ absurd (ground (arith, h, e1, e2, e3, e4, e5))
            | inr (key, e5) ↦ of_parts raw cfg listen http addrs mine key e1 e2 e3 e4 e5 h
          ]
        ]
      ]
    ]
  ]

  -- A configuration is taken exactly if it is the one that the raw one describes: all its addresses
  -- are parsed, its own address is valid, and its key has 32 bytes and belongs to that address.
  pub from_raw_iff :
      (raw : RawConfig) (cfg : NodeConfig) → (from_raw c parse raw ≡ ok cfg) ↔ IsTaken raw cfg
  from_raw_iff raw cfg = (from_raw-IsTaken raw cfg, IsTaken-from_raw raw cfg)
